-- ===== src/Recv.antt =====
-- `HandleRecv::process` of event/myevent.cpp: the state machine that reads a request as it arrives.
pub mod Content
pub mod ContentLaws
pub mod Upload
pub mod UploadStream
pub mod ParseLaws
pub mod HeadLoop
pub mod SaveRound
pub mod GetRequest
pub mod Termination
pub mod Returns
pub mod Rule
pub mod Valid
pub mod Kept
pub mod Arming
pub mod RequestText
pub mod RoundTrip
pub mod Parts
pub mod PartHead
pub mod WholeUpload
pub mod PutRequest
pub mod Rearm
pub mod Parse
pub mod FileHead
use cherokee.Base.{
  ℕ, ◌+◌, Bool, true, false, List, [], ◌∷◌, ◌++◌, Option, none, some, if◌then◌else◌, take, drop,
}
use cherokee.Base.Int.{pos}
use cherokee.Fault.{Fault, Result, ok, fault, out_of_range}
use cherokee.Message.{
  MsgStatus, handle_init, handle_head, handle_body, handle_complete, handle_error,
  FileMsgBodyStatus, file_begin_flag, file_head, file_content, file_complete, Request, Response,
  Garbage, new_request, new_response, get_header,
}
use cherokee.Text.{Bytes, codes, crlf, equal, find}
use cherokee.Utils.{modify_events}
use cherokee.World.{
  Effect, modify_wait, delete_wait, shut_down, close_fd, append_file, Tables, set_at,
}
use Content.{Saved, save_content}
use FileHead.{take_file_head}
use Parse.{is_multipart, parse}

-- What the handler finds outside: its descriptor, which files can be opened for appending, and the
-- garbage in the memory of a new `Response`.
pub record Setting : Type 0 where
  pub client_fd : ℕ
  pub can_append : Bytes → Bool
  pub garbage : Garbage

-- The entries of one descriptor in the two maps, and what has been done.
pub record Conn : Type 0 where
  pub req : Request
  pub resp : Option Response
  pub done : List Effect

-- A step of the receive loop goes on, leaves the loop, or faults.
pub data Flow : Type 0 where
  next : Conn → Flow
  leave : Conn → Flow
  crash : Fault → Flow

infixl 5 ◌>>=◌
abbrev pub ◌>>=◌ : Flow → (Conn → Flow) → Flow
next c >>= f = f c
leave c >>= f = leave c
crash e >>= f = crash e

-- A part that works on the request alone.
abbrev pub lift : Conn → Result Request → Flow
lift c (ok r) = next (record c { req = r })
lift c (fault e) = crash e

-- `responseStatus[m_clientFd]`
abbrev pub resp_of : Setting → Option Response → Response
resp_of s none = new_response s.garbage
resp_of s (some p) = p

-- `setBodyFileName`, `modifyWaitFd` for writing, and the new status of the request.
abbrev pub answer : Setting → Bytes → MsgStatus → Conn → Conn
answer s name status c = record {
  req = record c.req { status = status };
  resp = some (record (resp_of s c.resp) { body_file_name = name });
  done = c.done ++ modify_wait s.client_fd (modify_events true true true) ∷ [];
}

abbrev pub redirect : Setting → Conn → Flow
redirect s c = leave (answer s (codes "/redirect") handle_complete c)

abbrev pub boundary_of : Request → Option Bytes
boundary_of r = get_header (codes "boundary") r.msg_header

-- The line at `i` is compared with the boundary; `at` throws where there is none.
pub begin_line : Setting → Conn → ℕ → Option Bytes → Flow
begin_line s c i none = crash out_of_range
begin_line s c i (some boundary) =
    if equal (take i c.req.recv_msg) (b'-' ∷ b'-' ∷ boundary)
    then next (record c {
      req = record c.req { file_msg_status = file_head; recv_msg = drop (i + 2) c.req.recv_msg };
    })
    else redirect s c

pub begin_at : FileMsgBodyStatus → Setting → Conn → Flow
unfolding begin_line
begin_at file_begin_flag s c = elim (find crlf c.req.recv_msg) [
  | none ↦ next c
  | some i ↦ begin_line s c i (boundary_of c.req)
]
begin_at _ s c = next c

pub file_head_at : FileMsgBodyStatus → Conn → Flow
file_head_at file_head c = lift c (take_file_head c.req)
file_head_at _ c = next c

abbrev pub upload_path : Request → Bytes
upload_path r = codes "filedir/" ++ r.recv_file_name

-- After the loop: the bytes are in the file, the rest is kept.
abbrev pub saved_to : Conn → Saved → Conn
saved_to c w = record c {
  req = record c.req {
    recv_msg = w.kept;
    file_msg_status = if w.finished then file_complete else c.req.file_msg_status;
  };
  done = c.done ++ append_file (upload_path c.req) w.written ∷ [];
}

abbrev pub keep_saved : Conn → Result Saved → Flow
keep_saved c (ok w) = next (saved_to c w)
keep_saved c (fault e) = crash e

-- The boundary is looked up in the loop, thus only once there is a `\r`; here, where it is absent,
-- before. No state gets here with no boundary: `begin_line` has looked it up.
pub content_with : Conn → Option Bytes → Flow
content_with c none = crash out_of_range
content_with c (some boundary) = keep_saved c (save_content boundary c.req.recv_msg)

pub content_at : FileMsgBodyStatus → Setting → Conn → Flow
unfolding content_with
content_at file_content s c =
    if s.can_append (upload_path c.req) then content_with c (boundary_of c.req) else leave c
content_at _ s c = next c

pub complete_at : FileMsgBodyStatus → Setting → Conn → Flow
complete_at file_complete s c = redirect s c
complete_at _ s c = next c

-- A POST request that uploads a file.
unfoldable pub upload : Setting → Conn → Flow
unfolding begin_at file_head_at content_at complete_at
upload s c = do
  c1 ← begin_at c.req.file_msg_status s c
  c2 ← file_head_at c1.req.file_msg_status c1
  c3 ← content_at c2.req.file_msg_status s c2
  complete_at c3.req.file_msg_status s c3

-- The body, by the method of the request. Any other method waits for more.
unfoldable pub on_body : Setting → Conn → Flow
on_body s c =
    if equal c.req.request_method (codes "GET")
    then leave (answer s c.req.request_resource handle_complete c)
    else if equal c.req.request_method (codes "POST")
    then (if is_multipart c.req then upload s c else redirect s c)
    else if equal c.req.request_method (codes "PUT")
    then leave (answer s c.req.request_resource handle_body c)
    else next c

pub body_at : MsgStatus → Setting → Conn → Flow
body_at handle_body s c = on_body s c
body_at _ s c = next c

-- One round of the receive loop, on the bytes of one `recv`.
unfoldable pub on_chunk : Setting → Conn → Bytes → Flow
unfolding body_at
on_chunk s c chunk = do c' ← lift c (parse c.req chunk); body_at c'.req.status s c'

-- How the bytes that are there for an event end.
pub data RecvEnd : Type 0 where
  closed : RecvEnd  -- recv returns 0
  would_block : RecvEnd  -- -1 and EAGAIN
  failed : RecvEnd  -- -1 and another errno

unfoldable pub on_end : Setting → Conn → RecvEnd → Conn
on_end s c closed = record c { req = record c.req { status = handle_error } }
on_end s c failed = record c { req = record c.req { status = handle_error } }
on_end s c would_block = record c {
  done = c.done ++ modify_wait s.client_fd (modify_events true true false) ∷ [];
}

-- `while (1) { recvLen = recv(...); ... }` over the results of `recv`.
unfoldable pub recv_loop : Setting → Conn → List Bytes → RecvEnd → Result Conn
unfolding on_end
recv_loop s c [] e = ok (on_end s c e)
recv_loop s c (chunk ∷ chunks) e = elim (on_chunk s c chunk) [
  | next c' ↦ recv_loop s c' chunks e
  | leave c' ↦ ok c'
  | crash f ↦ fault f
]

abbrev pub drop_conn : Setting → List Effect
drop_conn s = delete_wait s.client_fd ∷ shut_down s.client_fd ∷ close_fd (pos s.client_fd) ∷ []

-- What stays in `requestStatus`, and what is done last.
abbrev pub settle : Setting → MsgStatus → Conn → Option Request × List Effect
settle s handle_complete c = (none, c.done)
settle s handle_error c = (none, c.done ++ drop_conn s)
settle s _ c = (some c.req, c.done)

-- `requestStatus[m_clientFd]`
abbrev pub req_of : Option Request → Request
req_of none = new_request
req_of (some r) = r

abbrev pub conn_of : Setting → Tables → Conn
conn_of s t = record {
  req = req_of (t.requests s.client_fd);
  resp = t.responses s.client_fd;
  done = [];
}

abbrev pub store : Setting → Tables → Conn → Option Request × List Effect → Tables × List Effect
store s t c (r, done) = (
  record {
    requests = set_at t.requests s.client_fd r;
    responses = set_at t.responses s.client_fd c.resp;
  },
  done,
)

abbrev pub finish : Setting → Tables → Result Conn → Result (Tables × List Effect)
finish s t (ok c) = ok (store s t c (settle s c.req.status c))
finish s t (fault e) = fault e

-- `HandleRecv::process`
unfoldable pub process : Setting → Tables → List Bytes → RecvEnd → Result (Tables × List Effect)
process s t chunks e = finish s t (recv_loop s (conn_of s t) chunks e)
