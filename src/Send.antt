-- ===== src/Send.antt =====
-- `HandleSend::process` of event/myevent.cpp: the response is built once, then sent piece by piece.
pub mod Build
pub mod Decimal
pub mod Routing
pub mod Page
pub mod Transmit
pub mod Pieces
pub mod Completion
pub mod Deliver
pub mod Download
pub mod HeaderSize
pub mod Bounds
pub mod Resting
pub mod Resume
pub mod Stuck
pub mod Redirect
pub mod Kept
pub mod Arming
pub mod Closing
pub mod RoutingLaws
pub mod PageLaws
use cherokee.Base.{
  ℕ, ◌+◌, ◌-◌, ◌%◌, ◌^◌, Bool, true, false, List, [], ◌∷◌, ◌++◌, Option, none, some, leb, ◌==◌,
  if◌then◌else◌, length, take, drop,
}
use cherokee.Base.Int.{ℤ, pos, negsuc}
use cherokee.Fault.{Fault, Result, ok, fault, hangs}
use cherokee.Message.{
  MsgStatus, handle_init, handle_head, handle_body, handle_complete, handle_error, MsgBodyType,
  file_type, html_type, empty_type, Request, Response, Garbage, new_response, new_request,
}
use cherokee.Recv.{req_of}
use cherokee.Text.{Bytes, codes, crlf, equal}
use cherokee.Utils.{modify_events}
use cherokee.World.{
  Effect, modify_wait, shut_down, close_fd, write_file, open_file, remove_file, sent, Tables,
  set_at,
}
use Build.{Setting, Sender, Flow, next, return, crash, prepare}
use Decimal.{to_string}
use Page.{status_line, message_header, file_list_page}
use Routing.{Route, route}

-- Why sending stops before all is sent: -1 with EAGAIN, or with another errno.
pub data SendStop : Type 0 where
  again broken : SendStop

-- An error is noted in the entry of the request.
unfoldable pub stopped : SendStop → Sender → Sender
stopped again c = c
stopped broken c = record c { req = some (record (req_of c.req) { status = handle_error }) }

-- `send` has taken `n` bytes of what is before the body.
unfoldable pub sent_head : ℕ → Sender → Sender
sent_head n c =
    let p = c.resp in
    let cur = (p.cur_status_has_send_len + n) % 2 ^ 64 in
    let whole = leb p.before_body_msg_len cur in
    record {
      req = c.req;
      resp = record p {
        cur_status_has_send_len = if whole then 0 else cur;
        status = if whole then handle_body else handle_head;
      };
      done = c.done ++ sent (take n (drop p.cur_status_has_send_len p.before_body_msg)) ∷ [];
    }

-- `send` or `sendfile` has taken `n` bytes of the body.
unfoldable pub sent_body : Bytes → ℕ → Sender → Sender
sent_body body n c =
    let p = c.resp in
    let cur = (p.cur_status_has_send_len + n) % 2 ^ 64 in
    let whole = leb p.msg_body_len cur in
    record {
      req = c.req;
      resp = record p {
        cur_status_has_send_len = if whole then 0 else cur;
        status = if whole then handle_complete else handle_body;
      };
      done = c.done ++ sent (take n (drop p.cur_status_has_send_len body)) ∷ [];
    }

abbrev pub sent_nothing : Sender → Sender
sent_nothing c = record c {
  resp = record c.resp { status = handle_complete; cur_status_has_send_len = 0 };
}

-- The body that is sent, `none` for a response that has none.
abbrev pub body_of : Setting → MsgBodyType → Bytes → ℤ → Option Bytes
body_of s html_type page fd = some page
body_of s file_type page fd = some (s.file_bytes fd)
body_of s empty_type page fd = none

abbrev pub body_at : Setting → Response → Option Bytes
body_at s p = body_of s p.body_type p.msg_body p.file_msg_fd

-- What a round of the loop does.
pub data Round : Type 0 where
  send_head : Round  -- `send` of what is before the body
  send_body : Bytes → Round  -- `send` or `sendfile` of the body
  no_body : Round  -- EMPTY_TYPE: done
  gives_up : Round  -- HANDLE_ERROR: `break`
  spins : Round  -- neither branch: round again for ever

abbrev body_round : Option Bytes → Round
body_round none = no_body
body_round (some b) = send_body b

pub round_at : MsgStatus → Option Bytes → Round
round_at handle_head body = send_head
round_at handle_body body = body_round body
round_at handle_error body = gives_up
round_at _ body = spins

unfoldable pub round_of : Setting → Response → Round
unfolding round_at
round_of s p = round_at p.status (body_at s p)

abbrev pub is_whole : ℕ → Response → Bool
is_whole n p = leb p.msg_body_len ((p.cur_status_has_send_len + n) % 2 ^ 64)

-- The `while (1)` over the counts that `send` and `sendfile` return, which end by `stop`. It leaves
-- when the body is sent, when sending stops, or at HANDLE_ERROR. The list holds the counts of a call of
-- the handler that comes to an end: a file that gives no more bytes makes `sendfile` return 0 for ever,
-- and the handler then never ends (Send/Stuck).
unfoldable pub send_loop : Setting → List ℕ → SendStop → Sender → Result Sender
unfolding stopped
send_loop s [] stop c = elim (round_of s c.resp) [
  | send_head ↦ ok (stopped stop c)
  | send_body body ↦ ok (stopped stop c)
  | no_body ↦ ok (sent_nothing c)
  | gives_up ↦ ok c
  | spins ↦ fault hangs
]
send_loop s (n ∷ ns) stop c = elim (round_of s c.resp) [
  | send_head ↦ send_loop s ns stop (sent_head n c)
  | send_body body ↦ elim (is_whole n c.resp) [
    | true ↦ ok (sent_body body n c)
    | false ↦ send_loop s ns stop (sent_body body n c)
  ]
  | no_body ↦ ok (sent_nothing c)
  | gives_up ↦ ok c
  | spins ↦ fault hangs
]

-- After `erase` the entry is looked up once more, which makes a new one; what is closed is the
-- descriptor that the new one happens to hold.
abbrev pub last_close : Setting → MsgBodyType → List Effect
last_close s file_type = close_fd s.garbage_after.file_msg_fd ∷ []
last_close s _ = []

abbrev pub renew : Setting → List Effect → Sender → Sender
renew s es c = record c {
  resp = new_response s.garbage_after;
  done = c.done ++ (es ++ last_close s s.garbage_after.body_type);
}

unfoldable pub conclude : MsgStatus → Setting → Sender → Sender
conclude handle_complete s c =
    renew s (modify_wait s.client_fd (modify_events true true false) ∷ []) c
conclude handle_error s c =
    renew s
      (modify_wait s.client_fd (modify_events true false false)
        ∷ shut_down s.client_fd
        ∷ close_fd (pos s.client_fd)
        ∷ [])
      c
conclude _ s c = record c {
  done = c.done ++ modify_wait s.client_fd (modify_events true true true) ∷ [];
}

abbrev pub conclude_result : Setting → Result Sender → Result Sender
conclude_result s (ok c) = ok (conclude c.resp.status s c)
conclude_result s (fault e) = fault e

abbrev pub after_prepare : Setting → List ℕ → SendStop → Flow → Result Sender
after_prepare s ns stop (next c) = conclude_result s (send_loop s ns stop c)
after_prepare s ns stop (return c) = ok c
after_prepare s ns stop (crash e) = fault e

-- The handler on the entries of its descriptor, where there is a response.
unfoldable pub send_response : Setting → List ℕ → SendStop → Sender → Result Sender
unfolding conclude
send_response s ns stop c = after_prepare s ns stop (prepare s c)

abbrev pub store : Setting → Tables → Result Sender → Result (Tables × List Effect)
store s t (fault e) = fault e
store s t (ok c) = ok (
  record {
    requests = set_at t.requests s.client_fd c.req;
    responses = set_at t.responses s.client_fd (some c.resp);
  },
  c.done,
)

abbrev pub process_at :
    Setting → Tables → List ℕ → SendStop → Option Response → Result (Tables × List Effect)
process_at s t ns stop none = ok (t, [])
process_at s t ns stop (some p) =
    store s t
      (send_response s ns stop (record { req = t.requests s.client_fd; resp = p; done = [] }))

-- `HandleSend::process`
unfoldable pub process : Setting → Tables → List ℕ → SendStop → Result (Tables × List Effect)
process s t ns stop = process_at s t ns stop (t.responses s.client_fd)
