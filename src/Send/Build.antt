-- ===== src/Send/Build.antt =====
-- The first part of `HandleSend::process`: the response is built, by the path.
use cherokee.Base.{
  ℕ, ◌+◌, ◌-◌, ◌%◌, ◌^◌, Bool, true, false, List, [], ◌∷◌, ◌++◌, Option, some, ◌==◌, if◌then◌else◌,
  length,
}
use cherokee.Base.Int.{ℤ, pos, negsuc}
use cherokee.Fault.{Fault, Result, ok, fault}
use cherokee.Message.{
  MsgStatus, handle_init, handle_head, MsgBodyType, file_type, html_type, empty_type, Request,
  Response, Garbage, new_response,
}
use cherokee.Recv.{req_of}
use cherokee.Text.{Bytes, codes, crlf, equal}
use cherokee.Utils.{modify_events}
use cherokee.World.{Effect, modify_wait, write_file, open_file, remove_file}
use cherokee.Send.Decimal.{to_string}
use cherokee.Send.Page.{status_line, message_header, file_list_page}
use cherokee.Send.Routing.{Route, route}

-- What the handler finds outside.
pub record Setting : Type 0 where
  pub client_fd : ℕ
  pub open_fd : Bytes → ℤ  -- `open` for reading, by path
  pub file_size : ℤ → ℕ  -- `fstat`
  pub file_bytes : ℤ → Bytes  -- what `sendfile` reads
  pub can_write : Bytes → Bool  -- whether an ofstream opens
  pub can_remove : Bytes → Bool  -- whether `remove` returns 0
  pub names : Option (List Bytes)  -- the directory, `none` where it cannot be opened
  pub template : List Bytes  -- the lines of html/filelist.html
  pub garbage : Garbage  -- in the memory of a `Response()` that is assigned
  pub garbage_after : Garbage  -- and of the one that the last look-up makes

-- The entries of the descriptor, and what has been done.
pub record Sender : Type 0 where
  pub req : Option Request
  pub resp : Response
  pub done : List Effect

-- The first part builds a response, or returns at once with another path to answer.
pub data Flow : Type 0 where
  next : Sender → Flow
  return : Sender → Flow
  crash : Fault → Flow

abbrev filedir : Bytes → Bytes
filedir name = codes "filedir/" ++ name

-- `getStatusLine` keeps the three parts in the response, too.
abbrev pub begin_response : Bytes → Bytes → Response → Response
begin_response code description p = record p {
  before_body_msg = status_line (codes "HTTP/1.1") code description;
  response_http_version = codes "HTTP/1.1";
  response_status_code = code;
  response_status_des = description;
}

-- The header and the empty line are put behind the status line, and sending may begin.
abbrev pub end_response : Bytes → MsgBodyType → Response → Response
end_response header type p =
    let head = (p.before_body_msg ++ header) ++ crlf in
    record p {
      before_body_msg = head;
      before_body_msg_len = length head;
      body_type = type;
      status = handle_head;
      cur_status_has_send_len = 0;
    }

-- `responseStatus[fd] = Response()`, another path, and `modifyWaitFd` for writing.
abbrev pub start_over : Setting → Bytes → Sender → Sender
start_over s name c = record c {
  resp = record (new_response s.garbage) { body_file_name = name };
  done = c.done ++ modify_wait s.client_fd (modify_events true true true) ∷ [];
}

abbrev pub page_response : Bytes → Response → Response
page_response page p =
    end_response (message_header (to_string (length page)) (codes "html") [] []) html_type
      (record (begin_response (codes "200") (codes "OK") p) {
        msg_body = page;
        msg_body_len = length page;
      })

abbrev pub page_flow : Sender → Result Bytes → Flow
page_flow c (fault e) = crash e
page_flow c (ok page) = next (record c { resp = page_response page c.resp })

unfoldable pub send_page : Setting → Sender → Flow
send_page s c = page_flow c (file_list_page c.resp.msg_body s.names s.template)

abbrev pub is_minus_one : ℤ → Bool
is_minus_one (pos n) = false
is_minus_one (negsuc n) = n == 0

-- The length less one goes where `getMessageHeader` takes the redirection's address.
abbrev pub file_response : ℤ → ℕ → Response → Response
file_response fd size p =
    end_response
      (message_header (to_string size) (codes "file") (to_string ((size + 2 ^ 64 - 1) % 2 ^ 64)) [])
      file_type
      (record (begin_response (codes "200") (codes "OK") p) {
        file_msg_fd = fd;
        msg_body_len = size;
      })

unfoldable pub send_file : Setting → Bytes → Sender → Flow
send_file s filename c =
    let path = filedir filename in
    let fd = s.open_fd path in
    let opened = record c { done = c.done ++ open_file path ∷ [] } in
    if is_minus_one fd
    then return (start_over s (codes "/redirect") opened)
    else next (record opened { resp = file_response fd (s.file_size fd) c.resp })

-- A `remove` that fails is logged, and answered like one that succeeds.
unfoldable pub delete_file : Setting → Bytes → Sender → Flow
delete_file s filename c =
    let path = filedir filename in
    let removed = if s.can_remove path then remove_file path ∷ [] else [] in
    return (start_over s (codes "/") (record c { done = c.done ++ removed }))

abbrev pub empty_response : Bytes → Bytes → Bytes → Response → Response
empty_response code description location p =
    end_response (message_header (codes "0") (codes "html") location []) empty_type
      (begin_response code description p)

-- `requestStatus[fd].recvMsg` is the body; the look-up makes an entry where there is none.
unfoldable pub put_file : Setting → Bytes → Sender → Flow
put_file s filename c =
    let path = filedir filename in
    let r = req_of c.req in
    if s.can_write path
    then next (record {
      req = some r;
      resp = empty_response (codes "200") (codes "OK") [] c.resp;
      done = c.done ++ write_file path r.recv_msg ∷ [];
    })
    else return (start_over s (codes "/redirect") c)

unfoldable pub send_redirect : Sender → Flow
send_redirect c = next (record c {
  resp = empty_response (codes "302") (codes "Moved Temporarily") (codes "/") c.resp;
})

unfoldable pub dispatch : Setting → Route → Sender → Flow
dispatch s t c =
    if equal t.opera (codes "/")
    then send_page s c
    else if equal t.opera (codes "downl")
    then send_file s t.filename c
    else if equal t.opera (codes "del")
    then delete_file s t.filename c
    else if equal t.opera (codes "put")
    then put_file s t.filename c
    else send_redirect c

abbrev pub dispatch_result : Setting → Sender → Result Route → Flow
dispatch_result s c (fault e) = crash e
dispatch_result s c (ok t) = dispatch s t c

-- `if (getStatus() == HANDLE_INIT)`
unfoldable pub prepare_at : MsgStatus → Setting → Sender → Flow
prepare_at handle_init s c = dispatch_result s c (route c.resp.body_file_name)
prepare_at _ s c = next c

unfoldable pub prepare : Setting → Sender → Flow
unfolding prepare_at
prepare s c = prepare_at c.resp.status s c
