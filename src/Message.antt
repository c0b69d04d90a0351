-- ===== src/Message.antt =====
-- message/message.h: the enumerations, and the state of a request and of a response. The base
-- class `Message` is flattened into both records.
pub mod Header
pub mod HeaderLaws
use cherokee.Base.{ℕ, Bool, List, [], ◌∷◌, Option, none, some, if◌then◌else◌}
use cherokee.Base.Int.{ℤ, pos}
use cherokee.Text.{Bytes, equal}

pub data MsgStatus : Type 0 where
  handle_init handle_head handle_body handle_complete handle_error : MsgStatus

pub data MsgBodyType : Type 0 where
  file_type html_type empty_type : MsgBodyType

pub data FileMsgBodyStatus : Type 0 where
  file_begin_flag file_head file_content file_complete : FileMsgBodyStatus

-- `msgHeader`, a map from names to values.
abbrev pub Headers : Type 0
Headers = List (Bytes × Bytes)

-- `msgHeader.find(key)`, `msgHeader.at(key)`
unfoldable pub get_header : Bytes → Headers → Option Bytes
unfolding equal
get_header k [] = none
get_header k ((j, v) ∷ m) = if equal j k then some v else get_header k m

-- `msgHeader[key] = value`
unfoldable pub set_header : Bytes → Bytes → Headers → Headers
unfolding equal
set_header k v [] = (k, v) ∷ []
set_header k v ((j, w) ∷ m) = if equal j k then (k, v) ∷ m else (j, w) ∷ set_header k v m

pub record Request : Type 0 where
  pub status : MsgStatus
  pub msg_header : Headers
  pub recv_msg : Bytes
  pub request_method : Bytes
  pub request_resource : Bytes
  pub http_version : Bytes
  pub content_length : ℤ
  pub msg_body_recv_len : ℤ
  pub recv_file_name : Bytes
  pub file_msg_status : FileMsgBodyStatus

-- `Request()`
abbrev pub new_request : Request
new_request = record {
  status = handle_init;
  msg_header = [];
  recv_msg = [];
  request_method = [];
  request_resource = [];
  http_version = [];
  content_length = pos 0;
  msg_body_recv_len = pos 0;
  recv_file_name = [];
  file_msg_status = file_begin_flag;
}

pub record Response : Type 0 where
  pub status : MsgStatus
  pub msg_header : Headers
  pub body_file_name : Bytes
  pub before_body_msg : Bytes
  pub msg_body : Bytes
  pub msg_body_len : ℕ
  pub before_body_msg_len : ℕ
  pub body_type : MsgBodyType
  pub file_msg_fd : ℤ
  pub cur_status_has_send_len : ℕ
  pub response_http_version : Bytes
  pub response_status_code : Bytes
  pub response_status_des : Bytes

-- What the memory of a new response happens to hold in the members that `Response()` leaves alone.
pub record Garbage : Type 0 where
  pub msg_body_len : ℕ
  pub before_body_msg_len : ℕ
  pub body_type : MsgBodyType
  pub file_msg_fd : ℤ
  pub cur_status_has_send_len : ℕ

-- `Response()`
abbrev pub new_response : Garbage → Response
new_response g = record {
  status = handle_init;
  msg_header = [];
  body_file_name = [];
  before_body_msg = [];
  msg_body = [];
  msg_body_len = g.msg_body_len;
  before_body_msg_len = g.before_body_msg_len;
  body_type = g.body_type;
  file_msg_fd = g.file_msg_fd;
  cur_status_has_send_len = g.cur_status_has_send_len;
  response_http_version = [];
  response_status_code = [];
  response_status_des = [];
}
