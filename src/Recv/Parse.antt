-- ===== src/Recv/Parse.antt =====
-- The request line and the message header, in `HandleRecv::process`: both wait until a whole line
-- has arrived.
use cherokee.Base.{
  ℕ, zero, suc, ◌+◌, Bool, true, false, ◌++◌, none, some, if◌then◌else◌, length, take, drop,
}
use cherokee.Fault.{Result, ok, fault, out_of_fuel, ◌>>=◌}
use cherokee.Message.{
  MsgStatus, handle_init, handle_head, handle_body, file_begin_flag, Request, get_header,
}
use cherokee.Message.Header.{set_request_line, add_header_opt}
use cherokee.Text.{Bytes, codes, crlf, equal, find}

-- `getHeaders().at("Content-Type") == "multipart/form-data"`, where there is such a header
unfoldable pub is_multipart : Request → Bool
is_multipart r = elim (get_header (codes "Content-Type") r.msg_header) [
  | none ↦ false
  | some v ↦ equal v (codes "multipart/form-data")
]

-- `if (getStatus() == HANDLE_INIT)`
unfoldable pub line_at : MsgStatus → Request → Request
line_at handle_init r = elim (find crlf r.recv_msg) [
  | none ↦ r
  | some i ↦ record (set_request_line r (take (i + 2) r.recv_msg)) {
    status = handle_head;
    recv_msg = drop (i + 2) r.recv_msg;
  }
]
line_at _ r = r

unfoldable pub take_line : Request → Request
unfolding line_at
take_line r = line_at r.status r

-- At the empty line.
abbrev pub end_head : Request → Request
end_head r = record r {
  status = handle_body;
  file_msg_status = if is_multipart r then file_begin_flag else r.file_msg_status;
}

-- The lines of the header, each with its `\r\n`.
unfoldable pub head_loop : ℕ → Request → Result Request
head_loop zero r = fault out_of_fuel
head_loop (suc f) r = elim (find crlf r.recv_msg) [
  | none ↦ ok r
  | some i ↦
      let line = take (i + 2) r.recv_msg in
      let erased = record r { recv_msg = drop (i + 2) r.recv_msg } in
      elim (equal line crlf) [
        | true ↦ ok (end_head erased)
        | false ↦ add_header_opt erased line >>= λ r'. head_loop f r'
      ]
]

-- `if (getStatus() == HANDLE_HEAD)`. Each round removes a line, so that the rounds are enough.
unfoldable pub head_at : MsgStatus → Request → Result Request
head_at handle_head r = head_loop (suc (length r.recv_msg)) r
head_at _ r = ok r

unfoldable pub take_head : Request → Result Request
unfolding head_at
take_head r = head_at r.status r

-- One receipt of bytes, up to the message body.
unfoldable pub parse : Request → Bytes → Result Request
parse r chunk = take_head (take_line (record r { recv_msg = r.recv_msg ++ chunk }))
