-- ===== src/Tests/Data.antt =====
-- Connections and messages for the tests, and names by which a test opens many definitions at once.
use cherokee.Base.{true, List, [], none}
use cherokee.Base.Int.{pos}
use cherokee.Fault.{Result}
use cherokee.Message.{html_type, Garbage, Request, new_request, get_header, set_header}
use cherokee.Message.Header.{
  add_header_opt, set_option, add_content_type, stoll, digits, digits_from, strip_cr, substr,
  set_request_line,
}
use cherokee.Recv.{Setting, Conn, on_chunk, on_body, upload, recv_loop, RecvEnd}
use cherokee.Recv.Content.{save_content, save_loop, next_save}
use cherokee.Recv.FileHead.{take_file_head, file_head_loop, file_line, read_name, remove_spaces}
use cherokee.Recv.Parse.{parse, take_line, take_head, head_loop, is_multipart}
use cherokee.Text.{
  Bytes, codes, equal, find, starts_with, find_byte, find_byte_from, is_space, skip_space, word,
  after_word, read_token, line_of, last_byte, pop_back,
}
use cherokee.Utils.{modify_events}

-- The definitions that a run opens.
unfoldable pub run_header : Request → Bytes → Result Request
unfolding add_header_opt set_option add_content_type stoll digits digits_from strip_cr substr
    read_token skip_space word after_word is_space line_of last_byte pop_back find_byte
    find_byte_from equal set_header
run_header = add_header_opt

unfoldable pub run_recv : Setting → Conn → List Bytes → RecvEnd → Result Conn
unfolding run_header recv_loop on_chunk on_body upload parse take_line take_head head_loop
    is_multipart set_request_line get_header find starts_with take_file_head file_head_loop
    file_line read_name remove_spaces save_content save_loop next_save modify_events
run_recv = recv_loop

abbrev pub no_garbage : Garbage
no_garbage = record {
  msg_body_len = 0;
  before_body_msg_len = 0;
  body_type = html_type;
  file_msg_fd = pos 0;
  cur_status_has_send_len = 0;
}

abbrev pub on_seven : Setting
on_seven = record { client_fd = 7; can_append = λ _. true; garbage = no_garbage }

abbrev pub fresh : Conn
fresh = record { req = new_request; resp = none; done = [] }

abbrev pub multipart_line : Bytes
multipart_line = codes "Content-Type: multipart/form-data; boundary=XY\r\n"

abbrev pub upload_head : Bytes
upload_head =
    codes
      "POST /upload HTTP/1.1\r\nContent-Type: multipart/form-data; boundary=XY\r\n\r\n--XY\r\nContent-Disposition: form-data; name=\"upload\"; filename=\"a b.txt\"\r\n\r\n"
