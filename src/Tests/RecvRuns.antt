-- ===== src/Tests/RecvRuns.antt =====
-- Requests read by `HandleRecv::process`, evaluated.
use cherokee.Base.{[], ◌∷◌, some, ◌≡◌, refl}
use cherokee.Base.Int.{pos}
use cherokee.Fault.{ok, fault, out_of_range, invalid_argument, undefined}
use cherokee.Message.{new_request, new_response, handle_complete, file_complete}
use cherokee.Message.Header.{add_header_opt}
use cherokee.Recv.{recv_loop, would_block}
use cherokee.Text.{codes}
use cherokee.World.{modify_wait, append_file}
use cherokee.Tests.Data.{
  run_header, run_recv, no_garbage, on_seven, fresh, multipart_line, upload_head,
}

header_pair :
    add_header_opt new_request multipart_line
    ≡ ok (record new_request {
      msg_header =
          (codes "Content-Type", codes "multipart/form-data") ∷ (codes "boundary", codes "XY") ∷ [];
    })
unfolding run_header
header_pair = refl

-- With no `=` the name runs to the end, and the value is the whole text.
header_no_eq :
    add_header_opt new_request (codes "Content-Type: a;xbc\r\n")
    ≡ ok (record new_request {
      msg_header = (codes "Content-Type", codes "a") ∷ (codes "bc", codes "a;xbc") ∷ [];
    })
unfolding run_header
header_no_eq = refl

header_length :
    add_header_opt new_request (codes "Content-Length: 123\r\n")
    ≡ ok (record new_request { content_length = pos 123 })
unfolding run_header
header_length = refl

header_faults :
    (add_header_opt new_request (codes "Content-Length: abc\r\n") ≡ fault invalid_argument)
    × (add_header_opt new_request (codes "Content-Length: 9223372036854775808\r\n")
        ≡ fault out_of_range)
    × (add_header_opt new_request (codes " \r\n") ≡ fault undefined)
unfolding run_header
header_faults = (refl, refl, refl)

get_run :
    recv_loop on_seven fresh
      (codes "GET /do" ∷ codes "wnl/a.txt HTTP/1.1\r\nHost: h\r\n\r\n" ∷ [])
      would_block
    ≡ ok (record {
      req = record new_request {
        status = handle_complete;
        request_method = codes "GET";
        request_resource = codes "/downl/a.txt";
        http_version = codes "HTTP/1.1";
        msg_header = (codes "Host", codes "h") ∷ [];
      };
      resp = some (record (new_response no_garbage) { body_file_name = codes "/downl/a.txt" });
      done = modify_wait 7 3221225477 ∷ [];
    })
unfolding run_recv
get_run = refl

upload_done :
    recv_loop on_seven fresh
      (upload_head ∷ codes "one\rtwo\r\n--X" ∷ codes "Z\r\n--XY--\r\n" ∷ [])
      would_block
    ≡ ok (record {
      req = record new_request {
        status = handle_complete;
        request_method = codes "POST";
        request_resource = codes "/upload";
        http_version = codes "HTTP/1.1";
        msg_header =
            (codes "Content-Type", codes "multipart/form-data")
            ∷ (codes "boundary", codes "XY")
            ∷ [];
        recv_msg = codes "\r\n--XY--\r\n";
        recv_file_name = codes "ab.txt";
        file_msg_status = file_complete;
      };
      resp = some (record (new_response no_garbage) { body_file_name = codes "/redirect" });
      done =
          append_file (codes "filedir/ab.txt") []
          ∷ append_file (codes "filedir/ab.txt") (codes "one")
          ∷ append_file (codes "filedir/ab.txt") (codes "\rtwo\r\n--XZ")
          ∷ modify_wait 7 3221225477
          ∷ [];
    })
unfolding run_recv
upload_done = refl
