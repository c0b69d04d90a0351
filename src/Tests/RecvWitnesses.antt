-- ===== src/Tests/RecvWitnesses.antt =====
-- The theorems on receiving, at concrete inputs.
use cherokee.Base.{List, [], ◌∷◌, ◌++◌, ◌≡◌, refl, arith, none, ◌≢◌, ◌⊎◌}
use cherokee.Fault.{ok, ◌>>=◌, fault, out_of_fuel}
use cherokee.Message.{Request, new_request, handle_body, file_content, handle_complete}
use cherokee.Recv.{Conn, would_block, process, answer, settle, store}
use cherokee.Recv.Parse.{parse}
use cherokee.Recv.ParseLaws.{parse-append}
use cherokee.Recv.Rearm.{IsDropped, process-IsArmed}
use cherokee.Recv.Returns.{IsArmed, process-ne-out_of_fuel}
use cherokee.Recv.Upload.{IsUploading}
use cherokee.Recv.UploadStream.{IsWaiting, Stream, recv_loop-Uploaded}
use cherokee.Tests.Data.{run_recv, on_seven, fresh}
use cherokee.World.{Effect, Tables}
use cherokee.Text.{Bytes, codes}

abbrev uploading : Conn
uploading = record fresh {
  req = record new_request {
    status = handle_body;
    request_method = codes "POST";
    msg_header =
        (codes "Content-Type", codes "multipart/form-data") ∷ (codes "boundary", codes "XY") ∷ [];
    recv_file_name = codes "a.txt";
    file_msg_status = file_content;
  };
}

abbrev pieces : List Bytes
pieces = codes "one\rtwo\r\n--X" ∷ codes "Z\r\n--XY--\r\n" ∷ []

uploading_example : IsUploading on_seven (codes "XY") uploading.req
unfolding run_recv
uploading_example = record {
  in_body = refl;
  posted = refl;
  multipart = refl;
  in_content = refl;
  boundary = refl;
  opens = refl;
}

uploading-IsWaiting : IsWaiting (codes "XY") uploading
unfolding run_recv
uploading-IsWaiting = record { absent = refl; short = omega arith }

recv_loop-Uploaded_example : Stream on_seven (codes "XY") uploading pieces
recv_loop-Uploaded_example =
    recv_loop-Uploaded on_seven (codes "XY") uploading pieces (omega arith) uploading_example
      uploading-IsWaiting (omega arith)

abbrev got : Request
got = record new_request {
  status = handle_body;
  request_method = codes "GET";
  request_resource = codes "/";
  http_version = codes "HTTP/1.1";
}

parse-append_example :
    parse new_request (codes "GET / HTTP/1.1\r" ++ codes "\nHost: h\r\n")
    ≡ (parse new_request (codes "GET / HTTP/1.1\r") >>= λ r. parse r (codes "\nHost: h\r\n"))
parse-append_example = parse-append new_request (codes "GET / HTTP/1.1\r") (codes "\nHost: h\r\n")

abbrev no_tables : Tables
no_tables = record { requests = λ fd. none; responses = λ fd. none }

process-ne-out_of_fuel_example :
    process on_seven no_tables (codes "GET / HTTP/1.1\r\n\r\n" ∷ []) would_block ≢ fault out_of_fuel
process-ne-out_of_fuel_example =
    process-ne-out_of_fuel on_seven no_tables (codes "GET / HTTP/1.1\r\n\r\n" ∷ []) would_block

abbrev answered : Conn
answered = answer on_seven (codes "/") handle_complete (record fresh { req = got })

abbrev stored : Tables × List Effect
stored = store on_seven no_tables answered (settle on_seven handle_complete answered)

got_process :
    process on_seven no_tables (codes "GET / HT" ∷ codes "TP/1.1\r\n\r\n" ∷ []) would_block
    ≡ ok (stored.0, stored.1)
unfolding process run_recv
got_process = refl

process-IsArmed_example : IsArmed on_seven stored.1 ⊎ IsDropped on_seven stored.0 stored.1
process-IsArmed_example =
    process-IsArmed on_seven no_tables stored.0 (codes "GET / HT" ∷ codes "TP/1.1\r\n\r\n" ∷ [])
      would_block stored.1 (λ path. refl) got_process
