-- ===== src/Tests/PutWitnesses.antt =====
-- The theorem on PUT requests, at a concrete input.
use cherokee.Base.{◌≤◌, true, [], ◌∷◌, some, ◌≡◌, refl, arith, length}
use cherokee.Base.Int.{pos}
use cherokee.Fault.{ok}
use cherokee.Message.{handle_body, Request, new_request}
use cherokee.Recv.{would_block}
use cherokee.Recv.Parse.{parse}
use cherokee.Send.{again}
use cherokee.Send.Page.{status_line, message_header, type_line, option_line}
use cherokee.System.{no_entries}
use cherokee.System.Exchange.{reading}
use cherokee.System.Files.{Files, put_at}
use cherokee.System.Put.{put_head, Puts, exchange-put}
use cherokee.Tests.Data.{run_recv, no_garbage}
use cherokee.Tests.SendWitnesses.{to_seven}
use cherokee.Tests.SystemWitnesses.{ones, ones-AreEnough}
use cherokee.Text.{Bytes, codes, equal}

abbrev put_text : Bytes
put_text = codes "PUT /put/a HTTP/1.1\r\nContent-Length: 9\r\n\r\nabc"

-- Three of nine bytes of the body have come.
abbrev put_request : Request
put_request = record new_request {
  status = handle_body;
  request_method = codes "PUT";
  request_resource = codes "/put/a";
  http_version = codes "HTTP/1.1";
  content_length = pos 9;
  recv_msg = codes "abc";
}

put_parsed : parse new_request put_text ≡ ok put_request
unfolding run_recv
put_parsed = refl

put_size : length put_head ≤ 200
unfolding status_line message_header type_line option_line equal
put_size = omega arith

abbrev old_files : Files
old_files path = some (codes "old")

exchange-put_example :
    Puts
      (reading to_seven (λ path. true) no_garbage)
      to_seven
      no_entries
      old_files
      (put_text ∷ codes "def" ∷ [])
      would_block
      (ones 300)
      again
      (put_at old_files (codes "filedir/a") (some (codes "abc")))
      put_head
      put_request
exchange-put_example =
    exchange-put to_seven (λ path. true) no_garbage no_entries put_request put_text
      (codes "def" ∷ []) would_block (ones 300) again (codes "a") old_files (refl, refl) put_parsed
      refl refl refl (λ e. cc) (omega arith) refl (ones-AreEnough _ 300 (omega (arith, put_size)))
