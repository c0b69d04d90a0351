-- ===== src/Tests/UploadWitnesses.antt =====
-- The theorems on whole uploads, at concrete inputs.
use cherokee.Base.{
  Bool, true, not, ◌&&◌, List, [], ◌∷◌, ◌++◌, ◌≡◌, refl, ap, arith, ◌==◌, ◌+◌, ◌≤◌, some, none,
  length, if◌then◌else◌,
}
use cherokee.Fault.{ok}
use cherokee.Recv
use cherokee.Send.{again}
use cherokee.Send.Build
use cherokee.Send.Decimal.{to_string, digits_onto}
use cherokee.Send.Download.{download_head}
use cherokee.Send.Page.{status_line, message_header, type_line, option_line}
use cherokee.Recv.RequestText.{IsToken}
use cherokee.System.{no_entries}
use cherokee.System.Exchange.{Answers, reading}
use cherokee.System.Files.{Files, Naming, apply_all, on_files}
use cherokee.System.StoreFetch.{stored, upload-download}
use cherokee.Tests.SendWitnesses.{to_seven}
use cherokee.Tests.SystemWitnesses.{
  ones, ones-AreEnough, host, host-AreHeaders, host-AreKept, version-IsToken,
}
use cherokee.World.{Effect, Tables}
use cherokee.Message.{handle_body, Request, new_request}
use cherokee.Recv.{Conn, recv_loop, would_block}
use cherokee.Recv.Content.{closing}
use cherokee.Recv.Parse.{parse}
use cherokee.Recv.PartHead.{part_head}
use cherokee.Recv.RequestText.{IsPlain}
use cherokee.Recv.UploadStream.{joined}
use cherokee.Recv.WholeUpload.{BeginsUpload}
use cherokee.Tests.Data.{run_recv, on_seven, no_garbage}
use cherokee.Text.{Bytes, codes, crlf, equal, find, is_space}

is_plain : Bytes → Bool
is_plain [] = true
is_plain (c ∷ s) = (not (c == 13) && not (c == 10)) && is_plain s

plain : (s : Bytes) → is_plain s ≡ true → IsPlain s
unfolding is_plain
plain [] h = tt
plain (c ∷ s) h =
    let rest : is_plain s ≡ true = ground arith in (ground arith, ground arith, plain s rest)

abbrev line : Bytes
line = codes "Content-Disposition: form-data; name=\"upload\"; filename=\"ab.txt\""

abbrev other : Bytes
other = codes "Content-Type: text/plain"

abbrev head : Bytes
head =
    codes "POST /upload HTTP/1.1\r\nContent-Type: multipart/form-data; boundary=XY\r\n\r\n"
    ++ part_head (codes "XY") line (other ∷ []) (codes "one\rt")

abbrev parsed : Request
parsed = record new_request {
  status = handle_body;
  request_method = codes "POST";
  request_resource = codes "/upload";
  http_version = codes "HTTP/1.1";
  msg_header =
      (codes "Content-Type", codes "multipart/form-data") ∷ (codes "boundary", codes "XY") ∷ [];
  recv_msg = part_head (codes "XY") line (other ∷ []) (codes "one\rt");
}

head_run : parse new_request head ≡ ok parsed
unfolding run_recv
head_run = refl

begins :
    BeginsUpload on_seven (codes "XY") line (codes "ab.txt") (other ∷ []) (codes "one\rt") parsed
unfolding run_recv is_plain is_space
begins = record {
  in_body = refl;
  posted = refl;
  multipart = refl;
  not_begun = refl;
  boundary = refl;
  unnamed = refl;
  opens = refl;
  plain_boundary = plain (codes "XY") refl;
  plain = plain line refl;
  some_line = λ e. cc;
  names = (47, crlf, refl, refl);
  no_quote = (refl, (refl, (refl, (refl, (refl, (refl, tt))))));
  no_space = (refl, (refl, (refl, (refl, (refl, (refl, tt))))));
  lines = ((plain other refl, λ e. cc, refl), tt);
  waits = refl;
}

-- The rest of the contents.
abbrev contents : List Bytes
contents = codes "wo\r\n--X" ∷ codes "Y--\r\n" ∷ []

-- One file, and others that are not there.
abbrev some_files : Files
some_files path = if equal path (codes "filedir/ab.txt") then some (codes "zero") else none

abbrev one_naming : Naming
one_naming = record { descriptor = λ path. 5; path = λ fd. codes "filedir/ab.txt" }

abbrev to_eight : Build.Setting
to_eight = record to_seven { client_fd = 8 }

abbrev held : Bytes
held =
    stored on_seven (codes "XY") line (codes "ab.txt") (other ∷ []) (codes "one\rt") no_entries head
      contents parsed 7 some_files

held_is : held ≡ codes "zeroone\rtwo"
unfolding equal
held_is = refl

found7 : find (closing (codes "XY")) (codes "one\rt" ++ joined contents) ≡ some 7
unfolding run_recv
found7 = refl

held_size : length (download_head (length held)) + length held ≤ 200
unfolding equal message_header to_string digits_onto status_line type_line option_line
held_size = omega arith

name-IsToken : IsToken (codes "ab.txt")
unfolding is_space
name-IsToken = ((refl, (refl, (refl, (refl, (refl, (refl, tt)))))), λ e. cc)

upload-download_example :
    (t1 : Tables) × (done : List Effect) × (Recv.process on_seven no_entries
        (head ∷ contents)
        would_block
      ≡ ok (t1, done))
    × (let later = on_files (apply_all some_files done) one_naming to_eight in
        Answers
          (reading later (λ path. true) no_garbage)
          later
          t1
          (codes "GET /downl/ab.txt HTTP/1.1\r\nHo" ∷ codes "st: h:80\r\n\r\n" ∷ [])
          would_block
          (ones 300)
          again
          (download_head (length held) ++ held))
upload-download_example =
    upload-download on_seven (codes "XY") line (codes "ab.txt") (other ∷ []) (codes "one\rt")
      no_entries head contents parsed 7 some_files to_eight one_naming (λ path. true) no_garbage
      (codes "GET /downl/ab.txt HTTP/1.1\r\nHo") (codes "st: h:80\r\n\r\n" ∷ []) would_block
      (ones 300) again (codes "HTTP/1.1") host (omega arith) head_run begins (omega arith) found7
      (λ e. omega (arith, e)) refl refl refl name-IsToken version-IsToken host-AreHeaders
      host-AreKept (omega arith) refl (omega (arith, ap length held_is))
      (ones-AreEnough _ 300 (omega (arith, held_size))) (λ e. cc)
