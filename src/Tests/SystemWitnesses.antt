-- ===== src/Tests/SystemWitnesses.antt =====
-- The theorems on requests and their answers, at concrete inputs.
use cherokee.Base.{
  some, if◌then◌else◌, ℕ, zero, suc, ◌+◌, ◌≤◌, true, List, [], ◌∷◌, ◌++◌, none, ◌≡◌, refl, inl,
  arith, length,
}
use cherokee.Fault.{ok}
use cherokee.Message.{handle_body, handle_complete, Request, new_request, get_header}
use cherokee.Recv
use cherokee.Recv.{Conn, would_block, answer, settle, store}
use cherokee.Send.{again, broken, send_loop}
use cherokee.Send.Build.{Sender}
use cherokee.Send.Completion.{ArePositive, send_loop-completes}
use cherokee.Send.Decimal.{to_string, digits_onto}
use cherokee.Send.Deliver.{AreEnough}
use cherokee.Send.Download.{download_head, page_head}
use cherokee.Send.PageLaws.{list_page}
use cherokee.Send.Page.{
  status_line, message_header, type_line, option_line, all_lines, rows, row, file_vec,
}
use cherokee.Send.Pieces.{AreCounts, wire}
use cherokee.Recv.Parse.{parse}
use cherokee.Recv.RequestText.{IsToken, IsPlain, AreHeaders, request_head}
use cherokee.Base.Int.{negsuc, pos}
use cherokee.Recv.Parts.{
  Field, length_field, plain_field, all_written, AreFields, announced, last_value, parse-parts,
}
use cherokee.Send.Build
use cherokee.Send.Redirect.{redirect_head}
use cherokee.System.Serve.{AreKept, serve-file}
use cherokee.System.{no_entries}
use cherokee.System.Exchange.{Answers, reading}
use cherokee.System.Files.{Files}
use cherokee.Tests.Data.{no_garbage}
use cherokee.Tests.SendWitnesses.{to_seven, half_sent, half_sent-IsSending}
use cherokee.Text.{Bytes, codes, equal, is_space}
use cherokee.World.{sent}

-- A socket that takes a byte at a time.
pub ones : ℕ → List ℕ
ones zero = []
ones (suc n) = 1 ∷ ones n

ones-AreCounts : (n : ℕ) → AreCounts (ones n)
unfolding ones
ones-AreCounts zero = tt
ones-AreCounts (suc n) = (omega arith, ones-AreCounts n)

ones-ArePositive : (n : ℕ) → ArePositive (ones n)
unfolding ones
ones-ArePositive zero = tt
ones-ArePositive (suc n) = (omega arith, ones-ArePositive n)

length-ones : (n : ℕ) → length (ones n) ≡ n
unfolding ones
length-ones zero = refl
length-ones (suc n) = omega (arith, length-ones n)

pub ones-AreEnough : (size n : ℕ) → size + 2 ≤ n → AreEnough size (ones n)
ones-AreEnough size n h = (ones-AreCounts n, ones-ArePositive n, omega (arith, length-ones n))

send_loop-completes_example :
    (c' : Sender) × (send_loop to_seven
        (ones 8)
        broken
        (record half_sent { done = sent (codes "HE") ∷ [] })
      ≡ ok c')
    × (c'.resp.status ≡ handle_complete)
    × (c'.req ≡ none)
    × (wire c'.done ≡ [] ++ ((codes "HE" ++ codes "AD") ++ codes "body"))
send_loop-completes_example =
    send_loop-completes to_seven [] (codes "HE" ++ codes "AD") (codes "body") broken (omega arith)
      (omega arith) (ones 8) (record half_sent { done = sent (codes "HE") ∷ [] }) (ones-AreCounts 8)
      (ones-ArePositive 8) (inl refl) half_sent-IsSending (omega (arith, length-ones 8))

abbrev delete_request : List Bytes
delete_request = codes "GET /del/a HT" ∷ codes "TP/1.1\r\n\r\n" ∷ []

abbrev pub seven_reads : Recv.Setting
seven_reads = reading to_seven (λ path. true) no_garbage

abbrev asked : Bytes → Request
asked path = record new_request {
  status = handle_body;
  request_method = codes "GET";
  request_resource = path;
  http_version = codes "HTTP/1.1";
}

pub head_size : length (download_head 3) ≤ 200
unfolding status_line message_header type_line option_line to_string digits_onto equal
head_size = omega arith

abbrev pub page : Bytes
page = list_page (codes "." ∷ codes "a.txt" ∷ []) (codes "<table>" ∷ []) (codes "</table>" ∷ [])

pub page_size : length page ≤ 400
unfolding equal
page_size = omega arith

pub page_head_size : length (page_head (length page)) ≤ 200
unfolding status_line message_header type_line option_line to_string digits_onto equal all_lines
    rows row file_vec
page_head_size = omega arith

abbrev no_files : Files
no_files path = none

-- Two files.
abbrev two_files : Files
two_files path =
    if equal path (codes "filedir/a")
    then some (codes "abc")
    else if equal path (codes "filedir/b")
    then some (codes "xyz")
    else none

-- With a header, in two pieces.
abbrev pub host : List (Bytes × Bytes)
host = (codes "Host", codes "h:80") ∷ []

pub host-AreHeaders : AreHeaders host
unfolding is_space
host-AreHeaders = (
  ((refl, (refl, (refl, (refl, tt)))), λ e. cc),
  (
    λ e. omega (arith, e),
    λ e. omega (arith, e),
    (
      λ e. omega (arith, e),
      λ e. omega (arith, e),
      (
        λ e. omega (arith, e),
        λ e. omega (arith, e),
        (λ e. omega (arith, e), λ e. omega (arith, e), tt),
      ),
    ),
  ),
  tt,
)

pub host-AreKept : AreKept host
unfolding equal
host-AreKept = (refl, refl, tt)

pub a-IsToken : IsToken (codes "a")
unfolding is_space
a-IsToken = ((refl, tt), λ e. cc)

pub version-IsToken : IsToken (codes "HTTP/1.1")
unfolding is_space
version-IsToken = ((refl, (refl, (refl, (refl, (refl, (refl, (refl, (refl, tt)))))))), λ e. cc)

get-IsToken : IsToken (codes "GET")
unfolding is_space
get-IsToken = ((refl, (refl, (refl, tt))), λ e. cc)

serve-file_example :
    Answers seven_reads to_seven no_entries
      (codes "GET /downl/a HTTP/1.1\r\nHo" ∷ codes "st: h:80\r\n\r\n" ∷ [])
      would_block
      (ones 300)
      again
      (download_head 3 ++ codes "abc")
serve-file_example =
    serve-file to_seven (λ path. true) no_garbage no_entries (codes "GET /downl/a HTTP/1.1\r\nHo")
      (codes "st: h:80\r\n\r\n" ∷ []) would_block (ones 300) again (codes "a") (codes "HTTP/1.1")
      (codes "abc") host 9 refl refl refl a-IsToken version-IsToken host-AreHeaders host-AreKept
      (omega arith) refl refl refl (omega arith) (ones-AreEnough _ 300 (omega (arith, head_size)))
      (λ e. cc)

-- The same, where no file opens.
abbrev to_no_file : Build.Setting
to_no_file = record to_seven { open_fd = λ path. negsuc 0 }

pub redirect_size : length redirect_head ≤ 200
unfolding status_line message_header type_line option_line equal
redirect_size = omega arith

-- Two headers of one name, and a Content-Length between them.
abbrev three_fields : List Field
three_fields =
    plain_field (codes "Host") (codes "h:80")
    ∷ length_field 12
    ∷ plain_field (codes "Host") (codes "h:80")
    ∷ []

three_fields-AreFields : AreFields three_fields
unfolding equal
three_fields-AreFields =
    let host : IsToken (codes "Host") = host-AreHeaders.0 in
    let value : IsPlain (codes "h:80") = host-AreHeaders.1 in
    ((host, value, refl, refl), (omega arith, ((host, value, refl, refl), tt)))

parse-parts_example :
    (q : Request) × (parse new_request (
        request_head (codes "GET") (codes "a") (codes "HTTP/1.1") (all_written three_fields)
        ++ codes "xyz")
      ≡ ok q)
    × (q.request_method ≡ codes "GET")
    × (q.request_resource ≡ codes "a")
    × (q.http_version ≡ codes "HTTP/1.1")
    × (q.content_length ≡ announced (pos 0) three_fields)
    × ((key : Bytes) → get_header key q.msg_header ≡ last_value key none three_fields)
    × (q.recv_msg ≡ codes "xyz")
    × (q.status ≡ handle_body)
parse-parts_example =
    parse-parts (codes "GET") (codes "a") (codes "HTTP/1.1") three_fields (codes "xyz") get-IsToken
      a-IsToken version-IsToken three_fields-AreFields
