-- ===== src/System/Serve.antt =====
-- From the bytes that a client writes to the bytes that it gets.
use cherokee.Base.{
  ℕ, ◌+◌, ◌<◌, ◌^◌, Bool, false, List, [], ◌∷◌, ◌++◌, none, ◌≡◌, ◌≢◌, refl, sym, ap, ◌∙◌, length,
  append-nil,
}
use cherokee.Base.Int.{pos}
use cherokee.Fault.{ok, ◌>>=◌}
use cherokee.Message.{file_type, Garbage, Request, Response, new_request}
use cherokee.Message.HeaderLaws.{with_recv}
use cherokee.Message.Header.{set_option}
use cherokee.Recv
use cherokee.Recv.{RecvEnd, req_of, resp_of}
use cherokee.Recv.Parse.{parse, end_head}
use cherokee.Recv.RequestText.{IsToken, AreHeaders, request_head, set_all}
use cherokee.Recv.RoundTrip.{with_line, parse-request_head}
use cherokee.Recv.UploadStream.{joined}
use cherokee.Send.Build
use cherokee.Send.{SendStop}
use cherokee.Send.Deliver.{AreEnough}
use cherokee.Send.Download.{download_head}
use cherokee.Send.RoutingLaws.{path_of}
use cherokee.System.Exchange.{AsksFor, Answers, reading, exchange-file}
use cherokee.Text.{Bytes, codes, equal, is_space}
use cherokee.World.{Tables}

-- Headers that the handler only keeps.
abbrev pub AreKept : List (Bytes × Bytes) → Type 0
AreKept [] = Unit
AreKept ((key, value) ∷ hs) =
    (equal key (codes "Content-Length") ≡ false)
    × (equal key (codes "Content-Type") ≡ false)
    × AreKept hs

set_all-AreKept :
    (hs : List (Bytes × Bytes)) (r : Request)
    → AreKept hs
    → (q : Request) × (set_all r hs ≡ ok q)
      × (q.request_method ≡ r.request_method)
      × (q.request_resource ≡ r.request_resource)
unfolding set_option
set_all-AreKept [] r h = (r, refl, refl, refl)
set_all-AreKept ((key, value) ∷ hs) r (n, t, h) = rw (n, t) (set_all-AreKept hs _ h)

-- A new request, for a path, in any pieces.
pub request-AsksFor :
    (r : Recv.Setting) (t : Tables) (chunks : List Bytes) (path version : Bytes)
    (hs : List (Bytes × Bytes))
    → t.requests r.client_fd ≡ none
    → IsToken path
    → IsToken version
    → AreHeaders hs
    → AreKept hs
    → joined chunks ≡ request_head (codes "GET") path version hs
    → AsksFor r t chunks path
unfolding is_space
request-AsksFor r t chunks path version hs new p v headers kept text =
    let (q, sets, method, resource) =
      set_all-AreKept hs (with_line (codes "GET") path version) kept in
    (
      end_head (with_recv [] q),
      ap (λ o. parse (req_of o) (joined chunks)) new
          ∙ ap (parse new_request) (text ∙ sym (append-nil _))
          ∙ parse-request_head (codes "GET") path version hs []
              ((refl, (refl, (refl, tt))), λ e. cc) p v headers
          ∙ ap (λ m. m >>= λ r. ok (end_head (with_recv [] r))) sets,
      refl,
      method,
      resource,
    )

pub path-IsToken : (name : Bytes) → IsToken name → IsToken (path_of (codes "downl") name)
unfolding is_space
path-IsToken name (h, ne) = ((refl, (refl, (refl, (refl, (refl, (refl, (refl, h))))))), λ e. cc)

-- A connection with no entries in the maps, whose client writes the head of a GET request for
-- `/downl/` and a name, in any pieces, where the name and the version have no white space and the
-- headers are well formed and none of them is Content-Length or Content-Type: where the file of that
-- name in the directory of the server opens and has its announced size, path and size are below
-- 2 ^ 63, `send` and `sendfile` are called often enough and take a byte at least each time, and the
-- entry that is made at the end is not of the type of a file, the client gets the header, with the
-- file's size as its Content-Length, and the bytes of the file. The connection is then ready for the
-- next request: no request and no answer is under way, and the last effect is that epoll waits to read
-- from the client, whose descriptor has not been closed.
pub serve-file :
    (s : Build.Setting) (can_append : Bytes → Bool) (garbage : Garbage) (t : Tables) (x : Bytes)
    (xs : List Bytes) (e : RecvEnd) (ns : List ℕ) (stop : SendStop) (name version text : Bytes)
    (hs : List (Bytes × Bytes)) (fd : ℕ)
    → t.requests s.client_fd ≡ none
    → t.responses s.client_fd ≡ none
    → joined (x ∷ xs) ≡ request_head (codes "GET") (path_of (codes "downl") name) version hs
    → IsToken name
    → IsToken version
    → AreHeaders hs
    → AreKept hs
    → length (path_of (codes "downl") name) < 2 ^ 63
    → s.open_fd (codes "filedir/" ++ name) ≡ pos fd
    → s.file_bytes (pos fd) ≡ text
    → s.file_size (pos fd) ≡ length text
    → length text < 2 ^ 63
    → AreEnough (length (download_head (length text)) + length text) ns
    → s.garbage_after.body_type ≢ file_type
    → Answers
        (reading s can_append garbage)
        s
        t
        (x ∷ xs)
        e
        ns
        stop
        (download_head (length text) ++ text)
serve-file s can_append garbage t x xs e ns stop name version text hs fd no_request no_response
      written token v headers kept short opens bytes size small enough no_file =
    let r = reading s can_append garbage in
    let fresh = ap (resp_of r) no_response in
    let path = path_of (codes "downl") name in
    exchange-file s can_append garbage t x xs e ns stop name text fd
      (ap (λ (p : Response). p.status) fresh, ap (λ (p : Response). p.msg_body) fresh)
      (request-AsksFor r t (x ∷ xs) path version hs no_request (path-IsToken name token) v headers
        kept written)
      token.1 short opens bytes size small enough no_file
