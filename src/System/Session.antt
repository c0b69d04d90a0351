-- ===== src/System/Session.antt =====
-- Many requests one after the other on one connection.
use cherokee.Base.{
  ℕ, ◌+◌, ◌<◌, ◌^◌, Bool, List, [], ◌∷◌, ◌++◌, none, some, ◌≡◌, ◌≢◌, refl, ap, sym, length,
}
use cherokee.Base.Int.{pos}
use cherokee.Fault.{ok}
use cherokee.Message.{file_type, Garbage}
use cherokee.Recv
use cherokee.Recv.{RecvEnd}
use cherokee.Recv.RequestText.{IsToken, AreHeaders, request_head}
use cherokee.Recv.UploadStream.{joined}
use cherokee.Send
use cherokee.Send.{SendStop}
use cherokee.Send.Build
use cherokee.Send.Deliver.{AreEnough}
use cherokee.Send.Download.{download_head, page_head}
use cherokee.Send.Page.{label}
use cherokee.Send.PageLaws.{NoLabel, list_page}
use cherokee.Send.Pieces.{wire}
use cherokee.Send.RoutingLaws.{path_of}
use cherokee.System.Exchange.{
  IsIdle, IsReady, Answers, AsksFor, reading, exchange-file, exchange-page,
}
use cherokee.System.Serve.{AreKept, request-AsksFor, path-IsToken}
use cherokee.Text.{Bytes, codes, is_space}
use cherokee.World.Arming.{for_writing}
use cherokee.World.{modify_wait, Effect, Tables}

-- A file, by its name, with its text and its descriptor, or the list page.
pub data Want : Type 0 where
  want_file : Bytes → Bytes → ℕ → Want
  want_page : List Bytes → List Bytes → List Bytes → Want

abbrev pub path : Want → Bytes
path (want_file name text fd) = path_of (codes "downl") name
path (want_page names before after) = b'/' ∷ []

abbrev pub head_of : Want → Bytes
head_of (want_file name text fd) = download_head (length text)
head_of (want_page names before after) = page_head (length (list_page names before after))

abbrev pub body_of : Want → Bytes
body_of (want_file name text fd) = text
body_of (want_page names before after) = list_page names before after

-- It is there.
abbrev pub IsThere : Build.Setting → Want → Type 0
IsThere s (want_file name text fd) =
    IsToken name
    × (length (path_of (codes "downl") name) < 2 ^ 63)
    × (s.open_fd (codes "filedir/" ++ name) ≡ pos fd)
    × (s.file_bytes (pos fd) ≡ text)
    × (s.file_size (pos fd) ≡ length text)
    × (length text < 2 ^ 63)
IsThere s (want_page names before after) =
    (s.names ≡ some names)
    × (s.template ≡ before ++ (label ∷ after))
    × NoLabel before
    × (length (list_page names before after) < 2 ^ 63)

-- A request, in pieces, with the counts of bytes that the socket takes of its answer.
pub record Ask : Type 0 where
  pub wants : Want
  pub first : Bytes
  pub rest : List Bytes
  pub ends : RecvEnd
  pub version : Bytes
  pub headers : List (Bytes × Bytes)
  pub counts : List ℕ
  pub stop : SendStop

pub record IsWellAsked (s : Build.Setting) (a : Ask) : Type 0 where
  pub written :
      joined (a.first ∷ a.rest) ≡ request_head (codes "GET") (path a.wants) a.version a.headers
  pub version : IsToken a.version
  pub headers : AreHeaders a.headers
  pub kept : AreKept a.headers
  pub there : IsThere s a.wants
  pub enough : AreEnough (length (head_of a.wants) + length (body_of a.wants)) a.counts

abbrev pub AllAsked : Build.Setting → List Ask → Type 0
AllAsked s [] = Unit
AllAsked s (a ∷ later) = IsWellAsked s a × AllAsked s later

-- All replies, one behind the other.
abbrev pub replies : List Ask → Bytes
replies [] = []
replies (a ∷ later) = (head_of a.wants ++ body_of a.wants) ++ replies later

-- The calls of the two handlers return for each request in turn, `out` has gone out in all, and after
-- each answer the connection is ready for the next request.
abbrev pub Session : Recv.Setting → Build.Setting → Tables → List Ask → Bytes → Type 0
Session r s t [] out = (out ≡ []) × (t.requests r.client_fd ≡ none) × IsIdle r t
Session r s t (a ∷ later) out =
    (t1 : Tables) × (done1 : List Effect) × (t2 : Tables) × (done2 : List Effect) × (rest : Bytes)
    × (Recv.process r t (a.first ∷ a.rest) a.ends ≡ ok (t1, done1))
    × (Send.process s t1 a.counts a.stop ≡ ok (t2, done2))
    × (done1 ≡ modify_wait r.client_fd for_writing ∷ [])
    × IsReady r t2 done2
    × (out ≡ wire done2 ++ rest)
    × Session r s t2 later rest

root-IsToken : IsToken (b'/' ∷ [])
unfolding is_space
root-IsToken = ((refl, tt), λ e. cc)

want-IsToken : (s : Build.Setting) (w : Want) → IsThere s w → IsToken (path w)
want-IsToken s (want_file name text fd) there = path-IsToken name there.0
want-IsToken s (want_page names before after) there = root-IsToken

module _ (s : Build.Setting) (can_append : Bytes → Bool) (garbage : Garbage) where
  abbrev r : Recv.Setting
  r = reading s can_append garbage

  answer-want :
      (t : Tables) (w : Want) (x : Bytes) (xs : List Bytes) (e : RecvEnd) (ns : List ℕ)
      (stop : SendStop)
      → IsIdle r t
      → AsksFor r t (x ∷ xs) (path w)
      → IsThere s w
      → AreEnough (length (head_of w) + length (body_of w)) ns
      → s.garbage_after.body_type ≢ file_type
      → Answers r s t (x ∷ xs) e ns stop (head_of w ++ body_of w)
  answer-want t (want_file name text fd) x xs e ns stop idle asks
        (token, short, opens, bytes, size, small) enough no_file =
      exchange-file s can_append garbage t x xs e ns stop name text fd idle asks token.1 short opens
        bytes size small enough no_file
  answer-want t (want_page names before after) x xs e ns stop idle asks (listed, made, h, small)
        enough no_file =
      exchange-page s can_append garbage t x xs e ns stop names before after idle asks listed made h
        small enough no_file

  -- A session: on a connection with no request and no answer under way, whose client writes any number
  -- of well-formed GET requests one after the other, each in any pieces and each for a file that is
  -- there or for the list page, where paths and sizes are below 2 ^ 63, for each answer `send` and
  -- `sendfile` are called often enough and take a byte at least each time, and the entry that is made
  -- at the end of it is not of the type of a file, the client gets just the replies, whole and in the
  -- order of the requests. After each, the connection is ready for the next request: no request and no
  -- answer is under way, and the last effect is that epoll waits to read from the client, whose
  -- descriptor has not been closed.
  pub serve-all :
      (t : Tables) (asks : List Ask)
      → IsIdle r t
      → t.requests s.client_fd ≡ none
      → AllAsked s asks
      → s.garbage_after.body_type ≢ file_type
      → Session r s t asks (replies asks)
  serve-all t [] idle new asked no_file = (refl, new, idle)
  serve-all t (a ∷ later) idle new (h, asked) no_file =
      let asks =
        request-AsksFor r t (a.first ∷ a.rest) (path a.wants) a.version a.headers new
          (want-IsToken s a.wants h.there) h.version h.headers h.kept h.written in
      let (t1, done1, t2, done2, run1, run2, woken, out, (none_left, idle', ready)) =
        answer-want t a.wants a.first a.rest a.ends a.counts a.stop idle asks h.there h.enough
          no_file in
      (
        t1,
        done1,
        t2,
        done2,
        replies later,
        run1,
        run2,
        woken,
        (none_left, idle', ready),
        ap (λ o. o ++ replies later) (sym out),
        serve-all t2 later idle' none_left asked no_file,
      )
