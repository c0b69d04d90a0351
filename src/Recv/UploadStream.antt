-- ===== src/Recv/UploadStream.antt =====
-- An upload over any number of receipts: the file gets the bytes before the closing boundary.
use cherokee.Base.{
  ℕ, ◌+◌, ◌^◌, ◌≤◌, ◌<◌, true, false, List, [], ◌∷◌, ◌++◌, Option, none, some, ◌≡◌, refl, sym, ap,
  ◌∙◌, arith, if◌then◌else◌, length, take, drop, length-append, append_assoc, append-nil,
  drop-append_of_le, take-append_of_le, take-append-take, take-append-drop, ap₂, inl, inr,
  Bool-cases,
}
use cherokee.Fault.{ok}
use cherokee.Message.{handle_complete}
use cherokee.Recv.{
  Setting, Conn, next, leave, on_chunk, recv_loop, RecvEnd, would_block, answer, resp_of, saved_to,
  upload_path,
}
use cherokee.Recv.Content.{closing, Saved, save_content}
use cherokee.Recv.ContentLaws.{SavesUpTo, save_content_lem}
use cherokee.Recv.Upload.{IsUploading, IsUploading-saved, receive, on_chunk-IsUploading}
use cherokee.Text.{Bytes, codes, equal, equal_self, find, shift}
use cherokee.Text.Find.{find-append}
use cherokee.World.{Effect, append_file, modify_wait}

-- All that has been appended to a file, in order.
abbrev pub appended : Bytes → List Effect → Bytes
appended p [] = []
appended p (append_file q bytes ∷ es) = if equal q p then bytes ++ appended p es else appended p es
appended p (_ ∷ es) = appended p es

pub appended-append :
    (p : Bytes) (xs ys : List Effect) → appended p (xs ++ ys) ≡ appended p xs ++ appended p ys
appended-append p [] ys = refl
appended-append p (append_file q bytes ∷ es) ys = elim (Bool-cases (equal q p)) [
  | inl e ↦ rw (e, appended-append p es ys) (sym (append_assoc bytes _ _))
  | inr e ↦ rw (e, appended-append p es ys)
]
appended-append p (_ ∷ es) ys = appended-append p es ys

abbrev pub joined : List Bytes → Bytes
joined [] = []
joined (x ∷ xs) = x ++ joined xs

-- What `recv` delivers at a time: at most the 2048 bytes of `buf`.
abbrev pub FitBuffer : List Bytes → Type 0
FitBuffer [] = Unit {0}
FitBuffer (x ∷ xs) = (length x ≤ 2048) × FitBuffer xs

-- After the bytes `text` have arrived on `c`, with the boundary at `i` or nowhere.
abbrev pub Uploaded : Setting → Bytes → Conn → Bytes → Option ℕ → Conn → Type 0
Uploaded s b c text (some i) c' =
    (c'.req.status ≡ handle_complete)
    × (c'.resp ≡ some (record (resp_of s c.resp) { body_file_name = codes "/redirect" }))
    × (appended (upload_path c.req) c'.done ≡ appended (upload_path c.req) c.done ++ take i text)
Uploaded s b c text none c' =
    IsUploading s b c'.req
    × (c'.resp ≡ c.resp)
    × (appended (upload_path c.req) c'.done ++ c'.req.recv_msg
        ≡ appended (upload_path c.req) c.done ++ text)

abbrev pub Stream : Setting → Bytes → Conn → List Bytes → Type 0
Stream s b c chunks =
    let text = c.req.recv_msg ++ joined chunks in
    (c' : Conn) × (recv_loop s c chunks would_block ≡ ok c')
    × Uploaded s b c text (find (closing b) text) c'

-- The kept bytes are a piece of the boundary at most.
pub record IsWaiting (b : Bytes) (c : Conn) : Type 0 where
  pub absent : find (closing b) c.req.recv_msg ≡ none
  pub short : length c.req.recv_msg < length b + 8

pub recv_loop-next :
    (s : Setting) (c c' : Conn) (chunk : Bytes) (chunks : List Bytes) (e : RecvEnd)
    → on_chunk s c chunk ≡ next c'
    → recv_loop s c (chunk ∷ chunks) e ≡ recv_loop s c' chunks e
unfolding recv_loop
recv_loop-next s c c' chunk chunks e h = rw (h, recv_loop)

pub recv_loop-leave :
    (s : Setting) (c c' : Conn) (chunk : Bytes) (chunks : List Bytes) (e : RecvEnd)
    → on_chunk s c chunk ≡ leave c'
    → recv_loop s c (chunk ∷ chunks) e ≡ ok c'
unfolding recv_loop
recv_loop-leave s c c' chunk chunks e h = rw (h, recv_loop)

Stream-end :
    (s : Setting) (b : Bytes) (c : Conn) → IsUploading s b c.req → IsWaiting b c → Stream s b c []
unfolding recv_loop
Stream-end s b c u w =
    let same =
      appended-append (upload_path c.req) c.done (modify_wait s.client_fd _ ∷ []) ∙ append-nil _ in
    (
      _,
      refl,
      rw (append-nil c.req.recv_msg, w.absent) (u, refl, ap (λ x. x ++ c.req.recv_msg) same),
    )

module _ (s : Setting) (b : Bytes) (c : Conn) (chunk : Bytes) (chunks : List Bytes)
    (w : Saved) where
  abbrev path : Bytes
  path = upload_path c.req

  abbrev buf : Bytes
  buf = c.req.recv_msg ++ chunk

  abbrev text : Bytes
  text = c.req.recv_msg ++ (chunk ++ joined chunks)

  abbrev later : Conn
  later = saved_to (receive c chunk) w

  appended-later : appended path later.done ≡ appended path c.done ++ w.written
  appended-later =
      appended-append path c.done (append_file path w.written ∷ [])
      ∙ ap (◌++◌ (appended path c.done)) (rw (equal_self path) (append-nil w.written))

  abbrev rest : Bytes
  rest = w.kept ++ joined chunks

  text-split : text ≡ buf ++ joined chunks
  text-split = sym (append_assoc c.req.recv_msg chunk (joined chunks))

  find-text :
      (upto : ℕ)
      → SavesUpTo b buf upto w
      → find (closing b) text ≡ shift upto (find (closing b) rest)
  find-text upto v = rw (text-split, v.kept_is) (v.skips (joined chunks))

  take-text : (upto : ℕ) → SavesUpTo b buf upto w → take upto text ≡ take upto buf
  take-text upto v = rw text-split (take-append_of_le upto buf (joined chunks) v.inside)

  drop-text : (upto : ℕ) → SavesUpTo b buf upto w → drop upto text ≡ rest
  drop-text upto v =
      rw (text-split, v.kept_is) (drop-append_of_le upto buf (joined chunks) v.inside)

  Stream-finished :
      (upto : ℕ)
      → IsUploading s b c.req
      → save_content b buf ≡ ok w
      → w.written ≡ take upto buf
      → SavesUpTo b buf upto w
      → w.finished ≡ true
      → Stream s b c (chunk ∷ chunks)
  Stream-finished upto u e written v fin =
      let front : find (closing b) w.kept ≡ some 0 =
        v.verdict ∙ ap (λ f. if f then some 0 else none) fin in
      let found : find (closing b) text ≡ some (upto + 0) =
        find-text upto v
        ∙ ap (shift upto) (find-append (closing b) w.kept (joined chunks) 0 front) in
      let upto' : upto + 0 ≡ upto = omega arith in
      (
        answer s (codes "/redirect") handle_complete later,
        recv_loop-leave s c _ chunk chunks would_block
            (on_chunk-IsUploading s b chunk c w u e ∙ rw fin),
        rw found (
          refl,
          refl,
          appended-append path later.done (modify_wait s.client_fd _ ∷ [])
              ∙ append-nil _
              ∙ appended-later
              ∙ ap (◌++◌ (appended path c.done))
                  (written ∙ sym (take-text upto v) ∙ ap (λ n. take n text) (sym upto')),
        ),
      )

  Uploaded-later :
      (upto : ℕ) (o : Option ℕ) (c' : Conn)
      → w.written ≡ take upto buf
      → SavesUpTo b buf upto w
      → Uploaded s b later rest o c'
      → Uploaded s b c text (shift upto o) c'
  Uploaded-later upto none c' written v (u, resp, all) = (
    u,
    resp,
    all
        ∙ ap (λ x. x ++ rest) appended-later
        ∙ append_assoc (appended path c.done) w.written rest
        ∙ ap (◌++◌ (appended path c.done)) (
            ap₂ ◌++◌ (written ∙ sym (take-text upto v)) (sym (drop-text upto v))
            ∙ take-append-drop upto text),
  )
  Uploaded-later upto (some i) c' written v (done, resp, part) = (
    done,
    resp,
    part
        ∙ ap (λ x. x ++ take i rest) appended-later
        ∙ append_assoc (appended path c.done) w.written (take i rest)
        ∙ ap (◌++◌ (appended path c.done)) (
            ap₂ ◌++◌ (written ∙ sym (take-text upto v)) (ap (take i) (sym (drop-text upto v)))
            ∙ take-append-take upto i (upto + i) text refl),
  )

  Stream-unfinished :
      (upto : ℕ)
      → IsUploading s b c.req
      → save_content b buf ≡ ok w
      → w.written ≡ take upto buf
      → SavesUpTo b buf upto w
      → w.finished ≡ false
      → Stream s b later chunks
      → Stream s b c (chunk ∷ chunks)
  Stream-unfinished upto u e written v fin (c', run, up) = (
    c',
    recv_loop-next s c _ chunk chunks would_block (on_chunk-IsUploading s b chunk c w u e ∙ rw fin)
        ∙ run,
    rw (find-text upto v) (Uploaded-later upto _ c' written v up),
  )

-- Whatever the receipts are that bring it, an upload in the state of its contents appends to the
-- file exactly the bytes that stand before the first closing boundary in all that has arrived, then
-- answers with a redirection; while no boundary has arrived, the bytes in the file and those kept
-- make up all that has arrived, and the upload goes on.
pub recv_loop-Uploaded :
    (s : Setting) (b : Bytes) (c : Conn) (chunks : List Bytes)
    → length b < 2 ^ 30
    → IsUploading s b c.req
    → IsWaiting b c
    → FitBuffer chunks
    → Stream s b c chunks
recv_loop-Uploaded s b c [] small u w fit = Stream-end s b c u w
recv_loop-Uploaded s b c (chunk ∷ chunks) small u w fit =
    let size = length-append c.req.recv_msg chunk in
    let short = w.short in
    let (r, e, saves) =
      save_content_lem b (c.req.recv_msg ++ chunk) (omega (arith, fit.0)) (omega arith) in
    let (upto, written, v) = saves in
    elim (Bool-cases r.finished) [
      | inl fin ↦ Stream-finished s b c chunk chunks r upto u e written v fin
      | inr more ↦ Stream-unfinished s b c chunk chunks r upto u e written v more (
          recv_loop-Uploaded s b (saved_to (receive c chunk) r) chunks small
            (IsUploading-saved s b r.kept r.finished c.req more u)
            (record {
              absent = v.verdict ∙ ap (λ f. if f then some 0 else none) more;
              short = v.short more;
            })
            fit.1)
    ]
