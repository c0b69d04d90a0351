-- ===== src/Recv/Rule.antt =====
-- The invariant rule of the receive loop: what each elementary change of a connection keeps, a call
-- of `HandleRecv::process` keeps.
use cherokee.Base.{
  ℕ, ◌+◌, List, [], ◌∷◌, Option, none, some, ◌≡◌, refl, inl, inr, Bool-cases, Option-cases, drop,
  take,
}
use cherokee.Fault.{Fault, Result, ok, fault}
use cherokee.Message.{
  MsgStatus, handle_init, handle_head, handle_body, handle_complete, handle_error,
  FileMsgBodyStatus, file_begin_flag, file_head, file_content, file_complete, Request,
}
use cherokee.Recv.{
  Setting, Conn, Flow, next, leave, crash, lift, ◌>>=◌, RecvEnd, boundary_of, begin_line, begin_at,
  file_head_at, keep_saved, content_with, content_at, complete_at, upload, on_body, body_at,
  on_chunk, on_end, upload_path, saved_to, answer, recv_loop,
}
use cherokee.Recv.Content.{Saved, save_content}
use cherokee.Recv.FileHead.{take_file_head}
use cherokee.Recv.Parse.{is_multipart, parse}
use cherokee.Text.{Bytes, codes, crlf, equal, find}

-- What holds of the loop's result, if there is one.
abbrev pub OnOk : (Conn → Type 0) → Result Conn → Type 0
OnOk Q (ok c) = Q c
OnOk Q (fault e) = Unit

-- `P` holds between two steps, and `Q` where the loop is left.
data Holds (P Q : Conn → Type 0) : Flow → Type 0 where
  holds_on : {c : Conn} → P c → Holds P Q (next c)
  holds_out : {c : Conn} → Q c → Holds P Q (leave c)
  holds_crash : {e : Fault} → Holds P Q (crash e)

-- The line of the boundary has been taken off.
abbrev pub begun : Conn → ℕ → Conn
begun c i = record c {
  req = record c.req { file_msg_status = file_head; recv_msg = drop (i + 2) c.req.recv_msg };
}

abbrev pub with_request : Conn → Request → Conn
with_request c r = record c { req = r }

-- The elementary changes: `P` holds between two receipts, `B` within the body, `Q` at the end.
pub record IsKeptBy (s : Setting) (P B Q : Conn → Type 0) : Type 0 where
  pub parses :
      (c : Conn) (chunk : Bytes) (r : Request)
      → P c
      → parse c.req chunk ≡ ok r
      → P (with_request c r)
  pub enters : (c : Conn) → P c → c.req.status ≡ handle_body → B c
  pub begins : (c : Conn) (i : ℕ) (b : Bytes) → B c → boundary_of c.req ≡ some b → B (begun c i)
  pub heads :
      (c : Conn) (r : Request)
      → B c
      → c.req.file_msg_status ≡ file_head
      → take_file_head c.req ≡ ok r
      → B (with_request c r)
  pub saves : (c : Conn) (w : Saved) → B c → c.req.file_msg_status ≡ file_content → B (saved_to c w)
  pub stays : (c : Conn) → B c → P c
  pub answers : (c : Conn) (name : Bytes) → B c → Q (answer s name handle_complete c)
  pub puts : (c : Conn) (name : Bytes) → B c → Q (answer s name handle_body c)
  pub gives_up : (c : Conn) → B c → Q c
  pub ends : (c : Conn) (e : RecvEnd) → P c → Q (on_end s c e)

module _ (s : Setting) (P B Q : Conn → Type 0) (k : IsKeptBy s P B Q) where
  bind-Holds :
      (A C : Conn → Type 0) (m : Flow) (f : Conn → Flow)
      → Holds A Q m
      → ((c : Conn) → A c → Holds C Q (f c))
      → Holds C Q (m >>= f)
  bind-Holds A C (next c) f (holds_on a) h = h c a
  bind-Holds A C (leave c) f (holds_out q) h = holds_out q
  bind-Holds A C (crash e) f holds_crash h = holds_crash

  lift-Holds :
      (A : Conn → Type 0) (c : Conn) (m : Result Request)
      → ((r : Request) → m ≡ ok r → A (with_request c r))
      → Holds A Q (lift c m)
  lift-Holds A c (ok r) h = holds_on (h r refl)
  lift-Holds A c (fault e) h = holds_crash

  begin_line-Holds :
      (c : Conn) (i : ℕ) (o : Option Bytes)
      → boundary_of c.req ≡ o
      → B c
      → Holds B Q (begin_line s c i o)
  unfolding begin_line
  begin_line-Holds c i none q b = holds_crash
  begin_line-Holds c i (some x) q b =
      elim (Bool-cases (equal (take i c.req.recv_msg) (b'-' ∷ b'-' ∷ x))) [
        | inl e ↦ rw e (holds_on (k.begins c i x b q))
        | inr e ↦ rw e (holds_out (k.answers c (codes "/redirect") b))
      ]

  begin_at-Holds : (st : FileMsgBodyStatus) (c : Conn) → B c → Holds B Q (begin_at st s c)
  unfolding begin_at
  begin_at-Holds file_begin_flag c b = elim (Option-cases (find crlf c.req.recv_msg)) [
    | inl e ↦ rw (e, begin_at) (holds_on b)
    | inr (i, e) ↦ rw (e, begin_at) (begin_line-Holds c i (boundary_of c.req) refl b)
  ]
  begin_at-Holds file_head c b = holds_on b
  begin_at-Holds file_content c b = holds_on b
  begin_at-Holds file_complete c b = holds_on b

  file_head_at-Holds :
      (st : FileMsgBodyStatus) (c : Conn)
      → c.req.file_msg_status ≡ st
      → B c
      → Holds B Q (file_head_at st c)
  unfolding file_head_at
  file_head_at-Holds file_head c q b =
      lift-Holds B c (take_file_head c.req) (λ r e. k.heads c r b q e)
  file_head_at-Holds file_begin_flag c q b = holds_on b
  file_head_at-Holds file_content c q b = holds_on b
  file_head_at-Holds file_complete c q b = holds_on b

  keep_saved-Holds :
      (c : Conn) (m : Result Saved)
      → c.req.file_msg_status ≡ file_content
      → B c
      → Holds B Q (keep_saved c m)
  keep_saved-Holds c (ok w) q b = holds_on (k.saves c w b q)
  keep_saved-Holds c (fault e) q b = holds_crash

  content_with-Holds :
      (c : Conn) (o : Option Bytes)
      → c.req.file_msg_status ≡ file_content
      → B c
      → Holds B Q (content_with c o)
  unfolding content_with
  content_with-Holds c none q b = holds_crash
  content_with-Holds c (some x) q b = keep_saved-Holds c (save_content x c.req.recv_msg) q b

  content_at-Holds :
      (st : FileMsgBodyStatus) (c : Conn)
      → c.req.file_msg_status ≡ st
      → B c
      → Holds B Q (content_at st s c)
  unfolding content_at
  content_at-Holds file_content c q b = elim (Bool-cases (s.can_append (upload_path c.req))) [
    | inl opens ↦ rw opens (content_with-Holds c (boundary_of c.req) q b)
    | inr fails ↦ rw fails (holds_out (k.gives_up c b))
  ]
  content_at-Holds file_begin_flag c q b = holds_on b
  content_at-Holds file_head c q b = holds_on b
  content_at-Holds file_complete c q b = holds_on b

  complete_at-Holds : (st : FileMsgBodyStatus) (c : Conn) → B c → Holds B Q (complete_at st s c)
  unfolding complete_at
  complete_at-Holds file_complete c b = holds_out (k.answers c (codes "/redirect") b)
  complete_at-Holds file_begin_flag c b = holds_on b
  complete_at-Holds file_head c b = holds_on b
  complete_at-Holds file_content c b = holds_on b

  upload-Holds : (c : Conn) → B c → Holds B Q (upload s c)
  unfolding upload
  upload-Holds c b = bind-Holds B B _ _ (begin_at-Holds c.req.file_msg_status c b) λ c1 b1.
      bind-Holds B B _ _ (file_head_at-Holds c1.req.file_msg_status c1 refl b1) λ c2 b2.
        bind-Holds B B _ _ (content_at-Holds c2.req.file_msg_status c2 refl b2)
          λ c3 b3. complete_at-Holds c3.req.file_msg_status c3 b3

  stays-Holds : (m : Flow) → Holds B Q m → Holds P Q m
  stays-Holds (next c) (holds_on b) = holds_on (k.stays c b)
  stays-Holds (leave c) (holds_out q) = holds_out q
  stays-Holds (crash e) holds_crash = holds_crash

  on_body-Holds : (c : Conn) → B c → Holds P Q (on_body s c)
  unfolding on_body
  on_body-Holds c b = elim (Bool-cases (equal c.req.request_method (codes "GET"))) [
    | inl get ↦ rw get (holds_out (k.answers c c.req.request_resource b))
    | inr not_get ↦ rw not_get (elim (Bool-cases (equal c.req.request_method (codes "POST"))) [
      | inl post ↦ rw post (elim (Bool-cases (is_multipart c.req)) [
        | inl m ↦ rw m (stays-Holds (upload s c) (upload-Holds c b))
        | inr n ↦ rw n (holds_out (k.answers c (codes "/redirect") b))
      ])
      | inr not_post ↦ rw not_post (elim (Bool-cases (equal c.req.request_method (codes "PUT"))) [
        | inl put ↦ rw put (holds_out (k.puts c c.req.request_resource b))
        | inr other ↦ rw other (holds_on (k.stays c b))
      ])
    ])
  ]

  body_at-Holds : (st : MsgStatus) (c : Conn) → c.req.status ≡ st → P c → Holds P Q (body_at st s c)
  unfolding body_at
  body_at-Holds handle_body c e p = on_body-Holds c (k.enters c p e)
  body_at-Holds handle_init c e p = holds_on p
  body_at-Holds handle_head c e p = holds_on p
  body_at-Holds handle_complete c e p = holds_on p
  body_at-Holds handle_error c e p = holds_on p

  on_chunk-Holds : (c : Conn) (chunk : Bytes) → P c → Holds P Q (on_chunk s c chunk)
  unfolding on_chunk
  on_chunk-Holds c chunk p =
      bind-Holds P P _ _ (lift-Holds P c (parse c.req chunk) (λ r e. k.parses c chunk r p e))
        λ c' p'. body_at-Holds c'.req.status c' refl p'

  after_chunk :
      (c : Conn) (x : Bytes) (xs : List Bytes) (e : RecvEnd)
      → ((c' : Conn) → P c' → OnOk Q (recv_loop s c' xs e))
      → (m : Flow) → on_chunk s c x ≡ m
      → Holds P Q m
      → OnOk Q (recv_loop s c (x ∷ xs) e)
  unfolding recv_loop
  after_chunk c x xs e ih (next c') q (holds_on p) = rw (q, recv_loop) (ih c' p)
  after_chunk c x xs e ih (leave c') q (holds_out a) = rw (q, recv_loop) a
  after_chunk c x xs e ih (crash f) q holds_crash = rw (q, recv_loop) tt

  pub recv_loop-Holds :
      (c : Conn) (xs : List Bytes) (e : RecvEnd) → P c → OnOk Q (recv_loop s c xs e)
  unfolding recv_loop
  recv_loop-Holds c [] e p = k.ends c e p
  recv_loop-Holds c (x ∷ xs) e p =
      after_chunk c x xs e (λ c' p'. recv_loop-Holds c' xs e p') _ refl (on_chunk-Holds c x p)
