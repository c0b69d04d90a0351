-- ===== src/Recv/Returns.antt =====
-- How the receive loop of `HandleRecv::process` is left.
use mathlib.Core.Bool.{false≢true}
use cherokee.Base.{
  ℕ, List, [], ◌∷◌, Option, none, some, true, false, ◌≡◌, ◌≢◌, ◌++◌, sym, ◌∙◌, refl, inl, inr, Bool,
  Bool-cases, Option-cases, if◌then◌else◌, subst,
}
use cherokee.Fault.{Fault, out_of_fuel, Result, ok, fault}
use cherokee.Message.{
  MsgStatus, handle_init, handle_head, handle_body, handle_complete, handle_error,
  FileMsgBodyStatus, file_begin_flag, file_head, file_content, file_complete, Request,
}
use cherokee.Recv.{
  Setting, Conn, Flow, next, leave, crash, lift, ◌>>=◌, RecvEnd, boundary_of, begin_line, begin_at,
  file_head_at, keep_saved, content_with, content_at, complete_at, upload, on_body, body_at,
  on_chunk, upload_path, answer, recv_loop, process, conn_of, finish,
}
use cherokee.Recv.Content.{Saved}
use cherokee.Recv.Parse.{is_multipart}
use cherokee.Recv.Termination.{Fine, Halts, parse-Halts, take_file_head-Halts, save_content-Halts}
use cherokee.Text.{Bytes, codes, crlf, equal, find}
use cherokee.Utils.{modify_events}
use cherokee.World.{Effect, modify_wait, Tables}

-- Every file can be opened for appending.
abbrev pub CanAppend : Setting → Type 0
CanAppend s = (path : Bytes) → s.can_append path ≡ true

-- The last thing done is to wait again for the client's descriptor.
abbrev pub IsArmed : Setting → List Effect → Type 0
IsArmed s done = (es : List Effect) × (m : ℕ) × (done ≡ es ++ modify_wait s.client_fd m ∷ [])

-- A step of the receive loop does not run out of rounds, and leaves the loop with the descriptor
-- armed.
pub data Goes (s : Setting) : Flow → Type 0 where
  goes_on : {c : Conn} → Goes s (next c)
  leaves : {c : Conn} → (CanAppend s → IsArmed s c.done) → Goes s (leave c)
  crashes : {e : Fault} → Fine e → Goes s (crash e)

bind-Goes :
    (s : Setting) (m : Flow) (f : Conn → Flow)
    → Goes s m
    → ((c : Conn) → Goes s (f c))
    → Goes s (m >>= f)
bind-Goes s (next c) f h k = k c
bind-Goes s (leave c) f (leaves a) k = leaves a
bind-Goes s (crash e) f (crashes a) k = crashes a

answer-Goes :
    (s : Setting) (name : Bytes) (st : MsgStatus) (c : Conn) → Goes s (leave (answer s name st c))
answer-Goes s name st c = leaves λ all. (c.done, modify_events true true true, refl)

lift-Goes : (s : Setting) (c : Conn) (m : Result Request) → Halts m → Goes s (lift c m)
lift-Goes s c (ok r) h = goes_on
lift-Goes s c (fault e) h = crashes h

keep_saved-Goes : (s : Setting) (c : Conn) (m : Result Saved) → Halts m → Goes s (keep_saved c m)
keep_saved-Goes s c (ok r) h = goes_on
keep_saved-Goes s c (fault e) h = crashes h

if-Goes : (s : Setting) (b : Bool) (m n : Flow) → Goes s m → Goes s n → Goes s (if b then m else n)
if-Goes s true m n h k = h
if-Goes s false m n h k = k

begin_line-Goes : (s : Setting) (c : Conn) (i : ℕ) (o : Option Bytes) → Goes s (begin_line s c i o)
unfolding begin_line
begin_line-Goes s c i none = crashes tt
begin_line-Goes s c i (some b) =
    if-Goes s _ _ _ goes_on (answer-Goes s (codes "/redirect") handle_complete c)

begin_at-Goes : (st : FileMsgBodyStatus) (s : Setting) (c : Conn) → Goes s (begin_at st s c)
unfolding begin_at
begin_at-Goes file_begin_flag s c = elim (Option-cases (find crlf c.req.recv_msg)) [
  | inl e ↦ rw (e, begin_at) goes_on
  | inr (i, e) ↦ rw (e, begin_at) (begin_line-Goes s c i (boundary_of c.req))
]
begin_at-Goes file_head s c = goes_on
begin_at-Goes file_content s c = goes_on
begin_at-Goes file_complete s c = goes_on

file_head_at-Goes : (st : FileMsgBodyStatus) (s : Setting) (c : Conn) → Goes s (file_head_at st c)
unfolding file_head_at
file_head_at-Goes file_head s c = lift-Goes s c _ (take_file_head-Halts c.req)
file_head_at-Goes file_begin_flag s c = goes_on
file_head_at-Goes file_content s c = goes_on
file_head_at-Goes file_complete s c = goes_on

content_with-Goes : (s : Setting) (c : Conn) (o : Option Bytes) → Goes s (content_with c o)
unfolding content_with
content_with-Goes s c none = crashes tt
content_with-Goes s c (some b) = keep_saved-Goes s c _ (save_content-Halts b c.req.recv_msg)

content_at-Goes : (st : FileMsgBodyStatus) (s : Setting) (c : Conn) → Goes s (content_at st s c)
unfolding content_at
content_at-Goes file_content s c = elim (Bool-cases (s.can_append (upload_path c.req))) [
  | inl opens ↦ rw opens (content_with-Goes s c (boundary_of c.req))
  | inr fails ↦ rw fails (leaves λ all. absurd (false≢true (sym fails ∙ all _)))
]
content_at-Goes file_begin_flag s c = goes_on
content_at-Goes file_head s c = goes_on
content_at-Goes file_complete s c = goes_on

complete_at-Goes : (st : FileMsgBodyStatus) (s : Setting) (c : Conn) → Goes s (complete_at st s c)
unfolding complete_at
complete_at-Goes file_complete s c = answer-Goes s (codes "/redirect") handle_complete c
complete_at-Goes file_begin_flag s c = goes_on
complete_at-Goes file_head s c = goes_on
complete_at-Goes file_content s c = goes_on

upload-Goes : (s : Setting) (c : Conn) → Goes s (upload s c)
unfolding upload
upload-Goes s c = bind-Goes s _ _ (begin_at-Goes c.req.file_msg_status s c) λ c1.
    bind-Goes s _ _ (file_head_at-Goes c1.req.file_msg_status s c1) λ c2.
      bind-Goes s _ _ (content_at-Goes c2.req.file_msg_status s c2)
        λ c3. complete_at-Goes c3.req.file_msg_status s c3

on_body-Goes : (s : Setting) (c : Conn) → Goes s (on_body s c)
unfolding on_body
on_body-Goes s c = elim (Bool-cases (equal c.req.request_method (codes "GET"))) [
  | inl get ↦ rw get (answer-Goes s _ _ c)
  | inr not_get ↦ rw not_get (elim (Bool-cases (equal c.req.request_method (codes "POST"))) [
    | inl post ↦ rw post (elim (Bool-cases (is_multipart c.req)) [
      | inl m ↦ rw m (upload-Goes s c)
      | inr n ↦ rw n (answer-Goes s _ _ c)
    ])
    | inr not_post ↦ rw not_post (elim (Bool-cases (equal c.req.request_method (codes "PUT"))) [
      | inl put ↦ rw put (answer-Goes s _ _ c)
      | inr other ↦ rw other goes_on
    ])
  ])
]

body_at-Goes : (st : MsgStatus) (s : Setting) (c : Conn) → Goes s (body_at st s c)
unfolding body_at
body_at-Goes handle_body s c = on_body-Goes s c
body_at-Goes handle_init s c = goes_on
body_at-Goes handle_head s c = goes_on
body_at-Goes handle_complete s c = goes_on
body_at-Goes handle_error s c = goes_on

pub on_chunk-Goes : (s : Setting) (c : Conn) (chunk : Bytes) → Goes s (on_chunk s c chunk)
unfolding on_chunk
on_chunk-Goes s c chunk =
    bind-Goes s _ _ (lift-Goes s c _ (parse-Halts c.req chunk))
      λ c'. body_at-Goes c'.req.status s c'

after_chunk :
    (s : Setting) (c : Conn) (x : Bytes) (xs : List Bytes) (e : RecvEnd)
    → ((c' : Conn) → Halts (recv_loop s c' xs e))
    → (m : Flow) → on_chunk s c x ≡ m
    → Goes s m
    → Halts (recv_loop s c (x ∷ xs) e)
unfolding recv_loop
after_chunk s c x xs e ih (next c') q g = rw (q, recv_loop) (ih c')
after_chunk s c x xs e ih (leave c') q g = rw (q, recv_loop) tt
after_chunk s c x xs e ih (crash f) q (crashes h) = rw (q, recv_loop) h

recv_loop-Halts :
    (s : Setting) (c : Conn) (xs : List Bytes) (e : RecvEnd) → Halts (recv_loop s c xs e)
unfolding recv_loop
recv_loop-Halts s c [] e = tt
recv_loop-Halts s c (x ∷ xs) e =
    after_chunk s c x xs e (λ c'. recv_loop-Halts s c' xs e) _ refl (on_chunk-Goes s c x)

finish-Halts : (s : Setting) (t : Tables) (m : Result Conn) → Halts m → Halts (finish s t m)
finish-Halts s t (ok c) h = tt
finish-Halts s t (fault e) h = h

-- In every state of the two tables and whatever `recv` returns, the rounds that the models of the three
-- loops over received bytes are given never run out: each loop that takes lines or saves contents ends.
-- The name of a file that no quote closes, whose loop reads past the end of the line, is `undefined`
-- in the model, and not excluded here.
pub process-ne-out_of_fuel :
    (s : Setting) (t : Tables) (chunks : List Bytes) (e : RecvEnd)
    → process s t chunks e ≢ fault out_of_fuel
unfolding process
process-ne-out_of_fuel s t chunks e h =
    subst Halts h (finish-Halts s t _ (recv_loop-Halts s (conn_of s t) chunks e))
