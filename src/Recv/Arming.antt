-- ===== src/Recv/Arming.antt =====
-- `HandleRecv::process` changes the registration of its descriptor last.
use cherokee.Base.{
  ℕ, zero, suc, List, [], ◌∷◌, ◌++◌, ◌≡◌, ◌≢◌, refl, sym, subst, ◌∙◌, inl, inr, ◌⊎◌, Option-cases,
  Bool-cases, append-nil,
}
use cherokee.Fault.{Result, ok, fault, ◌>>=◌}
use cherokee.Message.{
  MsgStatus, handle_init, handle_head, handle_body, handle_complete, handle_error, Request,
}
use cherokee.Message.Header.{add_header_opt}
use cherokee.Message.HeaderLaws.{SameStatus, add_header_opt-SameStatus}
use cherokee.Recv.{
  Setting, Conn, RecvEnd, closed, would_block, failed, on_end, settle, drop_conn, finish, process,
  conn_of, req_of,
}
use cherokee.Recv.FileHead.{take_file_head}
use cherokee.Recv.HeadLoop.{line_of, cut, loop-none, loop-end, loop-line}
use cherokee.Recv.Kept.{SameHeadOk, file_head_loop-SameHeadOk}
use cherokee.Recv.Parse.{line_at, take_line, head_loop, head_at, take_head, parse}
use cherokee.Recv.Rearm.{IsDropped, process-IsArmed}
use cherokee.Recv.Returns.{CanAppend, IsArmed}
use cherokee.Recv.Rule.{OnOk, IsKeptBy, recv_loop-Holds}
use cherokee.Text.{Bytes, crlf, equal, find}
use cherokee.World.{Effect, modify_wait, Tables}
use cherokee.World.Arming.{
  AllQuiet, AllQuiet-append, ArmsLast, quiet-ArmsLast, modifies, EndsTurn, EndsTurn-append,
}

-- The request has not been marked as failed.
abbrev pub IsSound : Request → Type 0
IsSound r = r.status ≢ handle_error

abbrev SoundOk : Result Request → Type 0
SoundOk (ok r) = IsSound r
SoundOk (fault e) = Unit

bind-SoundOk :
    (r : Request) (m : Result Request) (f : Request → Result Request)
    → SameStatus r m
    → ((r' : Request) → r'.status ≡ r.status → SoundOk (f r'))
    → SoundOk (m >>= f)
bind-SoundOk r (ok r') f a h = h r' a
bind-SoundOk r (fault e) f a h = tt

head_loop-SoundOk : (f : ℕ) (r : Request) → r.status ≡ handle_head → SoundOk (head_loop f r)
unfolding head_loop
head_loop-SoundOk zero r st = tt
head_loop-SoundOk (suc f) r st = elim (Option-cases (find crlf r.recv_msg)) [
  | inl e ↦ subst SoundOk (sym (loop-none f r e)) (λ z. cc)
  | inr (i, e) ↦ elim (Bool-cases (equal (line_of i r) crlf)) [
    | inl same ↦ subst SoundOk (sym (loop-end f r i e same)) (λ z. cc)
    | inr other ↦ subst SoundOk (sym (loop-line f r i e other)) (
        bind-SoundOk (cut i r) (add_header_opt (cut i r) (line_of i r)) (head_loop f)
          (add_header_opt-SameStatus (line_of i r) (cut i r))
          (λ r' same. head_loop-SoundOk f r' (same ∙ st)))
  ]
]

head_at-SoundOk :
    (st : MsgStatus) (r : Request) → r.status ≡ st → IsSound r → SoundOk (head_at st r)
unfolding head_at
head_at-SoundOk handle_head r e h = head_loop-SoundOk _ r e
head_at-SoundOk handle_init r e h = h
head_at-SoundOk handle_body r e h = h
head_at-SoundOk handle_complete r e h = h
head_at-SoundOk handle_error r e h = h

line_at-IsSound : (st : MsgStatus) (r : Request) → IsSound r → IsSound (line_at st r)
unfolding line_at
line_at-IsSound handle_init r h = elim (Option-cases (find crlf r.recv_msg)) [
  | inl none_yet ↦ rw (none_yet, line_at) h
  | inr (i, at) ↦ rw (at, line_at) (λ z. cc)
]
line_at-IsSound handle_head r h = h
line_at-IsSound handle_body r h = h
line_at-IsSound handle_complete r h = h
line_at-IsSound handle_error r h = h

parse-SoundOk : (r : Request) (chunk : Bytes) → IsSound r → SoundOk (parse r chunk)
unfolding parse take_head take_line
parse-SoundOk r chunk h =
    let r1 = record r { recv_msg = r.recv_msg ++ chunk } in
    let r2 = line_at r1.status r1 in
    head_at-SoundOk r2.status r2 refl (line_at-IsSound r1.status r1 h)

-- Between two receipts, within the body, and where the loop is left.
abbrev Waits : Conn → Type 0
Waits c = AllQuiet c.done × IsSound c.req

abbrev InBody : Conn → Type 0
InBody c = AllQuiet c.done × (c.req.status ≡ handle_body)

abbrev Left : Setting → Conn → Type 0
Left s c =
    AllQuiet c.done
    ⊎ (IsSound c.req
        × (es : List Effect) × (events : ℕ) × AllQuiet es
        × (c.done ≡ es ++ modify_wait s.client_fd events ∷ []))

ends-Left : (s : Setting) (c : Conn) (e : RecvEnd) → Waits c → Left s (on_end s c e)
unfolding on_end
ends-Left s c closed h = inl h.0
ends-Left s c failed h = inl h.0
ends-Left s c would_block h = inr (h.1, c.done, _, h.0, refl)

arming-IsKeptBy : (s : Setting) → IsKeptBy s Waits InBody (Left s)
unfolding take_file_head
arming-IsKeptBy s = record {
  parses = λ c chunk r h e. (h.0, subst SoundOk e (parse-SoundOk c.req chunk h.1));
  enters = λ c h e. (h.0, e);
  begins = λ c i b h q. h;
  heads =
      λ c r h at q. (h.0, (subst (SameHeadOk c.req) q (file_head_loop-SameHeadOk _ c.req)).0 ∙ h.1);
  saves = λ c w h at. (AllQuiet-append c.done (_ ∷ []) h.0 (tt, tt), h.1);
  stays = λ c h. (h.0, λ z. cc);
  answers = λ c name h. inr ((λ z. cc), c.done, _, h.0, refl);
  puts = λ c name h. inr ((λ z. cc), c.done, _, h.0, refl);
  gives_up = λ c h. inl h.0;
  ends = ends-Left s;
}

alone : (fd : ℕ) (es : List Effect) → AllQuiet es → ArmsLast fd es
alone fd es h = subst (ArmsLast fd) (append-nil es) (quiet-ArmsLast fd es [] h tt)

kept : (s : Setting) (c : Conn) → Left s c → ArmsLast s.client_fd c.done
kept s c (inl h) = alone s.client_fd c.done h
kept s c (inr (sound, es, events, h, e)) =
    subst (ArmsLast s.client_fd) (sym e)
      (quiet-ArmsLast s.client_fd es _ h (modifies s.client_fd events))

settle-ArmsLast :
    (s : Setting) (st : MsgStatus) (c : Conn)
    → c.req.status ≡ st
    → Left s c
    → ArmsLast s.client_fd (settle s st c).1
settle-ArmsLast s handle_error c e (inl h) =
    quiet-ArmsLast s.client_fd c.done (drop_conn s) h (refl, (refl, ((refl, refl), tt)))
settle-ArmsLast s handle_error c e (inr h) = absurd (h.0 e)
settle-ArmsLast s handle_init c e h = kept s c h
settle-ArmsLast s handle_head c e h = kept s c h
settle-ArmsLast s handle_body c e h = kept s c h
settle-ArmsLast s handle_complete c e h = kept s c h

abbrev pub EffectsArmLast : ℕ → Result (Tables × List Effect) → Type 0
EffectsArmLast fd (ok (t, done)) = ArmsLast fd done
EffectsArmLast fd (fault e) = Unit

finish-ArmsLast :
    (s : Setting) (t : Tables) (m : Result Conn)
    → OnOk (Left s) m
    → EffectsArmLast s.client_fd (finish s t m)
finish-ArmsLast s t (ok c) h = settle-ArmsLast s c.req.status c refl h
finish-ArmsLast s t (fault e) h = tt

-- From an entry that has not been marked as failed.
pub received-ArmsLast :
    (s : Setting) (t : Tables) (chunks : List Bytes) (e : RecvEnd)
    → IsSound (req_of (t.requests s.client_fd))
    → EffectsArmLast s.client_fd (process s t chunks e)
unfolding process
received-ArmsLast s t chunks e h =
    finish-ArmsLast s t _
      (recv_loop-Holds s _ _ _ (arming-IsKeptBy s) (conn_of s t) chunks e (tt, h))

abbrev pub EffectsEndTurn : Result (Tables × List Effect) → Type 0
EffectsEndTurn (ok (t, done)) = EndsTurn done
EffectsEndTurn (fault e) = Unit

settled :
    (s : Setting) (t : Tables) (done : List Effect)
    → IsArmed s done ⊎ IsDropped s t done
    → EndsTurn done
settled s t done (inl (es, m, e)) = subst EndsTurn (sym e) (EndsTurn-append es _ tt)
settled s t done (inr (gone, es, e)) = subst EndsTurn (sym e) (EndsTurn-append es (drop_conn s) tt)

-- Where every file can be opened.
pub received-EndsTurn :
    (s : Setting) (t : Tables) (chunks : List Bytes) (e : RecvEnd)
    → CanAppend s
    → (m : Result (Tables × List Effect)) → process s t chunks e ≡ m
    → EffectsEndTurn m
received-EndsTurn s t chunks e all (ok (t', done)) h =
    settled s t' done (process-IsArmed s t t' chunks e done all h)
received-EndsTurn s t chunks e all (fault f) h = tt
