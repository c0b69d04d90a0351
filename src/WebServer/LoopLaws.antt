-- ===== src/WebServer/LoopLaws.antt =====
-- The loop of the main thread against what each report of epoll asks for.
use cherokee.Base.{
  ℕ, zero, suc, ◌%◌, ◌<◌, Bool, true, false, not, ◌&&◌, ◌||◌, List, [], ◌∷◌, ◌++◌, none, ◌≡◌, refl,
  sym, ap, ◌∙◌, inl, inr, Bool-cases, if◌then◌else◌, ◌==◌, ==_iff, arith, append-nil,
}
use cherokee.WebServer.{
  Handler, accept_conn, handle_recv, handle_send, Ready, Descriptors, same_fd, has, on_ready,
  for_ready, Waited, ready, interrupted, failed, stops, after_signals, WaitEnd, returns, throws,
  waiting, with_more, while_not, wait_epoll,
}

-- The handler that one report asks for, if any.
abbrev pub wanted : Descriptors → Ready → List Handler
wanted d r =
    if same_fd r.fd d.listen_fd
    then accept_conn ∷ []
    else if has r.events 1
    then (if same_fd r.fd d.pipe_fd then [] else handle_recv r.fd ∷ [])
    else if has r.events 4
    then handle_send r.fd ∷ []
    else []

abbrev pub all_wanted : Descriptors → List Ready → List Handler
all_wanted d [] = []
all_wanted d (r ∷ rs) = wanted d r ++ all_wanted d rs

on_ready-wanted : (d : Descriptors) (r : Ready) → on_ready d none r ≡ (none, wanted d r)
unfolding on_ready
on_ready-wanted d r = ground arith

for_ready-wanted :
    (d : Descriptors) (rs : List Ready) → for_ready d none rs ≡ (none, all_wanted d rs)
unfolding for_ready
for_ready-wanted d [] = refl
for_ready-wanted d (r ∷ rs) =
    ap (λ (e, hs). ((for_ready d e rs).0, hs ++ (for_ready d e rs).1)) (on_ready-wanted d r)
    ∙ ap (λ (e, hs). (e, wanted d r ++ hs)) (for_ready-wanted d rs)

-- Below `n`, `f` and `g` agree.
abbrev agree : ℕ → (ℕ → Bool) → (ℕ → Bool) → Bool
agree zero f g = true
agree (suc n) f g = (if f n then g n else not (g n)) && agree n f g

and-both : (a b : Bool) → a && b ≡ true → (a ≡ true) × (b ≡ true)
and-both true b h = (refl, h)
and-both false b h = cc

same : (a b : Bool) → (if a then b else not b) ≡ true → a ≡ b
same true true h = refl
same false false h = refl
same true false h = cc
same false true h = cc

agree-eq : (n : ℕ) (f g : ℕ → Bool) → agree n f g ≡ true → (k : ℕ) → k < n → f k ≡ g k
agree-eq zero f g h k l = absurd (omega arith)
agree-eq (suc n) f g h k l =
    let (now, before) = and-both (if f n then g n else not (g n)) (agree n f g) h in
    elim (Bool-cases (k == n)) [
      | inl e ↦
          let at : k ≡ n = omega (arith, (==_iff k n).0 e) in
          ap f at ∙ same (f n) (g n) now ∙ ap g (sym at)
      | inr e ↦ agree-eq n f g before k (ground arith)
    ]

-- What the loop is to do: serve the reports of each round in their order, then go on unless a signal
-- that stops the server has arrived.
abbrev pub any_stops : List ℕ → Bool
any_stops [] = false
any_stops (signo ∷ ss) = stops signo || any_stops ss

abbrev pub wanted_by : Descriptors → Waited → List Handler
wanted_by d (ready rs) = all_wanted d rs
wanted_by d interrupted = []
wanted_by d failed = []

abbrev pub after_round : List Handler → Bool → List Handler × WaitEnd → List Handler × WaitEnd
after_round hs true rest = (hs, returns)
after_round hs false (hs', e) = (hs ++ hs', e)

abbrev pub served : Descriptors → List (Waited × List ℕ) → List Handler × WaitEnd
served d [] = ([], waiting)
served d ((failed, ss) ∷ rounds) = ([], throws)
served d ((interrupted, ss) ∷ rounds) = after_round [] (any_stops ss) (served d rounds)
served d ((ready rs, ss) ∷ rounds) = after_round (all_wanted d rs) (any_stops ss) (served d rounds)

or-true : (b : Bool) → (b || true) ≡ true
or-true true = refl
or-true false = refl

after_signals-any : (b : Bool) (ss : List ℕ) → after_signals b ss ≡ (b || any_stops ss)
after_signals-any true [] = refl
after_signals-any false [] = refl
after_signals-any true (signo ∷ ss) = after_signals-any true ss
after_signals-any false (signo ∷ ss) = after_signals-any (stops signo) ss

next_round :
    (d : Descriptors) (b : Bool) (hs : List Handler) (rounds : List (Waited × List ℕ))
    → while_not d false none rounds ≡ served d rounds
    → with_more hs (while_not d b none rounds) ≡ after_round hs b (served d rounds)
unfolding while_not
next_round d true hs rounds h = ap (λ x. (x, returns)) (append-nil hs)
next_round d false hs rounds h = ap (with_more hs) h

quiet_round :
    (d : Descriptors) (b : Bool) (rounds : List (Waited × List ℕ))
    → while_not d false none rounds ≡ served d rounds
    → while_not d b none rounds ≡ after_round [] b (served d rounds)
unfolding while_not
quiet_round d true rounds h = refl
quiet_round d false rounds h = h

while_not-served :
    (d : Descriptors) (rounds : List (Waited × List ℕ))
    → while_not d false none rounds ≡ served d rounds
unfolding while_not
while_not-served d [] = refl
while_not-served d ((failed, ss) ∷ rounds) = refl
while_not-served d ((interrupted, ss) ∷ rounds) =
    ap (λ b. while_not d b none rounds) (after_signals-any false ss)
    ∙ quiet_round d (any_stops ss) rounds (while_not-served d rounds)
while_not-served d ((ready rs, ss) ∷ rounds) =
    ap (λ (e, hs). with_more hs (while_not d (after_signals false ss) e rounds))
      (for_ready-wanted d rs)
    ∙ ap (λ b. with_more (all_wanted d rs) (while_not d b none rounds)) (after_signals-any false ss)
    ∙ next_round d (any_stops ss) (all_wanted d rs) rounds (while_not-served d rounds)

-- The main thread gives the pool one event object for each report that asks for one, in the order of
-- the reports and with no object carried over from one report to the next, until a round in which a
-- stopping signal has arrived or epoll_wait has failed; EINTR alone does not end the loop, and a
-- signal from before the loop does not count.
pub wait_epoll-served :
    (d : Descriptors) (before : Bool) (rounds : List (Waited × List ℕ))
    → wait_epoll d before rounds ≡ served d rounds
unfolding wait_epoll
wait_epoll-served d before rounds = while_not-served d rounds

-- A signal of Linux, whose number is below 65, stops the server unless its number is a multiple of 16.
pub stops_signal : (signo : ℕ) → signo < 65 → stops signo ≡ not (signo % 16 == 0)
unfolding stops
stops_signal signo h = agree-eq 65 stops (λ n. not (n % 16 == 0)) refl signo h
