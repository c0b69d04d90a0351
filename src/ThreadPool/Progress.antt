-- ===== src/ThreadPool/Progress.antt =====
-- What the workers of a pool can do next: the blocking calls of `run`.
use cherokee.Base.{
  ℕ, zero, suc, ◌+◌, ◌≤◌, ◌≡◌, ◌≢◌, refl, sym, ap, ◌∙◌, ◌⊎◌, inl, inr, Bool, true, false, List, [],
  ◌∷◌, ◌++◌, none, some, length, length-append, arith, Option-cases,
}
use mathlib.Core.Bool.{false≢true}
use cherokee.Base.Int.{ℤ}
use cherokee.ThreadPool.{
  Event, lock_for, sem_wait, returned, Worker, waits, locks, looks, gives_way, unlocks, handles,
  stopped, Shared, worker_step, Pool, Step, call, append, work, Reach, begin, then_step, waiting,
}
use cherokee.ThreadPool.Exact.{ended, Reach-ExactIn}
use cherokee.ThreadPool.Invariant.{caller_holds, holds, claims, bit, owes}
use cherokee.ThreadPool.Kept.{times, in_hand, Reach-KeptIn}
use cherokee.ThreadPool.Tally.{tally, tally-waiting}

-- Some worker has a next step.
abbrev pub CanWork : Shared → List Worker → Type 0
CanWork s ws =
    (before : List Worker) × (w : Worker) × (after : List Worker) × (r : Shared × Worker) × (ws
      ≡ before ++ w ∷ after)
    × (worker_step true s w ≡ some r)

abbrev sleeps : Worker → ℕ
sleeps waits = 1
sleeps _ = 0

-- Why the workers of a list have no next step, in sums over them.
record Blocked (s : Shared) (ws : List Worker) : Type 0 where
  none_holds : tally holds ws ≡ 0
  none_claims : s.locked ≡ false → tally claims ws ≡ 0
  none_sleeps : 1 ≤ s.sem → tally sleeps ws ≡ 0
  all_counted : length ws ≤ tally sleeps ws + tally claims ws + tally ended ws

no_token : (n : ℕ) (s : Shared) → sem_wait n s ≡ none → n ≡ 0
no_token zero s h = refl
no_token (suc n) s h = cc

no_lock {ℓ} : {A : Type ℓ} (b : Bool) (s : Shared) (a : A) → lock_for b s a ≡ none → b ≡ true
no_lock true s a h = refl
no_lock false s a h = cc

Blocked-cons :
    (s : Shared) (w : Worker) (ws : List Worker)
    → worker_step true s w ≡ none
    → Blocked s ws
    → Blocked s (w ∷ ws)
unfolding worker_step
Blocked-cons s waits ws h b = record {
  none_holds = omega (arith, b.none_holds);
  none_claims = λ free. omega (arith, b.none_claims free);
  none_sleeps = λ more. absurd (omega (arith, more, no_token s.sem s h));
  all_counted = omega (arith, b.all_counted);
}
Blocked-cons s locks ws h b = record {
  none_holds = omega (arith, b.none_holds);
  none_claims = λ free. absurd (false≢true (sym free ∙ no_lock s.locked s looks h));
  none_sleeps = λ more. omega (arith, b.none_sleeps more);
  all_counted = omega (arith, b.all_counted);
}
Blocked-cons s looks ws h b = absurd cc
Blocked-cons s gives_way ws h b = absurd cc
Blocked-cons s (unlocks e) ws h b = absurd cc
Blocked-cons s (handles e) ws h b = absurd cc
Blocked-cons s (stopped e) ws h b = record {
  none_holds = omega (arith, b.none_holds);
  none_claims = λ free. omega (arith, b.none_claims free);
  none_sleeps = λ more. omega (arith, b.none_sleeps more);
  all_counted = omega (arith, b.all_counted);
}

work_or_stuck : (s : Shared) (ws : List Worker) → CanWork s ws ⊎ Blocked s ws
work_or_stuck s [] = inr (record {
  none_holds = refl;
  none_claims = λ free. refl;
  none_sleeps = λ more. refl;
  all_counted = omega arith;
})
work_or_stuck s (w ∷ ws) = elim (Option-cases (worker_step true s w)) [
  | inr (r, e) ↦ inl ([], w, ws, r, refl, e)
  | inl stuck ↦ elim (work_or_stuck s ws) [
    | inl (before, v, after, r, split, e) ↦ inl (w ∷ before, v, after, r, ap (◌∷◌ w) split, e)
    | inr b ↦ inr (Blocked-cons s w ws stuck b)
  ]
]

length-move :
    (before after : List Worker) (w w' : Worker)
    → length (before ++ w ∷ after) ≡ length (before ++ w' ∷ after)
length-move before after w w' =
    omega (arith, length-append before (w ∷ after), length-append before (w' ∷ after))

length-waiting : (n : ℕ) → length (waiting n) ≡ n
length-waiting zero = refl
length-waiting (suc n) = ap suc (length-waiting n)

Step-length : {good : Bool} {p q : Pool} → Step good p q → length p.workers ≡ length q.workers
Step-length (call e) = refl
Step-length (append h) = refl
Step-length (work before after w w' h) = length-move before after w w'

Reach-length : {may_fail : Bool} {n : ℕ} {p : Pool} → Reach may_fail n p → length p.workers ≡ n
Reach-length {n = n} begin = length-waiting n
Reach-length (then_step r ok st) = sym (Step-length st) ∙ Reach-length r

bit_zero : (b : Bool) → bit b ≡ 0 → b ≡ false
bit_zero true h = absurd (omega arith)
bit_zero false h = refl

length_pos : (q : List Event) → q ≢ [] → 1 ≤ length q
length_pos [] h = absurd (h refl)
length_pos (e ∷ q) h = omega arith

length_zero : (q : List Event) → length q ≡ 0 → q ≡ []
length_zero [] h = refl
length_zero (e ∷ q) h = absurd (omega arith)

-- A pool with a worker at least, in which no call has failed, never deadlocks: while the queue holds
-- an event and the main thread is not in `appendEvent`, some worker has a next step.
pub pool-CanWork :
    {n : ℕ} {p : Pool} (z : ℤ)
    → Reach false n p
    → 1 ≤ n
    → p.caller ≡ returned z
    → p.shared.queue ≢ []
    → CanWork p.shared p.workers
pool-CanWork {p = p} z r some_worker out busy = elim (work_or_stuck p.shared p.workers) [
  | inl can ↦ can
  | inr b ↦
      let x = Reach-ExactIn r in
      let free : p.shared.locked ≡ false =
        bit_zero p.shared.locked (omega (arith, x.held, b.none_holds, ap caller_holds out)) in
      let full : 1 ≤ length p.shared.queue = length_pos p.shared.queue busy in
      let token : 1 ≤ p.shared.sem =
        omega (arith, full, x.queued, ap owes out, b.none_claims free) in
      absurd (
        omega (
          arith,
          some_worker,
          Reach-length r,
          b.all_counted,
          b.none_sleeps token,
          b.none_claims free,
          x.none_ended,
        ))
]

-- In a pool in which no call has failed, once the main thread is out of `appendEvent` and all workers
-- sleep on the semaphore with no way to go on, the queue is empty, and each event has been processed
-- as many times as it was pushed.
pub pool_quiet :
    {n : ℕ} {p : Pool} (z : ℤ) (m : ℕ)
    → Reach false n p
    → p.caller ≡ returned z
    → p.workers ≡ waiting m
    → worker_step true p.shared waits ≡ none
    → (p.shared.queue ≡ []) × ((x : ℕ) → times x p.shared.processed ≡ times x p.shared.pushed)
unfolding worker_step
pool_quiet {p = p} z m r out asleep stuck =
    let x = Reach-ExactIn r in
    let counted : (f : Worker → ℕ) → f waits ≡ 0 → tally f p.workers ≡ 0 =
      λ f zero_f. ap (tally f) asleep ∙ tally-waiting f zero_f m in
    let empty : p.shared.queue ≡ [] = length_zero p.shared.queue (
      omega (
        arith,
        x.queued,
        ap owes out,
        counted claims refl,
        no_token p.shared.sem p.shared stuck,
      )) in
    (empty, λ a. omega (arith, Reach-KeptIn a r, counted (in_hand a) refl, ap (times a) empty))
