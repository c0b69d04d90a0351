-- ===== src/ThreadPool/Kept.antt =====
-- Where each event of a pool is: in the queue, in the hand of a worker, or processed.
use cherokee.Base.{
  ℕ, ◌+◌, ◌≡◌, refl, ap, Bool, true, false, List, [], ◌∷◌, ◌++◌, none, some, arith, ◌==◌,
  if◌then◌else◌,
}
use cherokee.ThreadPool.{
  Event, Caller, returned, to_lock, to_push, to_unlock, to_post, Worker, waits, locks, looks,
  gives_way, unlocks, handles, stopped, Shared, append_step, worker_step, Pool, Step, call, append,
  work, Reach, begin, then_step,
}
use cherokee.ThreadPool.Invariant.{
  Ensures, Ensures-some, lock_for-Ensures, sem_wait-Ensures, look-both,
}
use cherokee.ThreadPool.Tally.{tally, tally-at, tally-waiting}

-- 1 for the address itself.
abbrev pub is : ℕ → Event → ℕ
is e none = 0
is e (some x) = if e == x then 1 else 0

abbrev pub times : ℕ → List Event → ℕ
times e [] = 0
times e (x ∷ xs) = is e x + times e xs

times-append : (e : ℕ) (xs ys : List Event) → times e (xs ++ ys) ≡ times e xs + times e ys
times-append e [] ys = omega arith
times-append e (x ∷ xs) ys = omega (arith, times-append e xs ys)

abbrev pub in_hand : ℕ → Worker → ℕ
in_hand e (unlocks x) = is e x
in_hand e (handles x) = is e x
in_hand e (stopped x) = is e x
in_hand e _ = 0

-- With `h` in the hands of the workers.
abbrev Kept : ℕ → Shared → ℕ → Type 0
Kept e s h = times e s.pushed ≡ times e s.queue + h + times e s.processed

append_step-Kept :
    (e : ℕ) (good : Bool) (s : Shared) (c : Caller) (h : ℕ)
    → Kept e s h
    → Ensures (λ (s', c'). Kept e s' h) (append_step good s c)
unfolding append_step
append_step-Kept e good s (returned r) h k = tt
append_step-Kept e true s (to_lock x) h k =
    lock_for-Ensures (λ (s', c'). Kept e s' h) s.locked s (to_push x) λ free. k
append_step-Kept e false s (to_lock x) h k = k
append_step-Kept e good s (to_push x) h k =
    omega (arith, k, times-append e s.queue (x ∷ []), times-append e s.pushed (x ∷ []))
append_step-Kept e true s to_unlock h k = k
append_step-Kept e false s to_unlock h k = k
append_step-Kept e true s to_post h k = k
append_step-Kept e false s to_post h k = k

-- `h` is in the hands of the other workers.
abbrev Among : ℕ → ℕ → Shared × Worker → Type 0
Among e h (s, w) = Kept e s (h + in_hand e w)

worker_step-Kept :
    (e : ℕ) (good : Bool) (s : Shared) (w : Worker) (h : ℕ)
    → Among e h (s, w)
    → Ensures (Among e h) (worker_step good s w)
unfolding worker_step
worker_step-Kept e true s waits h k = sem_wait-Ensures (Among e h) s.sem s λ m more. k
worker_step-Kept e false s waits h k = k
worker_step-Kept e true s locks h k = lock_for-Ensures (Among e h) s.locked s looks λ free. k
worker_step-Kept e false s locks h k = k
worker_step-Kept e good s looks h k =
    look-both (Among e h) s.queue s (λ empty. k) λ x xs full. omega (arith, k, ap (times e) full)
worker_step-Kept e true s gives_way h k = k
worker_step-Kept e false s gives_way h k = k
worker_step-Kept e true s (unlocks x) h k = k
worker_step-Kept e false s (unlocks x) h k = k
worker_step-Kept e good s (handles none) h k = k
worker_step-Kept e good s (handles (some x)) h k =
    omega (arith, k, times-append e s.processed (some x ∷ []))
worker_step-Kept e good s (stopped x) h k = tt

abbrev KeptIn : ℕ → Pool → Type 0
KeptIn e p = Kept e p.shared (tally (in_hand e) p.workers)

work-KeptIn :
    (e : ℕ) (good : Bool) (s s' : Shared) (c : Caller) (before after : List Worker) (w w' : Worker)
    → worker_step good s w ≡ some (s', w')
    → KeptIn e (record { shared = s; caller = c; workers = before ++ w ∷ after })
    → KeptIn e (record { shared = s'; caller = c; workers = before ++ w' ∷ after })
work-KeptIn e good s s' c before after w w' h k =
    let others = tally (in_hand e) before + tally (in_hand e) after in
    let moved : Among e others (s', w') = Ensures-some (Among e others) (worker_step good s w) h (
      worker_step-Kept e good s w others (omega (arith, k, tally-at (in_hand e) before after w))) in
    omega (arith, moved, tally-at (in_hand e) before after w')

Step-KeptIn : (e : ℕ) {good : Bool} {p q : Pool} → Step good p q → KeptIn e p → KeptIn e q
Step-KeptIn e (call x) k = k
Step-KeptIn e (append {good} {s} {s'} {c} {c'} h) k =
    Ensures-some _ (append_step good s c) h (append_step-Kept e good s c _ k)
Step-KeptIn e (work {good} {s} {s'} {c} before after w w' h) k =
    work-KeptIn e good s s' c before after w w' h k

-- In every pool that is reached, whichever calls have failed, each event is as many times in the
-- queue, in the hands of the workers and among the processed events, in all, as it was pushed.
pub Reach-KeptIn :
    {may_fail : Bool} {n : ℕ} {p : Pool} (e : ℕ)
    → Reach may_fail n p
    → times e p.shared.pushed
      ≡ times e p.shared.queue + tally (in_hand e) p.workers + times e p.shared.processed
Reach-KeptIn {n = n} e begin = omega (arith, tally-waiting (in_hand e) refl n)
Reach-KeptIn e (then_step r ok st) = Step-KeptIn e st (Reach-KeptIn e r)
