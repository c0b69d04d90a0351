-- ===== src/ThreadPool/Safety.antt =====
-- What the users of a pool rely on.
use cherokee.Base.{ℕ, ◌+◌, ◌≤◌, ◌≡◌, ◌≢◌, ap, Bool, List, [], ◌∷◌, ◌++◌, length, arith}
use cherokee.ThreadPool.{Worker, looks, gives_way, Pool, Reach}
use cherokee.ThreadPool.Invariant.{caller_holds, holds, claims, found_none, bit_le, Reach-Inv}
use cherokee.ThreadPool.Tally.{tally, tally-at}

-- In every pool that is reached, whichever calls have failed, at most one thread, the caller of
-- `appendEvent` or a worker, is between a lock of the mutex and the unlock that follows.
pub at_most_one_holds :
    {may_fail : Bool} {n : ℕ} {p : Pool}
    → Reach may_fail n p
    → caller_holds p.caller + tally holds p.workers ≤ 1
at_most_one_holds {p = p} r = omega (arith, (Reach-Inv r).exclusive, bit_le p.shared.locked)

-- In every pool that is reached, whichever calls have failed, a worker that has passed the semaphore
-- and locked the mutex finds an event in the queue: the branch for an empty queue is never taken.
pub looks_finds :
    {may_fail : Bool} {n : ℕ} {p : Pool} (before after : List Worker) (w : Worker)
    → Reach may_fail n p
    → p.workers ≡ before ++ w ∷ after
    → (w ≢ gives_way) × (w ≡ looks → p.shared.queue ≢ [])
looks_finds {p = p} before after w r split =
    let b = Reach-Inv r in
    (
      λ e. omega (
        arith,
        b.never_empty,
        ap (tally found_none) split,
        tally-at found_none before after w,
        ap found_none e,
      ),
      λ e empty. omega (
        arith,
        b.enough,
        ap (tally claims) split,
        tally-at claims before after w,
        ap claims e,
        ap length empty,
      ),
    )
