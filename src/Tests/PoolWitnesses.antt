-- ===== src/Tests/PoolWitnesses.antt =====
-- A pool of two workers that is given one event, step by step, and the theorems about it.
use cherokee.Base.{ℕ, ◌+◌, ◌≤◌, ◌≡◌, ◌≢◌, refl, Bool, true, false, List, [], ◌∷◌, some, arith}
use cherokee.Base.Int.{pos}
use cherokee.ThreadPool.{
  Event, Caller, returned, Worker, waits, locks, looks, gives_way, unlocks, handles, append_step,
  worker_step, Pool, call, append, work, Reach, begin, then_step,
}
use cherokee.ThreadPool.Invariant.{caller_holds, holds}
use cherokee.ThreadPool.Kept.{times, in_hand, Reach-KeptIn}
use cherokee.ThreadPool.Progress.{CanWork, pool-CanWork, pool_quiet}
use cherokee.ThreadPool.Jobs.{Jobs, JobReach}
use cherokee.ThreadPool.Refines.{IsShownBy, Reach-IsShownBy}
use cherokee.ThreadPool.Safety.{at_most_one_holds, looks_finds}
use cherokee.ThreadPool.Tally.{tally}

abbrev state : List Event → ℕ → Bool → List Event → List Event → Caller → Worker → Pool
state queue sem locked pushed processed c w = record {
  shared = record {
    queue = queue;
    sem = sem;
    locked = locked;
    pushed = pushed;
    processed = processed;
  };
  caller = c;
  workers = w ∷ waits ∷ [];
}

abbrev seven : List Event
seven = some 7 ∷ []

abbrev no_events : List Event
no_events = []

abbrev out : Caller
out = returned (pos 0)

-- The main thread pushes the event and posts.
posted_run : Reach false 2 (state seven 1 false seven [] out waits)
unfolding append_step
posted_run =
    then_step
      (then_step
        (then_step
          (then_step (then_step begin (λ _. refl) (call (some 7))) (λ _. refl) (append refl))
          (λ _. refl) (append refl))
        (λ _. refl) (append refl))
      (λ _. refl) (append refl)

-- The first worker takes it up to the look into the queue,
looking_run : Reach false 2 (state seven 0 true seven [] out looks)
unfolding worker_step
looking_run =
    then_step (then_step posted_run (λ _. refl) (work [] (waits ∷ []) waits locks refl)) (λ _. refl)
      (work [] (waits ∷ []) locks looks refl)

-- and to the end.
quiet_run : Reach false 2 (state [] 0 false seven seven out waits)
unfolding worker_step
quiet_run =
    then_step
      (then_step
        (then_step looking_run (λ _. refl) (work [] (waits ∷ []) looks (unlocks (some 7)) refl))
        (λ _. refl) (work [] (waits ∷ []) (unlocks (some 7)) (handles (some 7)) refl))
      (λ _. refl) (work [] (waits ∷ []) (handles (some 7)) waits refl)

at_most_one_holds_example : caller_holds out + tally holds (looks ∷ waits ∷ []) ≤ 1
at_most_one_holds_example = at_most_one_holds looking_run

looks_finds_example : (looks ≢ gives_way) × (looks ≡ looks → seven ≢ [])
looks_finds_example = looks_finds [] (waits ∷ []) looks looking_run refl

Reach-KeptIn_example :
    times 7 seven ≡ times 7 seven + tally (in_hand 7) (looks ∷ waits ∷ []) + times 7 []
Reach-KeptIn_example = Reach-KeptIn 7 looking_run

pool-CanWork_example : CanWork (state seven 1 false seven [] out waits).shared (waits ∷ waits ∷ [])
pool-CanWork_example = pool-CanWork (pos 0) posted_run (omega arith) refl (λ e. cc)

pool_quiet_example : (no_events ≡ []) × ((x : ℕ) → times x seven ≡ times x seven)
unfolding worker_step
pool_quiet_example = pool_quiet (pos 0) 2 quiet_run refl refl refl

Reach-IsShownBy_example :
    (j : Jobs) × JobReach j × IsShownBy (state [] 0 false seven seven out waits) j
Reach-IsShownBy_example = Reach-IsShownBy quiet_run
