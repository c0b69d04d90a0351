-- ===== src/ThreadPool.antt =====
-- threadpool/: a queue of events under a mutex and a semaphore, between the main thread, which calls
-- `appendEvent`, and the workers, which run `run`. Each call of pthread_mutex_lock,
-- pthread_mutex_unlock, sem_wait and sem_post is a step of its own and may fail.
pub mod Tally
pub mod Invariant
pub mod Kept
pub mod Exact
pub mod Safety
pub mod Progress
pub mod Jobs
pub mod Refines
pub mod Create
use cherokee.Base.{
  ℕ, zero, suc, ◌+◌, ◌≡◌, Bool, true, false, List, [], ◌∷◌, ◌++◌, Option, none, some,
}
use cherokee.Base.Int.{ℤ, pos, neg_ℕ}

-- `EventBase*`: the object's address, or nullptr.
abbrev pub Event : Type 0
Event = Option ℕ

-- Where the main thread stands in `appendEvent`.
pub data Caller : Type 0 where
  returned : ℤ → Caller  -- outside, after a call with this result
  to_lock : Event → Caller
  to_push : Event → Caller  -- the mutex is held
  to_unlock : Caller  -- the mutex is held
  to_post : Caller

-- Where a worker stands in `run`.
pub data Worker : Type 0 where
  waits : Worker
  locks : Worker
  looks : Worker  -- the mutex is held: `m_workQueue.empty()`
  gives_way : Worker  -- the mutex is held, the queue was empty
  unlocks : Event → Worker  -- the mutex is held, an event is taken
  handles : Event → Worker
  stopped : Event → Worker  -- `run` has returned, with this event in hand

pub record Shared : Type 0 where
  pub queue : List Event  -- m_workQueue
  pub sem : ℕ  -- queueEventNum
  pub locked : Bool  -- queueLocker
  pub pushed : List Event  -- all that was ever pushed, and
  pub processed : List Event  -- all whose `process` has run, oldest first

abbrev pub lock_for {ℓ} : {A : Type ℓ} → Bool → Shared → A → Option (Shared × A)
lock_for true s a = none
lock_for false s a = some (record s { locked = true }, a)

-- The next step of the caller, `none` where it has to wait; the flag is whether the call succeeds.
unfoldable pub append_step : Bool → Shared → Caller → Option (Shared × Caller)
append_step good s (returned r) = none
append_step true s (to_lock e) = lock_for s.locked s (to_push e)
append_step false s (to_lock e) = some (s, returned (neg_ℕ 1))
append_step good s (to_push e) =
    some (record s { queue = s.queue ++ e ∷ []; pushed = s.pushed ++ e ∷ [] }, to_unlock)
append_step true s to_unlock = some (record s { locked = false }, to_post)
append_step false s to_unlock = some (s, returned (neg_ℕ 2))
append_step true s to_post = some (record s { sem = s.sem + 1 }, returned (pos 0))
append_step false s to_post = some (s, returned (neg_ℕ 3))

abbrev pub sem_wait : ℕ → Shared → Option (Shared × Worker)
sem_wait zero s = none
sem_wait (suc n) s = some (record s { sem = n }, locks)

abbrev pub look : List Event → Shared → Shared × Worker
look [] s = (s, gives_way)
look (e ∷ es) s = (record s { queue = es }, unlocks e)

abbrev pub handle : Event → Shared → Shared
handle none s = s
handle (some p) s = record s { processed = s.processed ++ some p ∷ [] }

-- The next step of a worker, `none` where it has to wait or has returned.
unfoldable pub worker_step : Bool → Shared → Worker → Option (Shared × Worker)
worker_step true s waits = sem_wait s.sem s
worker_step false s waits = some (s, stopped none)
worker_step true s locks = lock_for s.locked s looks
worker_step false s locks = some (s, stopped none)
worker_step good s looks = some (look s.queue s)
worker_step true s gives_way = some (record s { locked = false }, waits)
worker_step false s gives_way = some (s, waits)
worker_step true s (unlocks e) = some (record s { locked = false }, handles e)
worker_step false s (unlocks e) = some (s, stopped e)
worker_step good s (handles e) = some (handle e s, waits)
worker_step good s (stopped e) = none

pub record Pool : Type 0 where
  pub shared : Shared
  pub caller : Caller
  pub workers : List Worker

-- `m_threads`, when all have been created.
abbrev pub waiting : ℕ → List Worker
waiting zero = []
waiting (suc n) = waits ∷ waiting n

abbrev pub new_pool : ℕ → Pool
new_pool n = record {
  shared = record { queue = []; sem = 0; locked = false; pushed = []; processed = [] };
  caller = returned (pos 0);
  workers = waiting n;
}

-- One step of one thread, with whether its call succeeds. A call of `appendEvent` may begin whenever
-- the last one has returned.
pub data Step : Bool → Pool → Pool → Type 0 where
  call :
      {good : Bool} {s : Shared} {r : ℤ} {ws : List Worker} (e : Event)
      → Step good
          (record { shared = s; caller = returned r; workers = ws })
          (record { shared = s; caller = to_lock e; workers = ws })
  append :
      {good : Bool} {s s' : Shared} {c c' : Caller} {ws : List Worker}
      → append_step good s c ≡ some (s', c')
      → Step good
          (record { shared = s; caller = c; workers = ws })
          (record { shared = s'; caller = c'; workers = ws })
  work :
      {good : Bool} {s s' : Shared} {c : Caller} (before after : List Worker) (w w' : Worker)
      → worker_step good s w ≡ some (s', w')
      → Step good
          (record { shared = s; caller = c; workers = before ++ w ∷ after })
          (record { shared = s'; caller = c; workers = before ++ w' ∷ after })

-- Whether calls may fail, and the pools that a pool of `n` workers can become.
pub data Reach (may_fail : Bool) (n : ℕ) : Pool → Type 0 where
  begin : Reach may_fail n (new_pool n)
  then_step :
      {good : Bool} {p q : Pool}
      → Reach may_fail n p
      → (may_fail ≡ false → good ≡ true)
      → Step good p q
      → Reach may_fail n q
