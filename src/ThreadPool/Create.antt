-- ===== src/ThreadPool/Create.antt =====
-- The constructor of `ThreadPool`, and `createThreadPool` of fileserver/fileserver.cpp.
use cherokee.Base.{
  ℕ, suc, ◌+◌, ◌≡◌, refl, Bool, true, false, not, ◌&&◌, List, [], ◌∷◌, if◌then◌else◌, length, arith,
}

-- Whether pthread_mutex_init and sem_init succeed, and for each thread whether pthread_create and
-- pthread_detach do.
pub record PoolCalls : Type 0 where
  pub makes_mutex : Bool
  pub makes_semaphore : Bool
  pub makes_threads : List (Bool × Bool)

-- What there is when the constructor returns or throws: the mutex and the semaphore, which threads
-- that have been created use, and how many threads there are.
pub record Created : Type 0 where
  pub mutex : Bool
  pub semaphore : Bool
  pub threads : ℕ
  pub thrown : Bool

-- Both are destroyed.
abbrev given_up : ℕ → Created
given_up k = record { mutex = false; semaphore = false; threads = k; thrown = true }

-- The loop, when `k` threads have been created.
unfoldable pub create_threads : List (Bool × Bool) → ℕ → Created
create_threads [] k = record { mutex = true; semaphore = true; threads = k; thrown = false }
create_threads ((creates, detaches) ∷ cs) k =
    let rest = create_threads cs (k + 1) in
    if creates then (if detaches then rest else given_up (k + 1)) else given_up k

-- `ThreadPool(threadNum)`
unfoldable pub new_thread_pool : PoolCalls → Created
new_thread_pool c =
    if c.makes_mutex
    then (if c.makes_semaphore then create_threads c.makes_threads 0 else given_up 0)
    else given_up 0

-- `createThreadPool`, where there is a pool already or not: what the constructor throws is caught, and
-- another exception is thrown where there is no pool then. Whether it returns.
unfoldable pub create_thread_pool : Bool → PoolCalls → Bool
create_thread_pool has_pool c = if (new_thread_pool c).thrown then has_pool else true

-- How many threads have been created when a call for one of them fails, or the loop ends.
abbrev pub created_first : List (Bool × Bool) → ℕ
created_first [] = 0
created_first ((false, detaches) ∷ cs) = 0
created_first ((true, false) ∷ cs) = 1
created_first ((true, true) ∷ cs) = suc (created_first cs)

abbrev pub all_succeed : List (Bool × Bool) → Bool
all_succeed [] = true
all_succeed ((creates, detaches) ∷ cs) = (creates && detaches) && all_succeed cs

create_threads_lem :
    (cs : List (Bool × Bool)) (k : ℕ)
    → create_threads cs k ≡ record {
      mutex = all_succeed cs;
      semaphore = all_succeed cs;
      threads = k + created_first cs;
      thrown = not (all_succeed cs);
    }
unfolding create_threads
create_threads_lem [] k = ground arith
create_threads_lem ((false, detaches) ∷ cs) k = ground arith
create_threads_lem ((true, false) ∷ cs) k = ground arith
create_threads_lem ((true, true) ∷ cs) k = ground (arith, create_threads_lem cs (k + 1))

created_first-all : (cs : List (Bool × Bool)) → all_succeed cs ≡ true → created_first cs ≡ length cs
created_first-all [] h = refl
created_first-all ((false, detaches) ∷ cs) h = cc
created_first-all ((true, false) ∷ cs) h = cc
created_first-all ((true, true) ∷ cs) h = omega (arith, created_first-all cs h)

abbrev pub no_failure : PoolCalls → Bool
no_failure c = (c.makes_mutex && c.makes_semaphore) && all_succeed c.makes_threads

-- The constructor of the pool throws just where some call fails. Then its mutex and semaphore are
-- destroyed or were never made, while the threads that have been created by then go on; where no call
-- fails, both are there, with all the threads.
pub new_thread_pool-no_failure :
    (c : PoolCalls)
    → let p = new_thread_pool c in
      (p.thrown ≡ not (no_failure c))
      × (p.mutex ≡ no_failure c)
      × (p.semaphore ≡ no_failure c)
      × (p.threads
          ≡ (if c.makes_mutex && c.makes_semaphore then created_first c.makes_threads else 0))
      × (no_failure c ≡ true → p.threads ≡ length c.makes_threads)
unfolding new_thread_pool
new_thread_pool-no_failure c =
    ground (arith, create_threads_lem c.makes_threads 0, created_first-all c.makes_threads)
