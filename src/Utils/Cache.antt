-- ===== src/Utils/Cache.antt =====
-- `cache_manager` of main.cpp, and what it leaves behind.
use cherokee.Base.{
  ℕ, zero, suc, true, List, [], ◌∷◌, ◌++◌, Option, none, some, ◌≡◌, refl, sym, ap, ap₂, ◌∙◌,
  append_assoc, append-nil, inl, inr, Bool-cases, if◌then◌else◌, ◌==◌, ==_iff,
}
use cherokee.Base.Int.{ℤ}
use cherokee.Text.{codes}
use cherokee.Utils.Ipc.{
  IpcCall, ftok, shmget, shmat, hcreate, hdestroy, sem_init, sem_wait, sem_post, Host, Process,
  Ended, goes, exits, still_runs, Ipc, ◌>>=◌, shm_flags, shm_size, get_shm_key, init_shared_memory,
  attach_shared_memory, detach_shared_memory, destroy_shared_memory, init_hash_table,
  destroy_hash_table, init_semaphores, wait_semaphore, post_semaphore, made, is_zero,
}

-- `while (true)`, for so many rounds.
unfoldable pub cache_rounds : ℕ → Ipc (Unit {0})
cache_rounds zero host p = still_runs p
cache_rounds (suc n) host p =
    (wait_semaphore >>= λ w. post_semaphore >>= λ r. cache_rounds n) host p

-- What follows the loop is there, but no round leads to it.
unfoldable pub cache_manager : ℕ → Ipc (Unit {0})
cache_manager n = do
  key ← get_shm_key (codes "shmfile") 65
  shmid ← init_shared_memory key shm_size
  str ← attach_shared_memory shmid
  htab ← init_hash_table 50
  u ← init_semaphores
  v ← cache_rounds n
  d ← detach_shared_memory str
  r ← destroy_shared_memory shmid
  destroy_hash_table htab

self_block : (a : ℕ) → (a == a) ≡ true
self_block a = (==_iff a a).1 refl

-- The table is made, then destroyed.
unfoldable pub use_table : ℕ → Ipc (Unit {0})
use_table size = do htab ← init_hash_table size; destroy_hash_table htab

abbrev pub pairs : ℕ → List IpcCall
pairs zero = []
pairs (suc n) = sem_wait ∷ sem_post ∷ pairs n

abbrev pub after_calls : Process → List IpcCall → Process
after_calls p cs = record p { calls = p.calls ++ cs }

-- What is asked for the table: where it cannot be made, `hdestroy_r` is not called.
abbrev pub table_calls : Host → ℕ → ℕ → List IpcCall
table_calls host size a =
    if is_zero (host (hcreate size a))
    then hcreate size a ∷ []
    else hcreate size a ∷ hdestroy a ∷ []

-- A table that is made and then destroyed leaves no block behind, whether it could be made or not.
pub use_table_lem :
    (size : ℕ) (host : Host) (p : Process)
    → use_table size host p
      ≡ goes tt (record p { calls = p.calls ++ table_calls host size p.fresh; fresh = suc p.fresh })
unfolding use_table init_hash_table destroy_hash_table
use_table_lem size host p = elim (Bool-cases (is_zero (host (hcreate size p.fresh)))) [
  | inl e ↦ rw (e, self_block p.fresh) refl
  | inr e ↦
      rw (e, self_block p.fresh)
        (ap (λ cs. goes tt (record p { calls = cs; fresh = suc p.fresh }))
          (append_assoc p.calls _ _))
]

cache_rounds_lem :
    (n : ℕ) (host : Host) (p : Process)
    → cache_rounds n host p ≡ still_runs (after_calls p (pairs n))
unfolding cache_rounds wait_semaphore post_semaphore
cache_rounds_lem zero host p =
    ap (λ cs. still_runs (record p { calls = cs })) (sym (append-nil p.calls))
cache_rounds_lem (suc n) host p =
    cache_rounds_lem n host (made sem_post (made sem_wait p))
    ∙ ap (λ cs. still_runs (record p { calls = cs }))
        (append_assoc (p.calls ++ sem_wait ∷ []) (sem_post ∷ []) (pairs n)
          ∙ append_assoc p.calls (sem_wait ∷ []) (sem_post ∷ pairs n))

-- From the semaphore on.
abbrev cache_rest : ℕ → ℤ → ℤ → Option ℕ → Ipc (Unit {0})
cache_rest n shmid str htab = do
  u ← init_semaphores
  v ← cache_rounds n
  d ← detach_shared_memory str
  r ← destroy_shared_memory shmid
  destroy_hash_table htab

cache_rest_lem :
    (n : ℕ) (shmid str : ℤ) (htab : Option ℕ) (host : Host) (p : Process)
    → cache_rest n shmid str htab host p ≡ (
        if is_zero (host (sem_init 1 1))
        then still_runs (after_calls p (sem_init 1 1 ∷ pairs n))
        else exits 1 (after_calls p (sem_init 1 1 ∷ [])))
unfolding init_semaphores
cache_rest_lem n shmid str htab host p = elim (Bool-cases (is_zero (host (sem_init 1 1)))) [
  | inl e ↦ rw e (
      ap
        (λ (m : Ended (Unit {0})).
          ((λ h q. m) >>= λ v. detach_shared_memory str >>= λ d.
          destroy_shared_memory shmid >>= λ r. destroy_hash_table htab)
            host p)
        (cache_rounds_lem n host (made (sem_init 1 1) p))
      ∙ ap (λ cs. still_runs (record p { calls = cs })) (append_assoc p.calls _ _))
  | inr e ↦ rw e refl
]

four_calls :
    (xs : List IpcCall) (a b c d : IpcCall) (cs : List IpcCall)
    → ((((xs ++ a ∷ []) ++ b ∷ []) ++ c ∷ []) ++ d ∷ []) ++ cs ≡ xs ++ (a ∷ b ∷ c ∷ d ∷ cs)
four_calls xs a b c d cs =
    append_assoc (((xs ++ a ∷ []) ++ b ∷ []) ++ c ∷ []) (d ∷ []) cs
    ∙ append_assoc ((xs ++ a ∷ []) ++ b ∷ []) (c ∷ []) (d ∷ cs)
    ∙ append_assoc (xs ++ a ∷ []) (b ∷ []) (c ∷ d ∷ cs)
    ∙ append_assoc xs (a ∷ []) (b ∷ c ∷ d ∷ cs)

-- What the cache process asks for before its loop.
abbrev pub cache_opening : Host → ℕ → List IpcCall
cache_opening host a =
    let key = host (ftok (codes "shmfile") 65) in
    let shmid = host (shmget key shm_size shm_flags) in
    ftok (codes "shmfile") 65
    ∷ shmget key shm_size shm_flags
    ∷ shmat shmid
    ∷ hcreate 50 a
    ∷ sem_init 1 1
    ∷ []

abbrev pub cache_left : Host → Process → List IpcCall → Process
cache_left host p cs = record {
  calls = p.calls ++ (cache_opening host p.fresh ++ cs);
  live = if is_zero (host (hcreate 50 p.fresh)) then p.live else p.fresh ∷ p.live;
  fresh = suc p.fresh;
}

-- Whatever its calls return, the cache process ends with 1 where its semaphore cannot be made, and
-- otherwise never ends: after any number of rounds of its loop it has taken and released the
-- semaphore once in each, and has neither detached nor removed the shared memory nor destroyed the
-- table.
pub cache_manager_lem :
    (n : ℕ) (host : Host) (p : Process)
    → cache_manager n host p ≡ (
        if is_zero (host (sem_init 1 1))
        then still_runs (cache_left host p (pairs n))
        else exits 1 (cache_left host p []))
unfolding cache_manager get_shm_key init_shared_memory attach_shared_memory init_hash_table
    init_semaphores
cache_manager_lem n host p =
    let key = host (ftok (codes "shmfile") 65) in
    let shmid = host (shmget key shm_size shm_flags) in
    let str = host (shmat shmid) in
    let asked =
      four_calls p.calls (ftok (codes "shmfile") 65) (shmget key shm_size shm_flags) (shmat shmid)
        (hcreate 50 p.fresh) in
    elim (Bool-cases (is_zero (host (hcreate 50 p.fresh)))) [
      | inl fails ↦
          rw (fails, self_block p.fresh)
            (cache_rest_lem n shmid str none host _
              ∙ ap₂
                  (λ a b.
                    if is_zero (host (sem_init 1 1))
                    then still_runs (record { calls = a; live = p.live; fresh = suc p.fresh })
                    else exits 1 (record { calls = b; live = p.live; fresh = suc p.fresh }))
                  (asked (sem_init 1 1 ∷ pairs n)) (asked (sem_init 1 1 ∷ [])))
      | inr makes ↦ rw makes (
          cache_rest_lem n shmid str (some p.fresh) host _
          ∙ ap₂
              (λ a b.
                if is_zero (host (sem_init 1 1))
                then still_runs (record { calls = a; live = p.fresh ∷ p.live; fresh = suc p.fresh })
                else exits 1 (record { calls = b; live = p.fresh ∷ p.live; fresh = suc p.fresh }))
              (asked (sem_init 1 1 ∷ pairs n)) (asked (sem_init 1 1 ∷ [])))
    ]
