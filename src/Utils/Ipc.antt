-- ===== src/Utils/Ipc.antt =====
-- The wrappers of utils/utils.cpp around shared memory and semaphores, and the two that make and
-- destroy a hash table.
use cherokee.Base.{
  ℕ, suc, Bool, false, ◌||◌, List, [], ◌∷◌, ◌++◌, Option, none, some, ◌==◌, if◌then◌else◌,
}
use cherokee.Base.Int.{ℤ, pos, negsuc}
use cherokee.Fault.{Fault, undefined}
use cherokee.Text.{Bytes}

-- A table or a semaphore is named by a number for its address; a shared segment is attached at an
-- address, -1 where that fails.
pub data IpcCall : Type 0 where
  ftok : Bytes → ℕ → IpcCall
  shmget : ℤ → ℕ → ℕ → IpcCall  -- key, size and flags
  shmat : ℤ → IpcCall  -- the segment, at any address
  shmdt : ℤ → IpcCall
  shmctl_rmid : ℤ → IpcCall
  hcreate : ℕ → ℕ → IpcCall  -- size and table
  hdestroy : ℕ → IpcCall
  sem_init : ℕ → ℕ → IpcCall  -- whether it is shared, and its value
  sem_wait : IpcCall
  sem_post : IpcCall

abbrev pub is_zero : ℤ → Bool
is_zero (pos n) = n == 0
is_zero (negsuc n) = false

-- What each call returns.
abbrev pub Host : Type 0
Host = IpcCall → ℤ

-- The calls made so far, the blocks that `new` has given and `delete` has not taken back, and the
-- next block.
pub record Process : Type 0 where
  pub calls : List IpcCall
  pub live : List ℕ
  pub fresh : ℕ

-- The code goes on, ends the process, still runs after the rounds given to its loop, or faults.
pub data Ended {ℓ} (A : Type ℓ) : Type ℓ where
  goes : A → Process → Ended A
  exits : ℕ → Process → Ended A
  still_runs : Process → Ended A
  faults : Fault → Ended A

abbrev pub Ipc {ℓ} : Type ℓ → Type ℓ
Ipc A = Host → Process → Ended A

abbrev and_then : {A B : Type 0} → Ended A → (A → Process → Ended B) → Ended B
and_then (goes x p) f = f x p
and_then (exits n p) f = exits n p
and_then (still_runs p) f = still_runs p
and_then (faults e) f = faults e

infixl 5 ◌>>=◌
abbrev pub ◌>>=◌ : {A B : Type 0} → Ipc A → (A → Ipc B) → Ipc B
(m >>= f) host p = and_then (m host p) (λ x p'. f x host p')

abbrev pub return : {A : Type 0} → A → Ipc A
return x host p = goes x p

abbrev pub made : IpcCall → Process → Process
made c p = record p { calls = p.calls ++ c ∷ [] }

abbrev pub ask : IpcCall → Ipc ℤ
ask c host p = goes (host c) (made c p)

abbrev is_live : ℕ → List ℕ → Bool
is_live a [] = false
is_live a (b ∷ bs) = (a == b) || is_live a bs

abbrev pub without : ℕ → List ℕ → List ℕ
without a [] = []
without a (b ∷ bs) = if a == b then bs else b ∷ without a bs

-- `new` and `delete`; a block that is not live is not to be deleted.
abbrev pub new_block : Ipc ℕ
new_block host p = goes p.fresh (record p { live = p.fresh ∷ p.live; fresh = suc p.fresh })

abbrev pub delete_block : ℕ → Ipc (Unit {0})
delete_block a host p =
    if is_live a p.live then goes tt (record p { live = without a p.live }) else faults undefined

unfoldable pub get_shm_key : Bytes → ℕ → Ipc ℤ
get_shm_key path id = ask (ftok path id)

-- SHM_SIZE
abbrev pub shm_size : ℕ
shm_size = 1024

-- 0666 | IPC_CREAT
abbrev pub shm_flags : ℕ
shm_flags = 950

unfoldable pub init_shared_memory : ℤ → ℕ → Ipc ℤ
init_shared_memory key size = ask (shmget key size shm_flags)

unfoldable pub attach_shared_memory : ℤ → Ipc ℤ
attach_shared_memory shmid = ask (shmat shmid)

unfoldable pub detach_shared_memory : ℤ → Ipc ℤ
detach_shared_memory shmaddr = ask (shmdt shmaddr)

unfoldable pub destroy_shared_memory : ℤ → Ipc ℤ
destroy_shared_memory shmid = ask (shmctl_rmid shmid)

-- `none` for the null pointer.
abbrev created : ℤ → ℕ → Ipc (Option ℕ)
created r htab = if is_zero r then (delete_block htab >>= λ u. return none) else return (some htab)

unfoldable pub init_hash_table : ℕ → Ipc (Option ℕ)
init_hash_table size = do htab ← new_block; r ← ask (hcreate size htab); created r htab

unfoldable pub destroy_hash_table : Option ℕ → Ipc (Unit {0})
destroy_hash_table none = return tt
destroy_hash_table (some htab) = do r ← ask (hdestroy htab); delete_block htab

abbrev initialised : ℤ → Ipc (Unit {0})
initialised r host p = if is_zero r then goes tt p else exits 1 p

-- `cache_sem` is shared among processes by its flag, with the value 1.
unfoldable pub init_semaphores : Ipc (Unit {0})
init_semaphores = do r ← ask (sem_init 1 1); initialised r

unfoldable pub wait_semaphore : Ipc ℤ
wait_semaphore = ask sem_wait

unfoldable pub post_semaphore : Ipc ℤ
post_semaphore = ask sem_post
