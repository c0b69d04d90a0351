-- ===== src/ThreadPool/Invariant.antt =====
-- What every step of a pool keeps, whichever calls fail.
use cherokee.Base.{
  ℕ, zero, suc, ◌+◌, ◌≤◌, ◌≡◌, refl, subst, ap, Bool, true, false, List, [], ◌∷◌, ◌++◌, Option,
  none, some, length, length-append, arith,
}
use cherokee.ThreadPool.{
  Event, lock_for, sem_wait, look, Caller, returned, to_lock, to_push, to_unlock, to_post, Worker,
  waits, locks, looks, gives_way, unlocks, handles, stopped, Shared, append_step, worker_step, Pool,
  new_pool, Step, call, append, work, Reach, begin, then_step,
}
use cherokee.ThreadPool.Tally.{tally, tally-at, tally-waiting}

-- Holds of the value, if there is one.
abbrev pub Ensures {ℓ} : {A : Type ℓ} → (A → Type 0) → Option A → Type 0
Ensures P none = Unit
Ensures P (some a) = P a

pub Ensures-some {ℓ} :
    {A : Type ℓ} (P : A → Type 0) (o : Option A) {a : A} → o ≡ some a → Ensures P o → P a
Ensures-some P none h e = absurd cc
Ensures-some P (some b) h e = subst P (cc) e

abbrev pub bit : Bool → ℕ
bit true = 1
bit false = 0

-- 1 while the thread holds the mutex.
abbrev pub caller_holds : Caller → ℕ
caller_holds (to_push e) = 1
caller_holds to_unlock = 1
caller_holds _ = 0

abbrev pub holds : Worker → ℕ
holds looks = 1
holds gives_way = 1
holds (unlocks e) = 1
holds _ = 0

-- 1 between the push and the post.
abbrev pub owes : Caller → ℕ
owes to_unlock = 1
owes to_post = 1
owes _ = 0

-- 1 while the worker has passed the semaphore and taken nothing yet.
abbrev pub claims : Worker → ℕ
claims locks = 1
claims looks = 1
claims _ = 0

abbrev pub found_none : Worker → ℕ
found_none gives_way = 1
found_none _ = 0

-- On the sums over the workers.
pub record Balanced (s : Shared) (c : Caller) (claimed holding empty_handed : ℕ) : Type 0 where
  -- each post of the semaphore stands for an event in the queue
  pub enough : s.sem + claimed + owes c ≤ length s.queue
  -- at most one thread is between lock and unlock, and only while the mutex is locked
  pub exclusive : caller_holds c + holding ≤ bit s.locked
  -- no worker has found the queue empty
  pub never_empty : empty_handed ≡ 0

abbrev pub Inv : Pool → Type 0
Inv p =
    Balanced p.shared p.caller (tally claims p.workers) (tally holds p.workers)
      (tally found_none p.workers)

pub bit_le : (b : Bool) → bit b ≤ 1
bit_le true = omega arith
bit_le false = omega arith

pub lock_for-Ensures {ℓ} :
    {A : Type ℓ} (P : Shared × A → Type 0) (b : Bool) (s : Shared) (a : A)
    → (b ≡ false → P (record s { locked = true }, a))
    → Ensures P (lock_for b s a)
lock_for-Ensures P true s a h = tt
lock_for-Ensures P false s a h = h refl

pub sem_wait-Ensures :
    (P : Shared × Worker → Type 0) (n : ℕ) (s : Shared)
    → ((m : ℕ) → n ≡ suc m → P (record s { sem = m }, locks))
    → Ensures P (sem_wait n s)
sem_wait-Ensures P zero s h = tt
sem_wait-Ensures P (suc m) s h = h m refl

pub look-both :
    (P : Shared × Worker → Type 0) (q : List Event) (s : Shared)
    → (q ≡ [] → P (s, gives_way))
    → ((e : Event) (es : List Event) → q ≡ e ∷ es → P (record s { queue = es }, unlocks e))
    → P (look q s)
look-both P [] s h k = h refl
look-both P (e ∷ es) s h k = k e es refl

append_step-Balanced :
    (good : Bool) (s : Shared) (c : Caller) (k h e : ℕ)
    → Balanced s c k h e
    → Ensures (λ (s', c'). Balanced s' c' k h e) (append_step good s c)
unfolding append_step
append_step-Balanced good s (returned r) k h e b = tt
append_step-Balanced true s (to_lock x) k h e b =
    lock_for-Ensures (λ (s', c'). Balanced s' c' k h e) s.locked s (to_push x)
      λ free. record {
        enough = b.enough;
        exclusive = omega (arith, b.exclusive, ap bit free);
        never_empty = b.never_empty;
      }
append_step-Balanced false s (to_lock x) k h e b = record {
  enough = b.enough;
  exclusive = b.exclusive;
  never_empty = b.never_empty;
}
append_step-Balanced good s (to_push x) k h e b = record {
  enough = omega (arith, b.enough, length-append s.queue (x ∷ []));
  exclusive = b.exclusive;
  never_empty = b.never_empty;
}
append_step-Balanced true s to_unlock k h e b = record {
  enough = b.enough;
  exclusive = omega (arith, b.exclusive, bit_le s.locked);
  never_empty = b.never_empty;
}
append_step-Balanced false s to_unlock k h e b = record {
  enough = omega (arith, b.enough);
  exclusive = omega (arith, b.exclusive);
  never_empty = b.never_empty;
}
append_step-Balanced true s to_post k h e b = record {
  enough = omega (arith, b.enough);
  exclusive = b.exclusive;
  never_empty = b.never_empty;
}
append_step-Balanced false s to_post k h e b = record {
  enough = omega (arith, b.enough);
  exclusive = b.exclusive;
  never_empty = b.never_empty;
}

-- `k`, `h` and `e` are the sums over the other workers.
abbrev Among : Caller → ℕ → ℕ → ℕ → Shared × Worker → Type 0
Among c k h e (s, w) = Balanced s c (k + claims w) (h + holds w) (e + found_none w)

worker_step-Balanced :
    (good : Bool) (s : Shared) (c : Caller) (w : Worker) (k h e : ℕ)
    → Among c k h e (s, w)
    → Ensures (Among c k h e) (worker_step good s w)
unfolding worker_step
worker_step-Balanced true s c waits k h e b = sem_wait-Ensures (Among c k h e) s.sem s λ m more.
    record {
      enough = omega (arith, b.enough);
      exclusive = b.exclusive;
      never_empty = b.never_empty;
    }
worker_step-Balanced false s c waits k h e b = b
worker_step-Balanced true s c locks k h e b =
    lock_for-Ensures (Among c k h e) s.locked s looks λ free. record {
      enough = b.enough;
      exclusive = omega (arith, b.exclusive, ap bit free);
      never_empty = b.never_empty;
    }
worker_step-Balanced false s c locks k h e b = record {
  enough = omega (arith, b.enough);
  exclusive = b.exclusive;
  never_empty = b.never_empty;
}
worker_step-Balanced good s c looks k h e b =
    look-both (Among c k h e) s.queue s (λ empty. absurd (omega (arith, b.enough, ap length empty)))
      (λ x xs full. record {
        enough = omega (arith, b.enough, ap length full);
        exclusive = b.exclusive;
        never_empty = b.never_empty;
      })
worker_step-Balanced good s c gives_way k h e b = absurd (omega (arith, b.never_empty))
worker_step-Balanced true s c (unlocks x) k h e b = record {
  enough = b.enough;
  exclusive = omega (arith, b.exclusive, bit_le s.locked);
  never_empty = b.never_empty;
}
worker_step-Balanced false s c (unlocks x) k h e b = record {
  enough = b.enough;
  exclusive = omega (arith, b.exclusive);
  never_empty = b.never_empty;
}
worker_step-Balanced good s c (handles none) k h e b = record {
  enough = b.enough;
  exclusive = b.exclusive;
  never_empty = b.never_empty;
}
worker_step-Balanced good s c (handles (some x)) k h e b = record {
  enough = b.enough;
  exclusive = b.exclusive;
  never_empty = b.never_empty;
}
worker_step-Balanced good s c (stopped x) k h e b = tt

new_pool-Inv : (n : ℕ) → Inv (new_pool n)
new_pool-Inv n = record {
  enough = omega (arith, tally-waiting claims refl n);
  exclusive = omega (arith, tally-waiting holds refl n);
  never_empty = tally-waiting found_none refl n;
}

work-Inv :
    (good : Bool) (s s' : Shared) (c : Caller) (before after : List Worker) (w w' : Worker)
    → worker_step good s w ≡ some (s', w')
    → Inv (record { shared = s; caller = c; workers = before ++ w ∷ after })
    → Inv (record { shared = s'; caller = c; workers = before ++ w' ∷ after })
work-Inv good s s' c before after w w' h b =
    rw
      (
        tally-at claims before after w',
        tally-at holds before after w',
        tally-at found_none before after w',
      )
      (Ensures-some _ (worker_step good s w) h (
        worker_step-Balanced good s c w (tally claims before + tally claims after)
          (tally holds before + tally holds after)
          (tally found_none before + tally found_none after)
          (record {
            enough = omega (arith, b.enough, tally-at claims before after w);
            exclusive = omega (arith, b.exclusive, tally-at holds before after w);
            never_empty = omega (arith, b.never_empty, tally-at found_none before after w);
          })))

Step-Inv : {good : Bool} {p q : Pool} → Step good p q → Inv p → Inv q
Step-Inv (call e) b = record {
  enough = b.enough;
  exclusive = b.exclusive;
  never_empty = b.never_empty;
}
Step-Inv (append {good} {s} {s'} {c} {c'} h) b =
    Ensures-some _ (append_step good s c) h (append_step-Balanced good s c _ _ _ b)
Step-Inv (work {good} {s} {s'} {c} before after w w' h) b =
    work-Inv good s s' c before after w w' h b

pub Reach-Inv : {may_fail : Bool} {n : ℕ} {p : Pool} → Reach may_fail n p → Inv p
Reach-Inv {n = n} begin = new_pool-Inv n
Reach-Inv (then_step r ok st) = Step-Inv st (Reach-Inv r)
