-- ===== src/ThreadPool/Exact.antt =====
-- What every step of a pool keeps while no call fails.
use cherokee.Base.{
  ℕ, ◌+◌, ◌≡◌, refl, sym, ap, ◌∙◌, Bool, true, false, List, [], ◌∷◌, ◌++◌, none, some, length,
  length-append, arith,
}
use cherokee.ThreadPool.{
  Caller, returned, to_lock, to_push, to_unlock, to_post, Worker, waits, locks, looks, gives_way,
  unlocks, handles, stopped, Shared, append_step, worker_step, Pool, Step, call, append, work,
  Reach, begin, then_step,
}
use cherokee.ThreadPool.Invariant.{
  Ensures, Ensures-some, lock_for-Ensures, sem_wait-Ensures, look-both, bit, bit_le, caller_holds,
  holds, owes, claims, found_none, Inv, Reach-Inv,
}
use cherokee.ThreadPool.Tally.{tally, tally-at, tally-waiting}

-- A worker that has returned, although `run` loops for ever.
abbrev pub ended : Worker → ℕ
ended (stopped x) = 1
ended _ = 0

-- On the sums over the workers: the semaphore and the workers that have passed it account for the
-- whole queue, and the mutex is locked only while a thread holds it.
pub record Exact (s : Shared) (c : Caller) (claimed finished holding : ℕ) : Type 0 where
  pub queued : s.sem + claimed + owes c ≡ length s.queue
  pub none_ended : finished ≡ 0
  pub held : bit s.locked ≡ caller_holds c + holding

append_step-Exact :
    (s : Shared) (c : Caller) (k e h : ℕ)
    → Exact s c k e h
    → Ensures (λ (s', c'). Exact s' c' k e h) (append_step true s c)
unfolding append_step
append_step-Exact s (returned r) k e h x = tt
append_step-Exact s (to_lock v) k e h x =
    lock_for-Ensures (λ (s', c'). Exact s' c' k e h) s.locked s (to_push v)
      λ free. record {
        queued = x.queued;
        none_ended = x.none_ended;
        held = omega (arith, x.held, ap bit free);
      }
append_step-Exact s (to_push v) k e h x = record {
  queued = omega (arith, x.queued, length-append s.queue (v ∷ []));
  none_ended = x.none_ended;
  held = x.held;
}
append_step-Exact s to_unlock k e h x = record {
  queued = x.queued;
  none_ended = x.none_ended;
  held = omega (arith, x.held, bit_le s.locked);
}
append_step-Exact s to_post k e h x = record {
  queued = omega (arith, x.queued);
  none_ended = x.none_ended;
  held = x.held;
}

-- `k`, `e` and `h` are the sums over the other workers.
abbrev Among : Caller → ℕ → ℕ → ℕ → Shared × Worker → Type 0
Among c k e h (s, w) = Exact s c (k + claims w) (e + ended w) (h + holds w)

worker_step-Exact :
    (s : Shared) (c : Caller) (w : Worker) (k e h : ℕ)
    → found_none w ≡ 0
    → Among c k e h (s, w)
    → Ensures (Among c k e h) (worker_step true s w)
unfolding worker_step
worker_step-Exact s c waits k e h f x = sem_wait-Ensures (Among c k e h) s.sem s λ m more. record {
  queued = omega (arith, x.queued, more);
  none_ended = x.none_ended;
  held = x.held;
}
worker_step-Exact s c locks k e h f x = lock_for-Ensures (Among c k e h) s.locked s looks λ free.
    record {
      queued = x.queued;
      none_ended = x.none_ended;
      held = omega (arith, x.held, ap bit free);
    }
worker_step-Exact s c looks k e h f x =
    look-both (Among c k e h) s.queue s (λ empty. absurd (omega (arith, x.queued, ap length empty)))
      λ v vs full. record {
        queued = omega (arith, x.queued, ap length full);
        none_ended = x.none_ended;
        held = x.held;
      }
worker_step-Exact s c gives_way k e h f x = absurd (omega (arith, f))
worker_step-Exact s c (unlocks v) k e h f x = record {
  queued = x.queued;
  none_ended = x.none_ended;
  held = omega (arith, x.held, bit_le s.locked);
}
worker_step-Exact s c (handles none) k e h f x = record {
  queued = x.queued;
  none_ended = x.none_ended;
  held = x.held;
}
worker_step-Exact s c (handles (some v)) k e h f x = record {
  queued = x.queued;
  none_ended = x.none_ended;
  held = x.held;
}
worker_step-Exact s c (stopped v) k e h f x = tt

abbrev pub ExactIn : Pool → Type 0
ExactIn p =
    Exact p.shared p.caller (tally claims p.workers) (tally ended p.workers) (tally holds p.workers)

work-ExactIn :
    (s s' : Shared) (c : Caller) (before after : List Worker) (w w' : Worker)
    → worker_step true s w ≡ some (s', w')
    → tally found_none (before ++ w ∷ after) ≡ 0
    → ExactIn (record { shared = s; caller = c; workers = before ++ w ∷ after })
    → ExactIn (record { shared = s'; caller = c; workers = before ++ w' ∷ after })
work-ExactIn s s' c before after w w' run f x =
    let k = tally claims before + tally claims after in
    let e = tally ended before + tally ended after in
    let h = tally holds before + tally holds after in
    let moved : Among c k e h (s', w') = Ensures-some (Among c k e h) (worker_step true s w) run (
      worker_step-Exact s c w k e h (omega (arith, f, tally-at found_none before after w)) (record {
        queued = omega (arith, x.queued, tally-at claims before after w);
        none_ended = omega (arith, x.none_ended, tally-at ended before after w);
        held = omega (arith, x.held, tally-at holds before after w);
      })) in
    record {
      queued = omega (arith, moved.queued, tally-at claims before after w');
      none_ended = omega (arith, moved.none_ended, tally-at ended before after w');
      held = omega (arith, moved.held, tally-at holds before after w');
    }

Step-ExactIn :
    {good : Bool} {p q : Pool} → Step good p q → good ≡ true → Inv p → ExactIn p → ExactIn q
Step-ExactIn (call v) g b x = record { queued = x.queued; none_ended = x.none_ended; held = x.held }
Step-ExactIn (append {good} {s} {s'} {c} {c'} h) g b x =
    Ensures-some _ (append_step true s c) (ap (λ o. append_step o s c) (sym g) ∙ h)
      (append_step-Exact s c _ _ _ x)
Step-ExactIn (work {good} {s} {s'} {c} before after w w' h) g b x =
    work-ExactIn s s' c before after w w' (ap (λ o. worker_step o s w) (sym g) ∙ h) b.never_empty x

pub Reach-ExactIn : {n : ℕ} {p : Pool} → Reach false n p → ExactIn p
Reach-ExactIn {n} begin = record {
  queued = omega (arith, tally-waiting claims refl n);
  none_ended = tally-waiting ended refl n;
  held = omega (arith, tally-waiting holds refl n);
}
Reach-ExactIn (then_step r ok st) = Step-ExactIn st (ok refl) (Reach-Inv r) (Reach-ExactIn r)
