-- ===== src/ThreadPool/Refines.antt =====
-- The threads of a pool, however they interleave, do what `Jobs` promises.
use mathlib.Core.List.{perm_middle}
use mathlib.Core.Quot
use mathlib.Core.Quot.{Quot}
use cherokee.Base.{
  ℕ, zero, suc, ◌≡◌, refl, sym, subst, ap, ◌∙◌, Bool, true, false, List, [], ◌∷◌, ◌++◌, none, some,
  append_assoc,
}
use cherokee.ThreadPool.{
  Event, Caller, returned, to_lock, to_push, to_unlock, to_post, Worker, waits, locks, looks,
  gives_way, unlocks, handles, stopped, Shared, append_step, worker_step, Pool, waiting, Step, call,
  append, work, Reach, begin, then_step,
}
use cherokee.ThreadPool.Invariant.{
  Ensures, Ensures-some, lock_for-Ensures, sem_wait-Ensures, look-both,
}
use cherokee.ThreadPool.Jobs.{
  Bag, bag, insert, Jobs, no_jobs, JobStep, idle, submit, start, finish, discard, JobReach,
  job_begin, job_step,
}

-- The event that a worker has taken off the queue.
abbrev pub hand : Worker → List Event
hand (unlocks e) = e ∷ []
hand (handles e) = e ∷ []
hand (stopped (some x)) = some x ∷ []
hand _ = []

abbrev pub hands : List Worker → List Event
hands [] = []
hands (w ∷ ws) = hand w ++ hands ws

-- The jobs that this state stands for.
pub record Shows (s : Shared) (running : Bag) (j : Jobs) : Type 0 where
  pub submits : s.pushed ≡ j.submitted
  pub waits_in : j.submitted ≡ j.started ++ s.queue
  pub runs : running ≡ j.running
  pub finishes : s.processed ≡ j.finished

-- A step of the jobs leads to some that this state stands for.
abbrev Follows : Jobs → Bag → Shared → Type 0
Follows j b s = (j' : Jobs) × JobStep j j' × Shows s b j'

-- A state that differs in the mutex and the semaphore only.
stay :
    (s s' : Shared) (b : Bag) (j : Jobs)
    → s'.pushed ≡ s.pushed
    → s'.queue ≡ s.queue
    → s'.processed ≡ s.processed
    → Shows s b j
    → Follows j b s'
stay s s' b j p q d h = (
  j,
  idle,
  record {
    submits = p ∙ h.submits;
    waits_in = h.waits_in ∙ ap (λ l. j.started ++ l) (sym q);
    runs = h.runs;
    finishes = d ∙ h.finishes;
  },
)

append_step-Follows :
    (good : Bool) (s : Shared) (c : Caller) (b : Bag) (j : Jobs)
    → Shows s b j
    → Ensures (λ (s', c'). Follows j b s') (append_step good s c)
unfolding append_step
append_step-Follows good s (returned r) b j h = tt
append_step-Follows true s (to_lock x) b j h =
    lock_for-Ensures (λ (s', c'). Follows j b s') s.locked s (to_push x)
      λ free. stay s _ b j refl refl refl h
append_step-Follows false s (to_lock x) b j h = (j, idle, h)
append_step-Follows good s (to_push x) b j h = (
  record j { submitted = j.submitted ++ x ∷ [] },
  submit x,
  record {
    submits = ap (λ l. l ++ x ∷ []) h.submits;
    waits_in = ap (λ l. l ++ x ∷ []) h.waits_in ∙ append_assoc j.started s.queue (x ∷ []);
    runs = h.runs;
    finishes = h.finishes;
  },
)
append_step-Follows true s to_unlock b j h = stay s _ b j refl refl refl h
append_step-Follows false s to_unlock b j h = (j, idle, h)
append_step-Follows true s to_post b j h = stay s _ b j refl refl refl h
append_step-Follows false s to_post b j h = (j, idle, h)

-- With `others` in the hands of the other workers.
abbrev Among : Jobs → List Event → Shared × Worker → Type 0
Among j others (s, w) = Follows j (bag (hand w ++ others)) s

-- The worker drops what it has in hand.
drops :
    (s : Shared) (others : List Event) (j : Jobs)
    → Shows s (bag (none ∷ others)) j
    → Follows j (bag others) s
drops s others j h = (
  record j { running = bag others },
  discard (bag others) (sym h.runs),
  record { submits = h.submits; waits_in = h.waits_in; runs = refl; finishes = h.finishes },
)

takes :
    (s : Shared) (x : Event) (xs others : List Event) (j : Jobs)
    → s.queue ≡ x ∷ xs
    → Shows s (bag others) j
    → Among j others (record s { queue = xs }, unlocks x)
takes s x xs others j full h =
    let splits = h.waits_in ∙ ap (λ l. j.started ++ l) full in
    (
      record j { started = j.started ++ x ∷ []; running = insert x j.running },
      start x xs splits,
      record {
        submits = h.submits;
        waits_in = splits ∙ sym (append_assoc j.started (x ∷ []) xs);
        runs = ap (insert x) h.runs;
        finishes = h.finishes;
      },
    )

finishes_job :
    (s : Shared) (x : ℕ) (others : List Event) (j : Jobs)
    → Shows s (bag (some x ∷ others)) j
    → Follows j (bag others) (record s { processed = s.processed ++ some x ∷ [] })
finishes_job s x others j h = (
  record j { running = bag others; finished = j.finished ++ some x ∷ [] },
  finish x (bag others) (sym h.runs),
  record {
    submits = h.submits;
    waits_in = h.waits_in;
    runs = refl;
    finishes = ap (λ l. l ++ some x ∷ []) h.finishes;
  },
)

worker_step-Follows :
    (good : Bool) (s : Shared) (w : Worker) (others : List Event) (j : Jobs)
    → Shows s (bag (hand w ++ others)) j
    → Ensures (Among j others) (worker_step good s w)
unfolding worker_step
worker_step-Follows true s waits others j h =
    sem_wait-Ensures (Among j others) s.sem s λ m more. stay s _ _ j refl refl refl h
worker_step-Follows false s waits others j h = (j, idle, h)
worker_step-Follows true s locks others j h =
    lock_for-Ensures (Among j others) s.locked s looks λ free. stay s _ _ j refl refl refl h
worker_step-Follows false s locks others j h = (j, idle, h)
worker_step-Follows good s looks others j h =
    look-both (Among j others) s.queue s (λ empty. (j, idle, h))
      λ x xs full. takes s x xs others j full h
worker_step-Follows true s gives_way others j h = stay s _ _ j refl refl refl h
worker_step-Follows false s gives_way others j h = (j, idle, h)
worker_step-Follows true s (unlocks x) others j h = stay s _ _ j refl refl refl h
worker_step-Follows false s (unlocks none) others j h = drops s others j h
worker_step-Follows false s (unlocks (some x)) others j h = (j, idle, h)
worker_step-Follows good s (handles none) others j h = drops s others j h
worker_step-Follows good s (handles (some x)) others j h = finishes_job s x others j h
worker_step-Follows good s (stopped x) others j h = tt

hands-append : (xs ys : List Worker) → hands (xs ++ ys) ≡ hands xs ++ hands ys
hands-append [] ys = refl
hands-append (x ∷ xs) ys =
    ap (λ l. hand x ++ l) (hands-append xs ys) ∙ sym (append_assoc (hand x) (hands xs) (hands ys))

-- What one worker has in hand, put first.
to_front :
    (xs zs : List Event) (w : Worker) → bag (xs ++ (hand w ++ zs)) ≡ bag (hand w ++ (xs ++ zs))
to_front xs zs (unlocks e) = Quot.sound (perm_middle xs zs)
to_front xs zs (handles e) = Quot.sound (perm_middle xs zs)
to_front xs zs (stopped (some x)) = Quot.sound (perm_middle xs zs)
to_front xs zs (stopped none) = refl
to_front xs zs waits = refl
to_front xs zs locks = refl
to_front xs zs looks = refl
to_front xs zs gives_way = refl

bag-at :
    (before after : List Worker) (w : Worker)
    → bag (hands (before ++ w ∷ after)) ≡ bag (hand w ++ (hands before ++ hands after))
bag-at before after w =
    ap bag (hands-append before (w ∷ after)) ∙ to_front (hands before) (hands after) w

-- The jobs that this pool stands for.
abbrev pub IsShownBy : Pool → Jobs → Type 0
IsShownBy p j = Shows p.shared (bag (hands p.workers)) j

work-Follows :
    (good : Bool) (s s' : Shared) (before after : List Worker) (w w' : Worker) (j : Jobs)
    → worker_step good s w ≡ some (s', w')
    → Shows s (bag (hands (before ++ w ∷ after))) j
    → Follows j (bag (hands (before ++ w' ∷ after))) s'
work-Follows good s s' before after w w' j e h =
    let others = hands before ++ hands after in
    let h' : Shows s (bag (hand w ++ others)) j =
      subst (λ b. Shows s b j) (bag-at before after w) h in
    let next : Among j others (s', w') =
      Ensures-some (Among j others) (worker_step good s w) e
        (worker_step-Follows good s w others j h') in
    subst (λ b. Follows j b s') (sym (bag-at before after w')) next

-- Each step of the pool is a step of the jobs, or none.
pub Step-Follows :
    {good : Bool} {p q : Pool} (j : Jobs)
    → Step good p q
    → IsShownBy p j
    → (j' : Jobs) × JobStep j j' × IsShownBy q j'
Step-Follows j (call x) h = (j, idle, h)
Step-Follows j (append {good} {s} {s'} {c} {c'} e) h =
    Ensures-some _ (append_step good s c) e (append_step-Follows good s c _ j h)
Step-Follows j (work {good} {s} {s'} {c} before after w w' e) h =
    work-Follows good s s' before after w w' j e h

hands-waiting : (n : ℕ) → hands (waiting n) ≡ []
hands-waiting zero = refl
hands-waiting (suc n) = hands-waiting n

-- Every pool that is reached, however its threads interleave and whichever calls have failed, stands
-- for jobs that are reached when jobs are submitted, begun in the order of submission, and finished,
-- one at a time: the events pushed are the jobs submitted, those in the queue the ones not begun, those
-- in the hands of the workers, in no order, the running ones, and those processed the finished ones.
pub Reach-IsShownBy :
    {may_fail : Bool} {n : ℕ} {p : Pool}
    → Reach may_fail n p
    → (j : Jobs) × JobReach j × IsShownBy p j
Reach-IsShownBy {n = n} begin = (
  no_jobs,
  job_begin,
  record { submits = refl; waits_in = refl; runs = ap bag (hands-waiting n); finishes = refl },
)
Reach-IsShownBy (then_step r ok st) =
    let (j, jr, h) = Reach-IsShownBy r in
    let (j', js, h') = Step-Follows j st h in (j', job_step jr js, h')
