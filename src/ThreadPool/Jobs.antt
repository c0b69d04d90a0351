-- ===== src/ThreadPool/Jobs.antt =====
-- What a pool of threads promises, with no threads, mutex or semaphore: jobs that are submitted, begun
-- in the order of submission, and finished.
use mathlib.Core.List.{Perm}
use mathlib.Core.List.Perm
use mathlib.Core.Quot
use mathlib.Core.Quot.{Quot, Quot-set}
use cherokee.Base.{ℕ, List, [], ◌∷◌, ◌++◌, none, some, ◌≡◌}
use cherokee.ThreadPool.{Event}

-- The jobs that run, in no order.
abbrev pub Bag : Type 0
Bag = Quot (Perm {A = Event})

abbrev pub bag : List Event → Bag
bag xs = Quot.mk xs

abbrev pub insert : Event → Bag → Bag
insert x = Quot.lift Quot-set (λ xs. bag (x ∷ xs)) (λ xs ys h. Quot.sound (Perm.cons x h))

pub record Jobs : Type 0 where
  pub submitted : List Event
  pub started : List Event
  pub running : Bag
  pub finished : List Event

abbrev pub no_jobs : Jobs
no_jobs = record { submitted = []; started = []; running = bag []; finished = [] }

-- A null pointer is dropped.
pub data JobStep : Jobs → Jobs → Type 0 where
  idle : {j : Jobs} → JobStep j j
  submit : {j : Jobs} (e : Event) → JobStep j (record j { submitted = j.submitted ++ e ∷ [] })
  start :
      {j : Jobs} (e : Event) (rest : List Event)
      → j.submitted ≡ j.started ++ e ∷ rest
      → JobStep j (record j { started = j.started ++ e ∷ []; running = insert e j.running })
  finish :
      {j : Jobs} (x : ℕ) (others : Bag)
      → j.running ≡ insert (some x) others
      → JobStep j (record j { running = others; finished = j.finished ++ some x ∷ [] })
  discard :
      {j : Jobs} (others : Bag)
      → j.running ≡ insert none others
      → JobStep j (record j { running = others })

pub data JobReach : Jobs → Type 0 where
  job_begin : JobReach no_jobs
  job_step : {j j' : Jobs} → JobReach j → JobStep j j' → JobReach j'
