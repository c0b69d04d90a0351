-- ===== src/ThreadPool/Tally.antt =====
-- Sums over the workers of a pool.
use cherokee.Base.{ℕ, zero, suc, ◌+◌, ◌≡◌, refl, List, [], ◌∷◌, ◌++◌, arith}
use cherokee.ThreadPool.{Worker, waits, waiting}

abbrev pub tally : (Worker → ℕ) → List Worker → ℕ
tally f [] = 0
tally f (w ∷ ws) = f w + tally f ws

tally-append : (f : Worker → ℕ) (xs ys : List Worker) → tally f (xs ++ ys) ≡ tally f xs + tally f ys
tally-append f [] ys = omega arith
tally-append f (x ∷ xs) ys = omega (arith, tally-append f xs ys)

-- The one worker that moves, and the others.
pub tally-at :
    (f : Worker → ℕ) (before after : List Worker) (w : Worker)
    → tally f (before ++ w ∷ after) ≡ (tally f before + tally f after) + f w
tally-at f before after w = omega (arith, tally-append f before (w ∷ after))

pub tally-waiting : (f : Worker → ℕ) → f waits ≡ 0 → (n : ℕ) → tally f (waiting n) ≡ 0
tally-waiting f h zero = refl
tally-waiting f h (suc n) = omega (arith, tally-waiting f h n)
