-- ===== src/WebServer/Calls.antt =====
-- Set-up steps that make system calls and throw at the first that fails.
use cherokee.Base.{ℕ, List, [], ◌∷◌, ◌++◌, Option, none, some}
use cherokee.Base.Int.{ℤ}

pub data SetupCall : Type 0 where
  get_flags : ℤ → SetupCall  -- fcntl, F_GETFL
  set_flags : ℤ → ℕ → SetupCall  -- fcntl, F_SETFL
  make_epoll : SetupCall  -- epoll_create
  epoll_add : ℤ → ℤ → ℕ → SetupCall  -- epoll_ctl, EPOLL_CTL_ADD: epoll, descriptor, mask
  make_pair : SetupCall  -- socketpair
  set_handler : ℕ → SetupCall  -- sigaction

-- What each call returns, `none` for -1.
abbrev pub Answers : Type 0
Answers = SetupCall → Option ℕ

-- The calls that are made, and the value, `none` where an exception is thrown.
abbrev pub Setup {ℓ} : Type ℓ → Type ℓ
Setup A = Answers → List SetupCall × Option A

abbrev pub ask : SetupCall → Setup ℕ
ask c a = (c ∷ [], a c)

abbrev pub return {ℓ} : {A : Type ℓ} → A → Setup A
return x a = ([], some x)

abbrev and_then :
    {A B : Type 0} → (A → Setup B) → Answers → List SetupCall × Option A → List SetupCall × Option B
and_then f a (cs, none) = (cs, none)
and_then f a (cs, some x) = let (ds, r) = f x a in (cs ++ ds, r)

infixl 5 ◌>>=◌
abbrev pub ◌>>=◌ : {A B : Type 0} → Setup A → (A → Setup B) → Setup B
(m >>= f) a = and_then f a (m a)
