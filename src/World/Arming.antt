-- ===== src/World/Arming.antt =====
-- The order of a handler's effects on its descriptor: it touches the registration last.
use cherokee.Base.{ℕ, ◌+◌, ◌^◌, List, [], ◌∷◌, ◌++◌, ◌≡◌, refl}
use cherokee.Base.Int.{pos}
use cherokee.World.{
  Effect, add_wait, modify_wait, delete_wait, set_non_blocking, shut_down, close_fd, append_file,
  write_file, open_file, remove_file, sent,
}

-- Neither the registration of a descriptor changes nor is one closed.
abbrev pub IsQuiet : Effect → Type 0
IsQuiet (add_wait fd events) = ⊥
IsQuiet (modify_wait fd events) = ⊥
IsQuiet (delete_wait fd) = ⊥
IsQuiet (set_non_blocking fd) = Unit
IsQuiet (shut_down fd) = ⊥
IsQuiet (close_fd fd) = ⊥
IsQuiet (append_file path bytes) = Unit
IsQuiet (write_file path bytes) = Unit
IsQuiet (open_file path) = Unit
IsQuiet (remove_file path) = Unit
IsQuiet (sent bytes) = Unit

abbrev pub AllQuiet : List Effect → Type 0
AllQuiet [] = Unit
AllQuiet (e ∷ es) = IsQuiet e × AllQuiet es

pub AllQuiet-append : (xs ys : List Effect) → AllQuiet xs → AllQuiet ys → AllQuiet (xs ++ ys)
AllQuiet-append [] ys p q = q
AllQuiet-append (x ∷ xs) ys p q = (p.0, AllQuiet-append xs ys p.1 q)

-- What a handler waits for: 2 ^ 30 is EPOLLONESHOT, 2 ^ 31 EPOLLET, 1 EPOLLIN and 4 EPOLLOUT.
abbrev pub for_reading : ℕ
for_reading = 2 ^ 31 + 2 ^ 30 + 1

abbrev pub for_writing : ℕ
for_writing = 2 ^ 31 + 2 ^ 30 + 4 + 1

-- The last effect registers `fd` for these events, and none before it changes a registration or closes
-- a descriptor.
abbrev pub Rearms : ℕ → ℕ → List Effect → Type 0
Rearms fd events es =
    (before : List Effect) × (es ≡ before ++ modify_wait fd events ∷ []) × AllQuiet before

-- An effect that may come with `es` still to follow: the registration of `fd` is changed, or `fd`
-- closed, only at the end.
abbrev pub MayCome : ℕ → Effect → List Effect → Type 0
MayCome fd (add_wait g events) es = (g ≡ fd) × (es ≡ [])
MayCome fd (modify_wait g events) es = (g ≡ fd) × (es ≡ [])
MayCome fd (delete_wait g) es = g ≡ fd
MayCome fd (set_non_blocking g) es = Unit
MayCome fd (shut_down g) es = g ≡ fd
MayCome fd (close_fd z) es = (z ≡ pos fd) × (es ≡ [])
MayCome fd (append_file path bytes) es = Unit
MayCome fd (write_file path bytes) es = Unit
MayCome fd (open_file path) es = Unit
MayCome fd (remove_file path) es = Unit
MayCome fd (sent bytes) es = Unit

-- What is left to do of a call for `fd`.
abbrev pub ArmsLast : ℕ → List Effect → Type 0
ArmsLast fd [] = Unit
ArmsLast fd (e ∷ es) = MayCome fd e es × ArmsLast fd es

quiet-MayCome : (fd : ℕ) (e : Effect) (es : List Effect) → IsQuiet e → MayCome fd e es
quiet-MayCome fd (add_wait g events) es h = absurd h
quiet-MayCome fd (modify_wait g events) es h = absurd h
quiet-MayCome fd (delete_wait g) es h = absurd h
quiet-MayCome fd (set_non_blocking g) es h = tt
quiet-MayCome fd (shut_down g) es h = absurd h
quiet-MayCome fd (close_fd z) es h = absurd h
quiet-MayCome fd (append_file path bytes) es h = tt
quiet-MayCome fd (write_file path bytes) es h = tt
quiet-MayCome fd (open_file path) es h = tt
quiet-MayCome fd (remove_file path) es h = tt
quiet-MayCome fd (sent bytes) es h = tt

pub quiet-ArmsLast :
    (fd : ℕ) (xs ys : List Effect) → AllQuiet xs → ArmsLast fd ys → ArmsLast fd (xs ++ ys)
quiet-ArmsLast fd [] ys p q = q
quiet-ArmsLast fd (x ∷ xs) ys p q =
    (quiet-MayCome fd x (xs ++ ys) p.0, quiet-ArmsLast fd xs ys p.1 q)

pub modifies : (fd events : ℕ) → ArmsLast fd (modify_wait fd events ∷ [])
modifies fd events = ((refl, refl), tt)

-- A turn ends with the registration or with the descriptor closed.
abbrev pub IsLast : Effect → Type 0
IsLast (add_wait fd events) = Unit
IsLast (modify_wait fd events) = Unit
IsLast (close_fd fd) = Unit
IsLast (delete_wait fd) = ⊥
IsLast (set_non_blocking fd) = ⊥
IsLast (shut_down fd) = ⊥
IsLast (append_file path bytes) = ⊥
IsLast (write_file path bytes) = ⊥
IsLast (open_file path) = ⊥
IsLast (remove_file path) = ⊥
IsLast (sent bytes) = ⊥

abbrev pub EndsTurn : List Effect → Type 0
EndsTurn [] = ⊥
EndsTurn (e ∷ []) = IsLast e
EndsTurn (e ∷ f ∷ es) = EndsTurn (f ∷ es)

pub EndsTurn-append : (xs ys : List Effect) → EndsTurn ys → EndsTurn (xs ++ ys)
EndsTurn-append [] ys h = h
EndsTurn-append (x ∷ []) [] h = absurd h
EndsTurn-append (x ∷ []) (y ∷ ys) h = h
EndsTurn-append (x ∷ z ∷ xs) ys h = EndsTurn-append (z ∷ xs) ys h
