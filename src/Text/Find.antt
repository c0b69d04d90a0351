-- ===== src/Text/Find.antt =====
-- Where a text is found: what `find` promises, and how it sees a text that grows at its end.
use cherokee.Base.{
  ℕ, zero, suc, ◌+◌, ◌≤◌, ◌<◌, true, false, [], ◌∷◌, ◌++◌, Option, none, some, ◌≡◌, refl, sym, ap,
  ◌∙◌, inl, inr, arith, ◌==◌, Bool-cases, Option-cases, length, take, drop,
}
use cherokee.Text.{Bytes, starts_with, shift, find, find_byte}

pub shift-shift : (m n : ℕ) (o : Option ℕ) → shift m (shift n o) ≡ shift (m + n) o
shift-shift m n none = refl
shift-shift m n (some i) = ap some (omega arith)

-- A text that is long enough begins alike when more is put behind it.
pub starts_with-append :
    (pat s t : Bytes) → length pat ≤ length s → starts_with pat (s ++ t) ≡ starts_with pat s
unfolding starts_with
starts_with-append [] s t h = refl
starts_with-append (p ∷ ps) [] t h = absurd (omega arith)
starts_with-append (p ∷ ps) (c ∷ s) t h = rw (starts_with-append ps s t (omega arith))

length-le_of_starts_with : (pat s : Bytes) → starts_with pat s ≡ true → length pat ≤ length s
unfolding starts_with
length-le_of_starts_with [] s h = omega arith
length-le_of_starts_with (p ∷ ps) [] h = cc
length-le_of_starts_with (p ∷ ps) (c ∷ s) h = ground (arith, length-le_of_starts_with ps s)

pub starts_with-take : (pat s : Bytes) → starts_with pat s ≡ true → take (length pat) s ≡ pat
unfolding starts_with
starts_with-take [] s h = refl
starts_with-take (p ∷ ps) [] h = cc
starts_with-take (p ∷ ps) (c ∷ s) h = ground (arith, starts_with-take ps s)

-- What is found lies inside the text, and is the text looked for.
pub find-bounds : (pat s : Bytes) (i : ℕ) → find pat s ≡ some i → i + length pat ≤ length s
unfolding find
find-bounds pat [] i h = ground (arith, length-le_of_starts_with pat [])
find-bounds pat (c ∷ s) i h = elim (Bool-cases (starts_with pat (c ∷ s))) [
  | inl e ↦ ground (arith, length-le_of_starts_with pat (c ∷ s) e)
  | inr e ↦ elim (Option-cases (find pat s)) [
    | inl n ↦ ground arith
    | inr (j, q) ↦ ground (arith, find-bounds pat s j q)
  ]
]

pub find-append : (pat s t : Bytes) (i : ℕ) → find pat s ≡ some i → find pat (s ++ t) ≡ some i
unfolding find
find-append [] [] [] i h = h
find-append [] [] (c ∷ t) i h = h
find-append (p ∷ ps) [] t i h = cc
find-append pat (c ∷ s) t i h = elim (Bool-cases (starts_with pat (c ∷ s))) [
  | inl e ↦
      rw (starts_with-append pat (c ∷ s) t (length-le_of_starts_with pat (c ∷ s) e), e) (rw e at h)
  | inr e ↦ elim (Option-cases (find pat s)) [
    | inl n ↦ ground arith
    | inr (j, q) ↦
        let fits = find-bounds pat s j q in
        rw (starts_with-append pat (c ∷ s) t (omega arith), e, find-append pat s t j q)
          (ground arith)
  ]
]

pub shift-zero : (o : Option ℕ) → shift 0 o ≡ o
shift-zero none = refl
shift-zero (some i) = ap some (omega arith)

find-cons_ne :
    (p c : ℕ) (ps s : Bytes) → (c == p) ≡ false → find (p ∷ ps) (c ∷ s) ≡ shift 1 (find (p ∷ ps) s)
unfolding find
find-cons_ne p c ps s e = ground arith

pub find_byte-bounds : (p k : ℕ) (s : Bytes) → find_byte p s ≡ some k → k < length s
unfolding find_byte
find_byte-bounds p k [] h = cc
find_byte-bounds p k (c ∷ s) h = elim (Option-cases (find_byte p s)) [
  | inl n ↦ ground arith
  | inr (j, q) ↦ ground (arith, find_byte-bounds p j s q)
]

-- Before the first byte of the text looked for, nothing is found.
pub find-find_byte :
    (p k : ℕ) (ps s t : Bytes)
    → find_byte p s ≡ some k
    → find (p ∷ ps) (s ++ t) ≡ shift k (find (p ∷ ps) (drop k s ++ t))
unfolding find_byte
find-find_byte p k ps [] t h = cc
find-find_byte p zero ps (c ∷ s) t h = sym (shift-zero (find (p ∷ ps) (c ∷ (s ++ t))))
find-find_byte p (suc k) ps (c ∷ s) t h =
    let later : find_byte p s ≡ some k = ground arith in
    let other : (c == p) ≡ false = ground arith in
    find-cons_ne p c ps (s ++ t) other
    ∙ ap (shift 1) (find-find_byte p k ps s t later)
    ∙ shift-shift 1 k (find (p ∷ ps) (drop k s ++ t))
    ∙ ap (λ n. shift n (find (p ∷ ps) (drop k s ++ t)))
        (let one : 1 + k ≡ suc k = omega arith in one)

pub find-find_byte-none :
    (p : ℕ) (ps s t : Bytes)
    → find_byte p s ≡ none
    → find (p ∷ ps) (s ++ t) ≡ shift (length s) (find (p ∷ ps) t)
unfolding find_byte
find-find_byte-none p ps [] t h = sym (shift-zero (find (p ∷ ps) t))
find-find_byte-none p ps (c ∷ s) t h =
    let later : find_byte p s ≡ none = ground arith in
    let other : (c == p) ≡ false = ground arith in
    let one : 1 + length s ≡ suc (length s) = omega arith in
    find-cons_ne p c ps (s ++ t) other
    ∙ ap (shift 1) (find-find_byte-none p ps s t later)
    ∙ shift-shift 1 (length s) (find (p ∷ ps) t)
    ∙ ap (λ n. shift n (find (p ∷ ps) t)) one

pub find-cons_of_not :
    (pat s : Bytes) (c : ℕ)
    → starts_with pat (c ∷ s) ≡ false
    → find pat (c ∷ s) ≡ shift 1 (find pat s)
unfolding find
find-cons_of_not pat s c e = rw e

starts_with_of_take : (pat s : Bytes) → take (length pat) s ≡ pat → starts_with pat s ≡ true
unfolding starts_with
starts_with_of_take [] s e = refl
starts_with_of_take (p ∷ ps) [] e = cc
starts_with_of_take (p ∷ ps) (c ∷ s) e = ground (arith, starts_with_of_take ps s)

pub find_of_take : (pat s : Bytes) → take (length pat) s ≡ pat → find pat s ≡ some 0
unfolding find
find_of_take pat [] e = rw (starts_with_of_take pat [] e)
find_of_take pat (c ∷ s) e = rw (starts_with_of_take pat (c ∷ s) e)
