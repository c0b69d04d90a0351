-- ===== src/Recv/SaveRound.antt =====
-- One round of the loop that saves the contents of a file: what the bytes that it writes cannot hide.
use mathlib.Core.Bool.{false≢true}
use cherokee.Base.{
  ℕ, suc, ◌+◌, ◌-◌, ◌≤◌, ◌<◌, true, false, [], ◌∷◌, ◌++◌, Option, none, some, ◌≡◌, refl, sym, ap,
  ◌∙◌, inl, inr, ◌⊎◌, arith, length, take, drop, Bool-cases, Option-cases, length-append,
  length-drop, drop-drop, drop-length, leb, drop-cons, leb→le, ◌≢◌,
}
use cherokee.Recv.Content.{
  closing, drained, cut_off, ended, write, refused, int_limit, to_next_cr, at_cr, next_save,
}
use cherokee.Text.{
  Bytes, shift, equal, equal_sound, equal_self, starts_with, find, find_byte, find_byte_from, cr,
}
use cherokee.Text.Find.{
  shift-shift, find-find_byte, find-find_byte-none, find_byte-bounds, find-cons_of_not,
  find_of_take, starts_with-take, starts_with-append,
}

-- The boundary does not begin in the first `n` bytes, whatever follows the text.
abbrev pub Skips : Bytes → ℕ → Bytes → Type 0
Skips b n buf =
    (t : Bytes) → find (closing b) (buf ++ t) ≡ shift n (find (closing b) (drop n buf ++ t))

pub length-closing : (b : Bytes) → length (closing b) ≡ length b + 8
length-closing b = omega (arith, length-append {0} b (b'-' ∷ b'-' ∷ 13 ∷ 10 ∷ []))

Skips-length : (b buf : Bytes) → find_byte cr buf ≡ none → Skips b (length buf) buf
Skips-length b buf e t = rw drop-length (find-find_byte-none cr _ buf t e)

Skips-cr : (b buf : Bytes) (i : ℕ) → find_byte cr buf ≡ some i → Skips b i buf
Skips-cr b buf i e t = find-find_byte cr i _ buf t e

pub Skips-trans :
    (b buf : Bytes) (m n k : ℕ) → m + n ≡ k → Skips b m buf → Skips b n (drop m buf) → Skips b k buf
Skips-trans b buf m n k e p q t =
    p t
    ∙ ap (shift m) (q t)
    ∙ shift-shift m n _
    ∙ rw (drop-drop m n k buf e) (ap (λ j. shift j (find (closing b) (drop k buf ++ t))) e)

-- One byte in front, where enough of the text is there to see that it does not begin the boundary.
Skips-one :
    (b : Bytes) (c : ℕ) (s : Bytes)
    → length b + 8 ≤ suc (length s)
    → equal (take (length b + 8) (c ∷ s)) (closing b) ≡ false
    → Skips b 1 (c ∷ s)
Skips-one b c s h e t = elim (Bool-cases (starts_with (closing b) (c ∷ s))) [
  | inl y ↦
      let same : take (length b + 8) (c ∷ s) ≡ closing b =
        ap (λ n. take n (c ∷ s)) (sym (length-closing b))
        ∙ starts_with-take (closing b) (c ∷ s) y in
      absurd (false≢true (sym e ∙ ap (λ u. equal u (closing b)) same ∙ equal_self (closing b)))
  | inr n ↦
      find-cons_of_not (closing b) (s ++ t) c
        (starts_with-append (closing b) (c ∷ s) t (omega (arith, length-closing b)) ∙ n)
]

-- What a round that writes `n` bytes does not overlook.
pub record Writes (b buf : Bytes) (n : ℕ) : Type 0 where
  pub some_byte : 0 < n
  pub inside : n ≤ length buf
  pub skips : Skips b n buf

-- From a `\r` in front that does not begin the boundary, up to the next one.
to_next_cr-Writes :
    (b : Bytes) (c n : ℕ) (s : Bytes)
    → length b + 8 ≤ suc (length s)
    → equal (take (length b + 8) (c ∷ s)) (closing b) ≡ false
    → (o : Option ℕ) → find_byte cr s ≡ o
    → n ≡ (elim o [ none ↦ suc (length s) | some j ↦ suc j ])
    → Writes b (c ∷ s) n
to_next_cr-Writes b c n s h e none q m = record {
  some_byte = omega arith;
  inside = omega arith;
  skips =
      Skips-trans b (c ∷ s) 1 (length s) n (omega arith) (Skips-one b c s h e) (Skips-length b s q);
}
to_next_cr-Writes b c n s h e (some j) q m = record {
  some_byte = omega arith;
  inside = omega (arith, find_byte-bounds cr j s q);
  skips = Skips-trans b (c ∷ s) 1 j n (omega arith) (Skips-one b c s h e) (Skips-cr b s j q);
}

first_cr-Writes :
    (b buf : Bytes) (i n : ℕ) → find_byte cr buf ≡ some i → 0 < i → n ≡ i → Writes b buf n
first_cr-Writes b buf i n e p q = record {
  some_byte = omega arith;
  inside = omega (arith, find_byte-bounds cr i buf e);
  skips = rw q (Skips-cr b buf i e);
}

Writes-later :
    (b buf : Bytes) (i m n : ℕ)
    → find_byte cr buf ≡ some i
    → i + m ≡ n
    → Writes b (drop i buf) m
    → Writes b buf n
Writes-later b buf i m n e q w = record {
  some_byte = omega (arith, w.some_byte);
  inside = omega (arith, w.inside, length-drop i buf, find_byte-bounds cr i buf e, w.some_byte);
  skips = Skips-trans b buf i m n q (Skips-cr b buf i e) w.skips;
}

-- How far a round writes from the `\r` at `i`, by what is found behind it.
to_next_cr-eq :
    (buf s : Bytes) (i n : ℕ) (o : Option ℕ)
    → drop (i + 1) buf ≡ s
    → find_byte cr s ≡ o
    → to_next_cr i buf ≡ write n
    → n ≡ (elim o [ none ↦ length buf | some j ↦ i + 1 + j ])
unfolding find_byte_from
to_next_cr-eq buf s i n none q f w = ground arith
to_next_cr-eq buf s i n (some j) q f w = ground arith

next_cr-Writes :
    (b buf : Bytes) (i n : ℕ)
    → find_byte cr buf ≡ some i
    → length b + 8 ≤ length buf - i
    → equal (take (length b + 8) (drop i buf)) (closing b) ≡ false
    → to_next_cr i buf ≡ write n
    → Writes b buf n
next_cr-Writes b buf i n e h ne w =
    let (c, s, p, q) = drop-cons i buf (find_byte-bounds cr i buf e) in
    let size : length (drop i buf) ≡ suc (length s) = ap length p in
    let fits : length b + 8 ≤ suc (length s) = omega (arith, length-drop i buf) in
    let ne' : equal (take (length b + 8) (c ∷ s)) (closing b) ≡ false = rw p at ne in
    elim (Option-cases (find_byte cr s)) [
      | inl gone ↦
          let whole : n ≡ length buf = to_next_cr-eq buf s i n none q gone w in
          Writes-later b buf i (suc (length s)) n e (omega (arith, length-drop i buf))
            (rw p (to_next_cr-Writes b c (suc (length s)) s fits ne' none gone refl))
      | inr (j, found) ↦
          let upto : n ≡ i + 1 + j = to_next_cr-eq buf s i n (some j) q found w in
          Writes-later b buf i (suc j) n e (omega arith)
            (rw p (to_next_cr-Writes b c (suc j) s fits ne' (some j) found refl))
    ]

at_cr-Writes :
    (b buf : Bytes) (i n : ℕ) → find_byte cr buf ≡ some i → at_cr b i buf ≡ write n → Writes b buf n
at_cr-Writes b buf i n e w = elim (Bool-cases (leb (length b + 8) (length buf - i))) [
  | inl long ↦ elim (Bool-cases (equal (take (length b + 8) (drop i buf)) (closing b))) [
    | inl hit ↦ first_cr-Writes b buf i n e (ground arith) (ground arith)
    | inr miss ↦ next_cr-Writes b buf i n e (leb→le _ _ long) miss (ground arith)
  ]
  | inr short ↦ first_cr-Writes b buf i n e (ground arith) (ground arith)
]

pub next_save-Writes : (b buf : Bytes) (n : ℕ) → next_save b buf ≡ write n → Writes b buf n
unfolding next_save
next_save-Writes b buf n w = elim (Option-cases (find_byte cr buf)) [
  | inl gone ↦
      let whole : n ≡ length buf = ground arith in
      rw whole
        (record { some_byte = ground arith; inside = omega arith; skips = Skips-length b buf gone })
  | inr (i, found) ↦ at_cr-Writes b buf i n found (ground arith)
]

at_cr-ended :
    (b buf : Bytes) (i : ℕ)
    → at_cr b i buf ≡ ended
    → (i ≡ 0) × (equal (take (length b + 8) (drop i buf)) (closing b) ≡ true)
at_cr-ended b buf i w = ground arith

-- A round that ends the loop.
pub next_save-ended : (b buf : Bytes) → next_save b buf ≡ ended → find (closing b) buf ≡ some 0
unfolding next_save
next_save-ended b buf w = elim (Option-cases (find_byte cr buf)) [
  | inl gone ↦ absurd (ground arith)
  | inr (i, found) ↦
      let (zero_at, hit) = at_cr-ended b buf i (ground arith) in
      let front : take (length b + 8) buf ≡ closing b =
        equal_sound _ (closing b)
          (ap (λ k. equal (take (length b + 8) (drop k buf)) (closing b)) (sym zero_at) ∙ hit) in
      find_of_take (closing b) buf (ap (λ k. take k buf) (length-closing b) ∙ front)
]

pub next_save-short :
    (b buf : Bytes)
    → (next_save b buf ≡ drained) ⊎ (next_save b buf ≡ cut_off)
    → length buf < length b + 8
unfolding next_save
next_save-short b buf w = elim (Option-cases (find_byte cr buf)) [
  | inl gone ↦ ground arith
  | inr (i, found) ↦ ground arith
]

pub next_save-refused :
    (b buf : Bytes) → length buf < int_limit → length b + 8 < int_limit → next_save b buf ≢ refused
unfolding next_save
next_save-refused b buf p q w = ground arith
