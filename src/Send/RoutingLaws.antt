-- ===== src/Send/RoutingLaws.antt =====
-- Which path leads to which operation and file.
use cherokee.Base.{
  ℕ, suc, ◌+◌, ◌-◌, ◌%◌, ◌^◌, ◌≤◌, ◌<◌, true, false, [], ◌∷◌, ◌++◌, ◌≡◌, ◌≢◌, refl, ap, ◌∙◌, arith,
  leb, ltb, lt→ltb, length, take, drop, length-append, take-append_of_le, take-all, inl, inr,
  Bool-cases,
}
use cherokee.Fault.{ok}
use cherokee.Message.Header.{substr, npos}
use cherokee.Send.Routing.{until_slash, route}
use cherokee.Text.{Bytes, equal, equal_sound}

-- No `/` among the bytes.
abbrev pub NoSlash : Bytes → Type 0
NoSlash [] = Unit
NoSlash (c ∷ s) = (c ≢ b'/') × NoSlash s

until_slash-append : (op rest : Bytes) → NoSlash op → until_slash (op ++ (b'/' ∷ rest)) ≡ length op
unfolding until_slash
until_slash-append [] rest h = refl
until_slash-append (c ∷ op) rest h = ground (arith, until_slash-append op rest h.1)

drop-append_self : (xs ys : Bytes) (y : ℕ) → drop (length xs + 1) (xs ++ (y ∷ ys)) ≡ ys
drop-append_self [] ys y = refl
drop-append_self (x ∷ xs) ys y =
    let one : suc (length xs) + 1 ≡ suc (length xs + 1) = omega arith in
    ap (λ n. drop n (x ∷ (xs ++ (y ∷ ys)))) one ∙ drop-append_self xs ys y

substr-ok :
    (s : Bytes) (from count : ℕ)
    → from ≤ length s
    → substr s from count ≡ ok (take count (drop from s))
unfolding substr
substr-ok s from count h = ground arith

-- The path that the server's own page and its script use for an operation on a file.
abbrev pub path_of : Bytes → Bytes → Bytes
path_of op name = b'/' ∷ (op ++ (b'/' ∷ name))

length-path_of : (op name : Bytes) → length (path_of op name) ≡ length op + length name + 2
length-path_of op name = omega (arith, length-append {0} op (b'/' ∷ name))

not_root : (op name : Bytes) → equal (path_of op name) (b'/' ∷ []) ≡ false
not_root op name = elim (Bool-cases (equal (path_of op name) (b'/' ∷ []))) [
  | inl e ↦ absurd (
      omega
        (arith, ap length (equal_sound (path_of op name) (b'/' ∷ []) e), length-path_of op name))
  | inr e ↦ e
]

first_part : (op name : Bytes) → substr (path_of op name) 1 (1 + length op - 1) ≡ ok op
first_part op name =
    let count : 1 + length op - 1 ≡ length op = omega arith in
    let one : 1 ≤ length (path_of op name) = omega (arith, length-path_of op name) in
    substr-ok (path_of op name) 1 (1 + length op - 1) one
    ∙ ap ok (
        ap (λ n. take n (op ++ (b'/' ∷ name))) count
        ∙ take-append_of_le (length op) op (b'/' ∷ name) (omega arith)
        ∙ take-all (length op) op (omega arith))

second_part :
    (op name : Bytes)
    → length (path_of op name) < 2 ^ 63
    → substr (path_of op name) (1 + length op + 1) npos ≡ ok name
second_part op name small =
    let from : 1 + length op + 1 ≡ suc (length op + 1) = omega arith in
    let size = length-path_of op name in
    substr-ok (path_of op name) (1 + length op + 1) npos (omega arith)
    ∙ ap ok (
        ap (λ n. take npos (drop n (path_of op name))) from
        ∙ ap (take npos) (drop-append_self op name b'/')
        ∙ take-all npos name (omega arith))

-- A slash before the last byte.
long_enough :
    (op name : Bytes)
    → name ≢ []
    → length (path_of op name) < 2 ^ 63
    → ltb (1 + length op) ((length (path_of op name) + 2 ^ 64 - 1) % 2 ^ 64) ≡ true
long_enough op [] ne small = absurd (ne refl)
long_enough op (c ∷ name) ne small = lt→ltb _ _ (omega (arith, length-path_of op (c ∷ name)))

small_index : (op : Bytes) → length op < 2 ^ 31 - 1 → leb (2 ^ 31) (1 + length op) ≡ false
small_index op short = elim (Bool-cases (leb (2 ^ 31) (1 + length op))) [
  | inl e ↦ absurd (ground arith)
  | inr e ↦ e
]

pub route-path_of :
    (op name : Bytes)
    → NoSlash op
    → length op < 2 ^ 31 - 1
    → name ≢ []
    → length (path_of op name) < 2 ^ 63
    → route (path_of op name) ≡ ok (record { opera = op; filename = name })
unfolding route
route-path_of op name h short ne small = rw (
  not_root op name,
  until_slash-append op name h,
  small_index op short,
  long_enough op name ne small,
  first_part op name,
  second_part op name small,
)
