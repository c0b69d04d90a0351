-- ===== src/Utils/LogPrefix.antt =====
-- `outHead` of utils/utils.cpp: the time and the type in front of a line of the log.
use native.Mathlib.Nat.{pow-succ'}
use cherokee.Base.{
  ℕ, zero, suc, ◌+◌, ◌*◌, ◌-◌, ◌/◌, ◌%◌, ◌^◌, ◌≤◌, ◌<◌, [], ◌∷◌, ◌++◌, ◌≡◌, refl, ap, ◌∙◌, arith,
  inl, inr, ltb, Bool-cases, if◌then◌else◌, length, take, take-all, length-append,
}
use cherokee.Send.Decimal.{to_string, digits_onto}
use cherokee.Text.{Bytes, codes, equal}

-- The members of `tm` and `timeval` that are printed: `tm_year` counts from 1900, `tm_mon` from 0.
pub record Now : Type 0 where
  pub tm_hour : ℕ
  pub tm_min : ℕ
  pub tm_sec : ℕ
  pub tv_usec : ℕ
  pub tm_year : ℕ
  pub tm_mon : ℕ
  pub tm_mday : ℕ

unfoldable pub zeros : ℕ → Bytes
zeros zero = []
zeros (suc n) = b'0' ∷ zeros n

-- `%0wd`
unfoldable pub padded : ℕ → ℕ → Bytes
padded w n = zeros (w - length (to_string n)) ++ to_string n

-- "%02d:%02d:%02d.%05ld %d-%02d-%02d"
unfoldable pub time_text : Now → Bytes
time_text t =
    padded 2 t.tm_hour
    ++ (b':'
        ∷ (padded 2 t.tm_min
            ++ (b':'
                ∷ (padded 2 t.tm_sec
                    ++ (b'.'
                        ∷ (padded 5 t.tv_usec
                            ++ (b' '
                                ∷ (to_string (t.tm_year + 1900)
                                    ++ (b'-'
                                        ∷ (padded 2 (t.tm_mon + 1)
                                            ++ (b'-' ∷ padded 2 t.tm_mday)))))))))))

abbrev pub label : Bytes → Bytes
label log_type =
    if equal log_type (codes "init")
    then codes " [init]: "
    else if equal log_type (codes "error")
    then codes " [erro]: "
    else codes " [info]: "

-- snprintf writes 29 bytes at most, and a zero, into the 30 bytes of `strTime`.
unfoldable pub out_head : Now → Bytes → Bytes
out_head t log_type = take 29 (time_text t) ++ label log_type

-- What localtime and gettimeofday may return, up to the year 9,999,999.
pub record IsTime (t : Now) : Type 0 where
  pub hour : t.tm_hour < 24
  pub min : t.tm_min < 60
  pub sec : t.tm_sec < 61
  pub usec : t.tv_usec < 10 ^ 6
  pub year : t.tm_year + 1900 < 10 ^ 7
  pub mon : t.tm_mon < 12
  pub mday : t.tm_mday < 32

length-zeros : (n : ℕ) → length (zeros n) ≡ n
unfolding zeros
length-zeros zero = refl
length-zeros (suc n) = omega (arith, length-zeros n)

-- A number below 10 ^ (k + 1) has k + 1 digits at most.
length-digits_lt :
    (f k n : ℕ) (acc : Bytes)
    → n < 10 ^ (k + 1)
    → length (digits_onto f n acc) ≤ (k + 1) + length acc
unfolding digits_onto
length-digits_lt zero k n acc h = omega arith
length-digits_lt (suc f) zero n acc h = elim (Bool-cases (ltb n 10)) [
  | inl small ↦ rw small (omega arith)
  | inr large ↦ absurd (ground arith)
]
length-digits_lt (suc f) (suc k) n acc h = elim (Bool-cases (ltb n 10)) [
  | inl small ↦ rw small (omega arith)
  | inr large ↦
      let e : suc k + 1 ≡ suc (k + 1) = omega arith in
      let power : 10 ^ (suc k + 1) ≡ 10 * 10 ^ (k + 1) =
        ap (λ i. 10 ^ i) e ∙ pow-succ' 10 (k + 1) in
      let less : n / 10 < 10 ^ (k + 1) = omega (arith, power, h) in
      rw large (omega (arith, length-digits_lt f k (n / 10) ((b'0' + n % 10) ∷ acc) less))
]

length-to_string_lt : (k n : ℕ) → n < 10 ^ (k + 1) → length (to_string n) ≤ k + 1
unfolding to_string
length-to_string_lt k n h = omega (arith, length-digits_lt 20 k n [] h)

length-padded : (w k n : ℕ) → n < 10 ^ (k + 1) → w ≤ k + 1 → length (padded w n) ≤ k + 1
unfolding padded
length-padded w k n h le = omega (
  arith,
  length-append (zeros (w - length (to_string n))) (to_string n),
  length-zeros (w - length (to_string n)),
  length-to_string_lt k n h,
)

-- A text, a byte, and a text.
length-joined : (s : Bytes) (c : ℕ) (t : Bytes) → length (s ++ c ∷ t) ≡ length s + (1 + length t)
length-joined s c t = omega (arith, length-append s (c ∷ t))

pub length-time_text : (t : Now) → IsTime t → length (time_text t) ≤ 29
unfolding time_text
length-time_text t h = omega (
  arith,
  length-joined (padded 2 t.tm_hour) b':' _,
  length-joined (padded 2 t.tm_min) b':' _,
  length-joined (padded 2 t.tm_sec) b'.' _,
  length-joined (padded 5 t.tv_usec) b' ' _,
  length-joined (to_string (t.tm_year + 1900)) b'-' _,
  length-joined (padded 2 (t.tm_mon + 1)) b'-' _,
  length-padded 2 1 t.tm_hour (omega (arith, h.hour)) (omega arith),
  length-padded 2 1 t.tm_min (omega (arith, h.min)) (omega arith),
  length-padded 2 1 t.tm_sec (omega (arith, h.sec)) (omega arith),
  length-padded 5 5 t.tv_usec h.usec (omega arith),
  length-to_string_lt 6 (t.tm_year + 1900) h.year,
  length-padded 2 1 (t.tm_mon + 1) (omega (arith, h.mon)) (omega arith),
  length-padded 2 1 t.tm_mday (omega (arith, h.mday)) (omega arith),
)

-- For a time of day with microseconds below 1,000,000 and a date up to the year 9,999,999, the whole
-- time is printed in front of a line of the log: the buffer of `outHead` has room for it, and nothing
-- is cut off.
pub out_head-whole :
    (t : Now) (log_type : Bytes) → IsTime t → out_head t log_type ≡ time_text t ++ label log_type
unfolding out_head
out_head-whole t log_type h =
    ap (λ x. x ++ label log_type) (take-all 29 (time_text t) (length-time_text t h))
