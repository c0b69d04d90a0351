-- ===== src/Send/HeaderSize.antt =====
-- How long a decimal number and the header of a response can be.
use cherokee.Base.{
  ℕ, zero, suc, ◌+◌, ◌/◌, ◌%◌, ◌≤◌, [], ◌∷◌, ◌++◌, arith, ltb, length, length-append, inl, inr,
  Bool-cases,
}
use cherokee.Send.Decimal.{digits_onto, to_string}
use cherokee.Send.Page.{type_line, option_line, message_header}
use cherokee.Text.{Bytes, codes, crlf, equal}

length-digits_onto : (f n : ℕ) (acc : Bytes) → length (digits_onto f n acc) ≤ f + length acc
unfolding digits_onto
length-digits_onto zero n acc = omega arith
length-digits_onto (suc f) n acc = elim (Bool-cases (ltb n 10)) [
  | inl small ↦ rw small (omega arith)
  | inr large ↦ rw large (omega (arith, length-digits_onto f (n / 10) ((b'0' + n % 10) ∷ acc)))
]

pub length-to_string : (n : ℕ) → length (to_string n) ≤ 20
unfolding to_string
length-to_string n = omega (arith, length-digits_onto 20 n [])

length-option_line :
    (name value : Bytes) → length (option_line name value) ≤ length name + length value + 2
unfolding option_line
length-option_line name [] = omega arith
length-option_line name (c ∷ value) =
    omega (arith, length-append name ((c ∷ value) ++ crlf), length-append {0} (c ∷ value) crlf)

length-type_line : (type : Bytes) → length (type_line type) ≤ 40
unfolding type_line
length-type_line type = elim (Bool-cases (equal type (codes "html"))) [
  | inl e ↦ rw e (omega arith)
  | inr e ↦ rw e (elim (Bool-cases (equal type (codes "file"))) [
    | inl f ↦ rw f (omega arith)
    | inr f ↦ rw f (omega arith)
  ])
]

-- The parts of a header, which are sums of lengths.
pub length-message_header :
    (size type location range : Bytes)
    → length (message_header size type location range)
      ≤ length size + length location + length range + 120
unfolding message_header
length-message_header size type location range = omega (
  arith,
  length-append (option_line (codes "Content-Length: ") size) _,
  length-append (type_line type) _,
  length-append (option_line (codes "Location: ") location) _,
  length-append (option_line (codes "Content-Range: 0-") range)
      (codes "Connection: keep-alive\r\n"),
  length-option_line (codes "Content-Length: ") size,
  length-type_line type,
  length-option_line (codes "Location: ") location,
  length-option_line (codes "Content-Range: 0-") range,
)
