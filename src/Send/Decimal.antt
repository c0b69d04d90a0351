-- ===== src/Send/Decimal.antt =====
-- std::to_string of an unsigned 64-bit number.
use cherokee.Base.{ℕ, zero, suc, ◌+◌, ◌/◌, ◌%◌, [], ◌∷◌, ltb, if◌then◌else◌}
use cherokee.Text.{Bytes}

-- The digits of `n` in front of `acc`. The rounds are the number of digits.
unfoldable pub digits_onto : ℕ → ℕ → Bytes → Bytes
digits_onto zero n acc = acc
digits_onto (suc f) n acc =
    let rest = digits_onto f (n / 10) ((b'0' + n % 10) ∷ acc) in
    if ltb n 10 then (b'0' + n) ∷ acc else rest

-- 2 ^ 64 has 20 digits.
unfoldable pub to_string : ℕ → Bytes
to_string n = digits_onto 20 n []
