-- ===== src/Recv/Content.antt =====
-- The loop of `HandleRecv::process` that saves the contents of an uploaded file: it writes all
-- bytes that cannot belong to the closing boundary, and keeps the rest for the next receipt.
use cherokee.Base.{
  ℕ, zero, suc, ◌+◌, ◌-◌, ◌^◌, Bool, true, false, [], ◌∷◌, ◌++◌, none, some, leb, ◌==◌,
  if◌then◌else◌, length, take, drop,
}
use cherokee.Fault.{Result, ok, fault, too_large, out_of_fuel}
use cherokee.Text.{Bytes, equal, find_byte, find_byte_from, cr}

-- "\r\n--" + boundary + "--\r\n"
abbrev pub closing : Bytes → Bytes
closing boundary = 13 ∷ 10 ∷ b'-' ∷ b'-' ∷ (boundary ++ (b'-' ∷ b'-' ∷ 13 ∷ 10 ∷ []))

-- What one round decides.
pub data Save : Type 0 where
  drained : Save  -- nothing is left: `break`
  cut_off : Save  -- what is left may be the start of the boundary: `break`
  ended : Save  -- the boundary stands in front: FILE_COMPLETE and `break`
  write : ℕ → Save  -- `ofs.write` and `erase` of so many bytes
  refused : Save  -- a size above the range of `int`

abbrev pub int_limit : ℕ
int_limit = 2 ^ 31

-- Up to the second `\r`, or to the end.
abbrev pub to_next_cr : ℕ → Bytes → Save
to_next_cr i buf = elim (find_byte_from cr (i + 1) buf) [
  | none ↦ write (length buf)
  | some j ↦ write j
]

-- The first `\r` stands at `i`.
abbrev pub at_cr : Bytes → ℕ → Bytes → Save
at_cr boundary i buf =
    let size = length boundary + 8 in
    if leb int_limit size
    then refused
    else if leb size (length buf - i)
    then (if equal (take size (drop i buf)) (closing boundary)
        then (if i == 0 then ended else write i)
        else to_next_cr i buf)
    else if i == 0
    then cut_off
    else write i

unfoldable pub next_save : Bytes → Bytes → Save
next_save boundary buf =
    if leb int_limit (length buf)
    then refused
    else if length buf == 0
    then drained
    else elim (find_byte cr buf) [ none ↦ write (length buf) | some i ↦ at_cr boundary i buf ]

-- What the loop leaves: the bytes written, the bytes kept, and whether the boundary was reached.
pub record Saved : Type 0 where
  pub written : Bytes
  pub kept : Bytes
  pub finished : Bool

unfoldable pub save_loop : ℕ → Bytes → Bytes → Bytes → Result Saved
save_loop zero boundary written buf = fault out_of_fuel
save_loop (suc f) boundary written buf = elim (next_save boundary buf) [
  | drained ↦ ok (record { written = written; kept = buf; finished = false })
  | cut_off ↦ ok (record { written = written; kept = buf; finished = false })
  | ended ↦ ok (record { written = written; kept = buf; finished = true })
  | write n ↦ save_loop f boundary (written ++ take n buf) (drop n buf)
  | refused ↦ fault too_large
]

-- Each round that goes on removes a byte, so that many rounds and one are enough.
unfoldable pub save_content : Bytes → Bytes → Result Saved
save_content boundary buf = save_loop (suc (length buf)) boundary [] buf
