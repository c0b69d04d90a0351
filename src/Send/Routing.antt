-- ===== src/Send/Routing.antt =====
-- The operation and the file name in the path of a request, in `HandleSend::process`.
use cherokee.Base.{ℕ, ◌+◌, ◌-◌, ◌%◌, ◌^◌, [], ◌∷◌, suc, leb, ltb, ◌==◌, if◌then◌else◌, length, drop}
use cherokee.Fault.{Result, ok, fault, undefined, ◌>>=◌}
use cherokee.Message.Header.{substr, npos}
use cherokee.Text.{Bytes, codes, equal}

pub record Route : Type 0 where
  pub opera : Bytes
  pub filename : Bytes

-- How many bytes stand before the first `/`.
unfoldable pub until_slash : Bytes → ℕ
until_slash [] = 0
until_slash (c ∷ s) = if c == b'/' then 0 else suc (until_slash s)

-- `size() - 1` is of an unsigned type: for the empty path it is the largest number. `i` is an `int`,
-- which the loop counts past its largest value where no `/` comes before.
unfoldable pub route : Bytes → Result Route
route name =
    let i = 1 + until_slash (drop 1 name) in
    if equal name (b'/' ∷ [])
    then ok (record { opera = codes "/"; filename = [] })
    else if leb (2 ^ 31) i
    then fault undefined
    else if ltb i ((length name + 2 ^ 64 - 1) % 2 ^ 64)
    then (do
      o ← substr name 1 (i - 1)
      f ← substr name (i + 1) npos
      ok (record { opera = o; filename = f }))
    else ok (record { opera = codes "redirect"; filename = [] })
