-- ===== src/Message/Header.antt =====
-- `Request::setRequestLine` and `Request::addHeaderOpt` of message/message.h.
use cherokee.Base.{
  ℕ, ◌+◌, ◌-◌, ◌*◌, ◌%◌, ◌^◌, Bool, true, false, ◌&&◌, ◌∷◌, [], Option, none, some, leb, ltb, ◌==◌,
  if◌then◌else◌, length, take, drop,
}
use cherokee.Base.Int.{ℤ, pos, neg_ℕ}
use cherokee.Fault.{Result, ok, fault, out_of_range, invalid_argument, undefined, ◌>>=◌}
use cherokee.Message.{Request, set_header}
use cherokee.Text.{
  Bytes, codes, equal, find_byte, find_byte_from, read_token, skip_space, line_of, last_byte,
  pop_back, cr,
}

-- std::string::substr
unfoldable pub substr : Bytes → ℕ → ℕ → Result Bytes
substr s from count =
    if leb from (length s) then ok (take count (drop from s)) else fault out_of_range

abbrev pub npos : ℕ
npos = 2 ^ 64 - 1

abbrev pub index : Option ℕ → ℕ
index none = npos
index (some i) = i

abbrev pub is_digit : ℕ → Bool
is_digit c = leb b'0' c && leb c b'9'

unfoldable pub digits_from : ℕ → Bytes → ℕ
digits_from acc [] = acc
digits_from acc (c ∷ s) =
    let rest = digits_from (acc * 10 + (c - b'0')) s in if is_digit c then rest else acc

-- A number with digits, whose sign is given: at most 2 ^ 63 - 1, or 2 ^ 63 below zero.
unfoldable pub digits : Bool → Bytes → Result ℤ
digits negative [] = fault invalid_argument
digits negative (c ∷ s) =
    let n = digits_from 0 (c ∷ s) in
    if is_digit c
    then (if negative
        then (if leb n (2 ^ 63) then ok (neg_ℕ n) else fault out_of_range)
        else (if ltb n (2 ^ 63) then ok (pos n) else fault out_of_range))
    else fault invalid_argument

abbrev signed : Bytes → Result ℤ
signed [] = fault invalid_argument
signed (c ∷ s) =
    if c == b'-' then digits true s else if c == b'+' then digits false s else digits false (c ∷ s)

-- std::stoll: white space, a sign, digits; what follows them is not read.
unfoldable pub stoll : Bytes → Result ℤ
stoll s = signed (skip_space s)

-- `lineStream >> requestMethod >> requestResource >> httpVersion`
unfoldable pub set_request_line : Request → Bytes → Request
set_request_line r line = elim (read_token line) [
  | none ↦ r
  | some (m, l) ↦ elim (read_token l) [
    | none ↦ record r { request_method = m }
    | some (res, l') ↦ elim (read_token l') [
      | none ↦ record r { request_method = m; request_resource = res }
      | some (v, l'') ↦ record r { request_method = m; request_resource = res; http_version = v }
    ]
  ]
]

abbrev put_header : Request → Bytes → Bytes → Request
put_header r k v = record r { msg_header = set_header k v r.msg_header }

-- The branch for "Content-Type". Positions are size_t: sums and differences wrap at 2 ^ 64, which
-- happens where no `=` is found.
unfoldable pub add_content_type : Request → Bytes → Bytes → Result Request
add_content_type r key value = elim (find_byte b';' value) [
  | none ↦ ok (put_header r key value)
  | some sem ↦ do
    let eq = index (find_byte_from b'=' sem value)
    let named = put_header r key (take sem value)
    name ← substr value (sem + 2) ((eq + 2 ^ 64 - sem - 2) % 2 ^ 64)
    v ← substr value ((eq + 1) % 2 ^ 64) npos
    ok (put_header named name v)
]

unfoldable pub strip_cr : Bytes → Bytes
strip_cr s = elim (last_byte s) [ none ↦ s | some c ↦ if c == cr then pop_back s else s ]

unfoldable pub set_option : Request → Bytes → Bytes → Result Request
set_option r key value =
    if equal key (codes "Content-Length")
    then (do n ← stoll value; ok (record r { content_length = n }))
    else if equal key (codes "Content-Type")
    then add_content_type r key value
    else ok (put_header r key value)

-- `addHeaderOpt`. On a line of white space `key` is empty, and `key.pop_back()` is undefined.
unfoldable pub add_header_opt : Request → Bytes → Result Request
add_header_opt r line = elim (read_token line) [
  | none ↦ fault undefined
  | some (key, rest) ↦ set_option r (pop_back key) (strip_cr (line_of (drop 1 rest)))
]
