-- ===== src/Recv/RequestText.antt =====
-- How a client writes the head of a request, and how the parts of a line are read back.
use cherokee.Base.{
  ℕ, true, false, List, [], ◌∷◌, ◌++◌, some, ◌≡◌, ◌≢◌, refl, sym, ap, ◌∙◌, arith, append_assoc,
  length,
}
use cherokee.Fault.{Result, ok, ◌>>=◌}
use cherokee.Message.{Request}
use cherokee.Message.Header.{set_option, add_header_opt, set_request_line, strip_cr}
use cherokee.Text.{
  Bytes, crlf, find, starts_with, is_space, skip_space, word, after_word, read_token, line_of,
  last_byte, pop_back,
}

-- No white space.
abbrev pub NoSpace : Bytes → Type 0
NoSpace [] = Unit
NoSpace (c ∷ s) = (is_space c ≡ false) × NoSpace s

abbrev pub IsToken : Bytes → Type 0
IsToken w = NoSpace w × (w ≢ [])

-- Neither `\r` nor `\n`.
abbrev pub IsPlain : Bytes → Type 0
IsPlain [] = Unit
IsPlain (c ∷ s) = (c ≢ 13) × (c ≢ 10) × IsPlain s

abbrev pub request_line : Bytes → Bytes → Bytes → Bytes
request_line method resource version = method ++ (b' ' ∷ (resource ++ (b' ' ∷ version)))

abbrev pub header_line : Bytes × Bytes → Bytes
header_line (key, value) = key ++ (b':' ∷ (b' ' ∷ value))

abbrev pub header_lines : List (Bytes × Bytes) → Bytes
header_lines [] = []
header_lines (h ∷ hs) = header_line h ++ (13 ∷ (10 ∷ header_lines hs))

-- The request line, the header lines, and the empty line.
abbrev pub request_head : Bytes → Bytes → Bytes → List (Bytes × Bytes) → Bytes
request_head method resource version hs =
    request_line method resource version ++ (13 ∷ (10 ∷ (header_lines hs ++ crlf)))

abbrev pub AreHeaders : List (Bytes × Bytes) → Type 0
AreHeaders [] = Unit
AreHeaders ((key, value) ∷ hs) = IsToken key × IsPlain value × AreHeaders hs

-- The headers, one after the other.
abbrev pub set_all : Request → List (Bytes × Bytes) → Result Request
set_all r [] = ok r
set_all r ((key, value) ∷ hs) = set_option r key value >>= λ r'. set_all r' hs

module _ (c : ℕ) (s : Bytes) (space : is_space c ≡ true) where
  word-NoSpace : (w : Bytes) → NoSpace w → word (w ++ c ∷ s) ≡ w
  unfolding word
  word-NoSpace [] h = rw space refl
  word-NoSpace (d ∷ w) (p, h) = rw p (ap (λ x. d ∷ x) (word-NoSpace w h))

  after_word-NoSpace : (w : Bytes) → NoSpace w → after_word (w ++ c ∷ s) ≡ c ∷ s
  unfolding after_word
  after_word-NoSpace [] h = rw space refl
  after_word-NoSpace (d ∷ w) (p, h) = rw p (after_word-NoSpace w h)

  pub read_token-IsToken : (w : Bytes) → IsToken w → read_token (w ++ c ∷ s) ≡ some (w, c ∷ s)
  unfolding read_token skip_space
  read_token-IsToken [] (h, ne) = absurd (ne refl)
  read_token-IsToken (d ∷ w) (h, ne) = rw h.0 (
      ap (λ (p : Bytes × Bytes). some p)
        (ap (λ x. (x, after_word (d ∷ (w ++ c ∷ s)))) (word-NoSpace (d ∷ w) h)
          ∙ ap (λ x. (d ∷ w, x)) (after_word-NoSpace (d ∷ w) h)))

read_token-space : (s : Bytes) → read_token (b' ' ∷ s) ≡ read_token s
unfolding read_token skip_space is_space
read_token-space s = refl

pub set_request_line-request_line :
    (r : Request) (method resource version s : Bytes)
    → IsToken method
    → IsToken resource
    → IsToken version
    → set_request_line r (request_line method resource version ++ (13 ∷ s))
      ≡ record r { request_method = method; request_resource = resource; http_version = version }
unfolding set_request_line is_space
set_request_line-request_line r method resource version s m p v =
    let blank : is_space b' ' ≡ true = refl in
    let ends : is_space 13 ≡ true = refl in
    let first =
      ap read_token (append_assoc method (b' ' ∷ (resource ++ (b' ' ∷ version))) (13 ∷ s))
      ∙ read_token-IsToken b' ' _ blank method m in
    let second =
      read_token-space ((resource ++ (b' ' ∷ version)) ++ (13 ∷ s))
      ∙ ap read_token (append_assoc resource (b' ' ∷ version) (13 ∷ s))
      ∙ read_token-IsToken b' ' _ blank resource p in
    let third = read_token-space (version ++ (13 ∷ s)) ∙ read_token-IsToken 13 s ends version v in
    rw (first, set_request_line) (rw (second, set_request_line) (rw (third, set_request_line) refl))

line_of-IsPlain : (v s : Bytes) → IsPlain v → line_of (v ++ (13 ∷ (10 ∷ s))) ≡ v ++ 13 ∷ []
unfolding line_of
line_of-IsPlain [] s h = refl
line_of-IsPlain (c ∷ v) s (r, n, h) = ground (arith, line_of-IsPlain v s h)

NoSpace-key : (k : Bytes) → NoSpace k → NoSpace (k ++ b':' ∷ [])
unfolding is_space
NoSpace-key [] h = (refl, tt)
NoSpace-key (c ∷ k) (p, h) = (p, NoSpace-key k h)

pop_back-last : (k : Bytes) (c : ℕ) → pop_back (k ++ c ∷ []) ≡ k
unfolding pop_back
pop_back-last [] c = refl
pop_back-last (d ∷ []) c = refl
pop_back-last (d ∷ e ∷ k) c = ap (λ x. d ∷ x) (pop_back-last (e ∷ k) c)

last_byte-last : (k : Bytes) (c : ℕ) → last_byte (k ++ c ∷ []) ≡ some c
unfolding last_byte
last_byte-last [] c = refl
last_byte-last (d ∷ []) c = refl
last_byte-last (d ∷ e ∷ k) c = last_byte-last (e ∷ k) c

strip_cr-line : (v : Bytes) → strip_cr (v ++ 13 ∷ []) ≡ v
unfolding strip_cr
strip_cr-line v = rw (last_byte-last v 13, strip_cr) (pop_back-last v 13)

pub add_header_opt-header_line :
    (r : Request) (key value s : Bytes)
    → IsToken key
    → IsPlain value
    → add_header_opt r (header_line (key, value) ++ (13 ∷ (10 ∷ s))) ≡ set_option r key value
unfolding add_header_opt is_space
add_header_opt-header_line r key value s k v =
    let blank : is_space b' ' ≡ true = refl in
    let rest = value ++ (13 ∷ (10 ∷ s)) in
    let token : IsToken (key ++ b':' ∷ []) = (NoSpace-key key k.0, λ e. not_nil key e) in
    let read : read_token (header_line (key, value) ++ (13 ∷ (10 ∷ s)))
        ≡ some (key ++ b':' ∷ [], b' ' ∷ rest) =
      ap read_token (
        append_assoc key (b':' ∷ (b' ' ∷ value)) (13 ∷ (10 ∷ s))
        ∙ sym (append_assoc key (b':' ∷ []) (b' ' ∷ rest)))
      ∙ read_token-IsToken b' ' rest blank (key ++ b':' ∷ []) token in
    rw (read, add_header_opt)
      (ap (λ x. set_option r x (strip_cr (line_of rest))) (pop_back-last key b':')
        ∙ ap (set_option r key) (ap strip_cr (line_of-IsPlain value s v) ∙ strip_cr-line value))
  where
    not_nil : (k : Bytes) → k ++ b':' ∷ [] ≢ []
    not_nil [] e = cc
    not_nil (c ∷ k) e = cc

pub find-crlf : (s t : Bytes) → IsPlain s → find crlf (s ++ (13 ∷ (10 ∷ t))) ≡ some (length s)
unfolding find starts_with
find-crlf [] t h = ground arith
find-crlf (c ∷ s) t (r, n, h) = ground (arith, find-crlf s t h)
