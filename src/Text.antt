-- ===== src/Text.antt =====
-- The operations of std::string, std::istringstream and std::isspace that the sources use, over
-- lists of bytes. `npos` of a search is `none`.
pub mod Find
use Prim.Native.Char.{code}
use Prim.Native.String.{String}
use cherokee.Base.{
  ℕ, zero, suc, ◌+◌, ◌-◌, Bool, true, false, ◌&&◌, ◌||◌, List, [], ◌∷◌, ◌++◌, Option, none, some,
  ◌≡◌, ◌↔◌, refl, arith, ltb, leb, ◌==◌, if◌then◌else◌, length, take, drop,
}

abbrev pub Bytes : Type 0
Bytes = List ℕ

-- The bytes of an ASCII literal.
abbrev pub codes : String → Bytes
codes String.[] = []
codes (String.◌∷◌ c s) = code c ∷ codes s

-- operator== on std::string
unfoldable pub equal : Bytes → Bytes → Bool
equal [] [] = true
equal (x ∷ xs) (y ∷ ys) = x == y && equal xs ys
equal _ _ = false

pub equal_sound : (s t : Bytes) → equal s t ≡ true → s ≡ t
unfolding equal
equal_sound [] t h = ground arith
equal_sound (b ∷ s) [] h = ground arith
equal_sound (b ∷ s) (c ∷ t) h = ground (arith, equal_sound s t)

pub equal_self : (s : Bytes) → equal s s ≡ true
unfolding equal
equal_self [] = refl
equal_self (b ∷ s) = ground (arith, equal_self s)

unfoldable pub starts_with : Bytes → Bytes → Bool
starts_with [] s = true
starts_with (p ∷ ps) [] = false
starts_with (p ∷ ps) (c ∷ s) = p == c && starts_with ps s

abbrev pub shift : ℕ → Option ℕ → Option ℕ
shift n none = none
shift n (some i) = some (n + i)

-- std::string::find of a text: the first place where it stands.
unfoldable pub find : Bytes → Bytes → Option ℕ
unfolding starts_with
find pat [] = if starts_with pat [] then some 0 else none
find pat (c ∷ s) = if starts_with pat (c ∷ s) then some 0 else shift 1 (find pat s)

-- std::string::find of one byte
unfoldable pub find_byte : ℕ → Bytes → Option ℕ
find_byte b [] = none
find_byte b (c ∷ s) = if c == b then some 0 else shift 1 (find_byte b s)

-- ... from a position on; past the end nothing is found.
unfoldable pub find_byte_from : ℕ → ℕ → Bytes → Option ℕ
unfolding find_byte
find_byte_from b pos s = shift pos (find_byte b (drop pos s))

-- std::isspace in the "C" locale
unfoldable pub is_space : ℕ → Bool
is_space c = c == 32 || (leb 9 c && leb c 13)

unfoldable pub skip_space : Bytes → Bytes
unfolding is_space
skip_space [] = []
skip_space (c ∷ s) = if is_space c then skip_space s else c ∷ s

unfoldable pub word : Bytes → Bytes
unfolding is_space
word [] = []
word (c ∷ s) = if is_space c then [] else c ∷ word s

unfoldable pub after_word : Bytes → Bytes
unfolding is_space
after_word [] = []
after_word (c ∷ s) = if is_space c then c ∷ s else after_word s

abbrev token_at : Bytes → Option (Bytes × Bytes)
token_at [] = none
token_at (c ∷ s) = some (word (c ∷ s), after_word (c ∷ s))

-- `stream >> word`: the word and what is left, or `none` where only white space is left (then the
-- string keeps its value and the stream has failed).
unfoldable pub read_token : Bytes → Option (Bytes × Bytes)
unfolding skip_space word after_word
read_token s = token_at (skip_space s)

-- std::getline: the text up to a line feed, which is not kept.
unfoldable pub line_of : Bytes → Bytes
line_of [] = []
line_of (c ∷ s) = if c == 10 then [] else c ∷ line_of s

-- The last byte, and the text without it.
unfoldable pub last_byte : Bytes → Option ℕ
last_byte [] = none
last_byte (c ∷ []) = some c
last_byte (c ∷ d ∷ s) = last_byte (d ∷ s)

unfoldable pub pop_back : Bytes → Bytes
pop_back [] = []
pop_back (c ∷ []) = []
pop_back (c ∷ d ∷ s) = c ∷ pop_back (d ∷ s)

abbrev pub cr : ℕ
cr = 13

abbrev pub crlf : Bytes
crlf = 13 ∷ 10 ∷ []
