-- ===== src/Send/PageLaws.antt =====
-- The list page, and the decimal numbers of the header.
use native.Mathlib.Nat.{pow-suc}
use cherokee.Base.{
  ℕ, zero, suc, ◌+◌, ◌-◌, ◌*◌, ◌/◌, ◌%◌, ◌^◌, ◌<◌, true, false, List, [], ◌∷◌, ◌++◌, some, ◌≡◌, ◌≢◌,
  refl, sym, ap, ap₂, ◌∙◌, arith, Bool, not, ◌&&◌, if◌then◌else◌, ltb, lt→ltb, append_assoc, inl,
  inr, Bool-cases,
}
use cherokee.Base.Int.{pos}
use cherokee.Fault.{ok, fault, hangs}
use cherokee.Message.Header.{digits_from, digits, is_digit, stoll}
use cherokee.Send.Decimal.{digits_onto, to_string}
use cherokee.Send.Page.{file_vec, label, row, rows, all_lines, page_around, file_list_page}
use cherokee.Text.{Bytes, codes, equal, equal_sound, equal_self, is_space, skip_space}

-- The label is none of the lines.
abbrev pub NoLabel : List Bytes → Type 0
NoLabel [] = Unit
NoLabel (line ∷ lines) = (line ≢ label) × NoLabel lines

differs : (line : Bytes) → line ≢ label → equal line label ≡ false
differs line h = elim (Bool-cases (equal line label)) [
  | inl e ↦ absurd (h (equal_sound line label e))
  | inr e ↦ e
]

page_around-label :
    (middle : Bytes) (before after : List Bytes)
    → NoLabel before
    → page_around middle (before ++ (label ∷ after))
      ≡ ok (all_lines before ++ (middle ++ all_lines after))
unfolding page_around all_lines
page_around-label middle [] after h = rw (equal_self label)
page_around-label middle (line ∷ before) after h =
    rw (differs line h.0, page_around-label middle before after h.1)
      (ap ok (sym (append_assoc line (10 ∷ all_lines before) (middle ++ all_lines after))))

-- The names that a user sees.
abbrev pub is_visible : Bytes → Bool
is_visible name = not (equal name (b'.' ∷ [])) && not (equal name (b'.' ∷ (b'.' ∷ [])))

-- The name, and the links to get the file and to remove it.
abbrev pub table_row : Bytes → Bytes
table_row name =
    codes "            <tr><td class=\"col1\">"
    ++ (name
        ++ (codes "</td> <td class=\"col2\"><a href=\"downl/"
            ++ (name
                ++ (codes
                      "\">downl</a></td> <td class=\"col3\"><a href=\"#\" onclick=\"return confirmDelete('"
                    ++ (name ++ codes "');\">remov</a></td></tr>\n")))))

abbrev pub table : List Bytes → Bytes
table [] = []
table (name ∷ names) = (if is_visible name then table_row name else []) ++ table names

-- Lines with their ends.
abbrev pub text_of : List Bytes → Bytes
text_of [] = []
text_of (line ∷ lines) = (line ++ 10 ∷ []) ++ text_of lines

-- The list page for these names and this template.
abbrev pub list_page : List Bytes → List Bytes → List Bytes → Bytes
list_page names before after = text_of before ++ (table names ++ text_of after)

rows-file_vec : (names : List Bytes) → rows (file_vec names) ≡ table names
unfolding rows file_vec row
rows-file_vec [] = refl
rows-file_vec (name ∷ names) = elim (Bool-cases (equal name (b'.' ∷ []))) [
  | inl e ↦ rw e (rows-file_vec names)
  | inr e ↦ elim (Bool-cases (equal name (b'.' ∷ (b'.' ∷ [])))) [
    | inl f ↦ rw (e, f) (rows-file_vec names)
    | inr f ↦ rw (e, f) (ap (◌++◌ (table_row name)) (rows-file_vec names))
  ]
]

all_lines-text_of : (lines : List Bytes) → all_lines lines ≡ text_of lines
unfolding all_lines
all_lines-text_of [] = refl
all_lines-text_of (line ∷ lines) =
    ap (λ t. line ++ (10 ∷ t)) (all_lines-text_of lines) ∙ sym (append_assoc line (10 ∷ []) _)

list_page_lem :
    (names before after : List Bytes)
    → all_lines before ++ (rows (file_vec names) ++ all_lines after) ≡ list_page names before after
list_page_lem names before after =
    ap₂ (◌++◌) (all_lines-text_of before)
      (ap₂ (◌++◌) (rows-file_vec names) (all_lines-text_of after))

-- The page is the template with its label replaced by one row for each name of the directory but `.`
-- and `..`, in the directory's order, with the name and its two links, behind what the text held
-- before; `before` and `after` are the lines around the first label.
pub file_list_page-label :
    (html : Bytes) (names before after : List Bytes)
    → NoLabel before
    → file_list_page html (some names) (before ++ (label ∷ after))
      ≡ ok (html ++ list_page names before after)
unfolding file_list_page
file_list_page-label html names before after h =
    rw (page_around-label (rows (file_vec names)) before after h)
      (ap (λ x. ok (html ++ x)) (list_page_lem names before after))

-- A template with no label: the page is never finished.
page_around-hangs :
    (middle : Bytes) (lines : List Bytes) → NoLabel lines → page_around middle lines ≡ fault hangs
unfolding page_around
page_around-hangs middle [] h = refl
page_around-hangs middle (line ∷ lines) h =
    rw (differs line h.0, page_around-hangs middle lines h.1)

abbrev pub StartsDigit : Bytes → Type 0
StartsDigit [] = ⊥
StartsDigit (c ∷ s) = is_digit c ≡ true

StartsDigit-digits_onto :
    (f n : ℕ) (acc : Bytes) → StartsDigit acc → StartsDigit (digits_onto f n acc)
unfolding digits_onto
StartsDigit-digits_onto zero n acc h = h
StartsDigit-digits_onto (suc f) n acc h = elim (Bool-cases (ltb n 10)) [
  | inl small ↦ rw small (ground arith)
  | inr large ↦ rw large (StartsDigit-digits_onto f (n / 10) ((b'0' + n % 10) ∷ acc) (ground arith))
]

pub StartsDigit-to_string : (n : ℕ) → StartsDigit (to_string n)
unfolding to_string digits_onto
StartsDigit-to_string n = elim (Bool-cases (ltb n 10)) [
  | inl small ↦ rw small (ground arith)
  | inr large ↦ rw large (StartsDigit-digits_onto 19 (n / 10) ((b'0' + n % 10) ∷ []) (ground arith))
]

digits_from-digit :
    (a b c : ℕ) (acc : Bytes)
    → is_digit c ≡ true
    → a * 10 + (c - b'0') ≡ b
    → digits_from a (c ∷ acc) ≡ digits_from b acc
unfolding digits_from
digits_from-digit a b c acc h e = rw h (ap (λ k. digits_from k acc) e)

digits_from-digits_onto :
    (f n : ℕ) (acc : Bytes) → n < 10 ^ f → digits_from 0 (digits_onto f n acc) ≡ digits_from n acc
unfolding digits_onto
digits_from-digits_onto zero n acc h =
    ap (λ k. digits_from k acc) (let e : 0 ≡ n = omega arith in e)
digits_from-digits_onto (suc f) n acc h = elim (Bool-cases (ltb n 10)) [
  | inl small ↦ rw small (digits_from-digit 0 n (b'0' + n) acc (ground arith) (omega arith))
  | inr large ↦ rw large (
      digits_from-digits_onto f (n / 10) _ (omega (arith, pow-suc 10 f))
      ∙ digits_from-digit (n / 10) n (b'0' + n % 10) acc (ground arith) (omega arith))
]

stoll-digits : (s : Bytes) → StartsDigit s → stoll s ≡ digits false s
unfolding stoll skip_space is_space
stoll-digits [] h = absurd h
stoll-digits (c ∷ s) h = ground arith

digits-small :
    (s : Bytes) (n : ℕ)
    → StartsDigit s
    → digits_from 0 s ≡ n
    → n < 2 ^ 63
    → digits false s ≡ ok (pos n)
unfolding digits
digits-small [] n h e small = absurd h
digits-small (c ∷ s) n h e small = rw (h, e, lt→ltb n (2 ^ 63) small)

digits_from-to_string : (n : ℕ) → n < 2 ^ 63 → digits_from 0 (to_string n) ≡ n
unfolding to_string digits_from
digits_from-to_string n small = digits_from-digits_onto 20 n [] (omega arith)

-- `std::stoll`, by which the server reads a Content-Length, gives back every number below 2 ^ 63 that
-- `std::to_string` writes into one.
pub stoll-to_string : (n : ℕ) → n < 2 ^ 63 → stoll (to_string n) ≡ ok (pos n)
stoll-to_string n small =
    stoll-digits (to_string n) (StartsDigit-to_string n)
    ∙ digits-small (to_string n) n (StartsDigit-to_string n) (digits_from-to_string n small) small
