-- ===== src/Recv/PartHead.antt =====
-- The head of the part that holds an uploaded file: the line of the boundary, and the header that
-- names the file.
use cherokee.Base.{
  ℕ, zero, suc, ◌+◌, ◌<◌, ◌≤◌, false, List, [], ◌∷◌, ◌++◌, none, some, ◌≡◌, ◌≢◌, refl, sym, ap, ap₂,
  ◌∙◌, arith, ◌==◌, append_assoc, append-nil, length, length-append, drop,
}
use cherokee.Fault.{Result, ok, ◌>>=◌}
use cherokee.Message.{Request, file_content}
use cherokee.Recv.FileHead.{file_line, file_head_loop, read_name, remove_spaces, take_file_head}
use cherokee.Recv.RequestText.{NoSpace, IsPlain, find-crlf}
use cherokee.Recv.RoundTrip.{take-line, drop-line}
use cherokee.Text.{Bytes, codes, crlf, equal, equal_self, find}

abbrev pub NoQuote : Bytes → Type 0
NoQuote [] = Unit
NoQuote (c ∷ s) = ((c == b'"') ≡ false) × NoQuote s

-- The line names this file, between quotes.
abbrev pub Names : Bytes → Bytes → Type 0
Names line name =
    (i : ℕ) × (rest : Bytes) × (find (codes "filename") (line ++ crlf) ≡ some i)
    × (drop (i + 10) (line ++ crlf) ≡ name ++ (b'"' ∷ rest))

-- Another line of the header.
abbrev pub IsOther : Bytes → Type 0
IsOther line = IsPlain line × (line ≢ []) × (find (codes "filename") (line ++ crlf) ≡ none)

abbrev pub AreOther : List Bytes → Type 0
AreOther [] = Unit
AreOther (line ∷ lines) = IsOther line × AreOther lines

-- Lines, the empty one, and what is behind it.
abbrev pub lines_of : List Bytes → Bytes → Bytes
lines_of [] rest = 13 ∷ (10 ∷ rest)
lines_of (line ∷ lines) rest = line ++ (13 ∷ (10 ∷ lines_of lines rest))

read_name-NoQuote :
    (acc name rest : Bytes)
    → NoQuote name
    → read_name acc (name ++ (b'"' ∷ rest)) ≡ ok (acc ++ name)
unfolding read_name
read_name-NoQuote acc [] rest h = ap ok (sym (append-nil acc))
read_name-NoQuote acc (c ∷ name) rest (p, h) =
    rw p (read_name-NoQuote (acc ++ c ∷ []) name rest h ∙ ap ok (append_assoc acc (c ∷ []) name))

remove_spaces-NoSpace : (name : Bytes) → NoSpace name → remove_spaces name ≡ name
unfolding remove_spaces
remove_spaces-NoSpace [] h = refl
remove_spaces-NoSpace (c ∷ name) (p, h) = rw p (ap (λ x. c ∷ x) (remove_spaces-NoSpace name h))

file_line-Names :
    (r : Request) (line name : Bytes)
    → Names line name
    → NoQuote name
    → NoSpace name
    → r.recv_file_name ≡ []
    → file_line r (line ++ crlf) ≡ ok (record r { recv_file_name = name })
unfolding file_line
file_line-Names r line name (i, rest, at, is) q n new =
    rw (at, file_line)
      (ap (λ (m : Result Bytes). m >>= λ x. ok (record r { recv_file_name = remove_spaces x }))
          (ap (read_name r.recv_file_name) is
            ∙ read_name-NoQuote r.recv_file_name name rest q
            ∙ ap (λ x. ok (x ++ name)) new)
        ∙ ap (λ x. ok (record r { recv_file_name = x })) (remove_spaces-NoSpace name n))

not_crlf : (line : Bytes) → IsPlain line → line ≢ [] → equal (line ++ crlf) crlf ≡ false
unfolding equal
not_crlf [] h ne = absurd (ne refl)
not_crlf (c ∷ line) (p, n, h) ne = ground arith

abbrev pub waiting : Bytes → Request → Request
waiting t r = record r { recv_msg = t }

-- A line that is not the last.
loop-line :
    (f : ℕ) (r : Request) (line tail : Bytes)
    → IsPlain line
    → line ≢ []
    → file_head_loop (suc f) (waiting (line ++ (13 ∷ (10 ∷ tail))) r)
      ≡ (file_line (waiting tail r) (line ++ crlf) >>= λ r'. file_head_loop f r')
unfolding file_head_loop
loop-line f r line tail h ne =
    rw (find-crlf line tail h, file_head_loop)
      (rw (ap (λ x. equal x crlf) (take-line line tail) ∙ not_crlf line h ne, file_head_loop)
        (ap₂ (λ x y. file_line (waiting y r) x >>= λ r'. file_head_loop f r') (take-line line tail)
          (drop-line line tail)))

loop-others :
    (f : ℕ) (r : Request) (lines : List Bytes) (rest : Bytes)
    → AreOther lines
    → length lines < f
    → file_head_loop f (waiting (lines_of lines rest) r)
      ≡ ok (record r { recv_msg = rest; file_msg_status = file_content })
unfolding file_head_loop file_line
loop-others zero r lines rest h lt = absurd (omega arith)
loop-others (suc f) r [] rest h lt =
    rw (find-crlf [] rest tt, file_head_loop) (rw (equal_self crlf, file_head_loop) refl)
loop-others (suc f) r (line ∷ lines) rest ((p, ne, unnamed), h) lt =
    loop-line f r line (lines_of lines rest) p ne
    ∙ rw (unnamed, file_line) (loop-others f r lines rest h (omega arith))

length-lines_of :
    (lines : List Bytes) (rest : Bytes) → length lines + 2 ≤ length (lines_of lines rest)
length-lines_of [] rest = omega arith
length-lines_of (line ∷ lines) rest =
    omega (arith, length-lines_of lines rest, length-append line (13 ∷ (10 ∷ lines_of lines rest)))

-- The line of the boundary, the line that names the file, the other lines, the empty one, and what is
-- behind it.
abbrev pub part_head : Bytes → Bytes → List Bytes → Bytes → Bytes
part_head b line others early =
    (b'-' ∷ (b'-' ∷ b)) ++ (13 ∷ (10 ∷ (line ++ (13 ∷ (10 ∷ lines_of others early)))))

pub take_file_head-Names :
    (r : Request) (line name : Bytes) (others : List Bytes) (early : Bytes)
    → IsPlain line
    → line ≢ []
    → Names line name
    → NoQuote name
    → NoSpace name
    → AreOther others
    → r.recv_file_name ≡ []
    → take_file_head (waiting (line ++ (13 ∷ (10 ∷ lines_of others early))) r)
      ≡ ok (record r { recv_msg = early; file_msg_status = file_content; recv_file_name = name })
unfolding take_file_head
take_file_head-Names r line name others early plain ne names q n h new =
    let tail = lines_of others early in
    let size = length (line ++ (13 ∷ (10 ∷ tail))) in
    loop-line size r line tail plain ne
    ∙ ap (λ m. m >>= λ r'. file_head_loop size r')
        (file_line-Names (waiting tail r) line name names q n new)
    ∙ loop-others size (record r { recv_file_name = name }) others early h
        (omega (arith, length-lines_of others early, length-append line (13 ∷ (10 ∷ tail))))
