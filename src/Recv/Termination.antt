-- ===== src/Recv/Termination.antt =====
-- The rounds of the inner loops of `HandleRecv::process`.
use cherokee.Base.{
  ℕ, zero, suc, ◌<◌, [], ◌∷◌, ◌++◌, ◌==◌, ◌≡◌, refl, sym, ap, arith, inl, inr, Option-cases,
  Bool-cases, length, take, drop, length-drop,
}
use cherokee.Fault.{Fault, out_of_fuel, Result, ok, fault, ◌>>=◌}
use cherokee.Message.{
  MsgStatus, handle_init, handle_head, handle_body, handle_complete, handle_error, Request,
}
use cherokee.Message.Header.{stoll, digits, substr, add_content_type, set_option, add_header_opt}
use cherokee.Recv.Content.{
  Save, drained, cut_off, ended, write, refused, next_save, save_loop, save_content,
}
use cherokee.Recv.FileHead.{remove_spaces, read_name, file_line, file_head_loop, take_file_head}
use cherokee.Recv.HeadLoop.{
  line_of, cut, recv_of, cut-lt, loop-none, loop-end, loop-line, recv_msg-add_header_opt,
}
use cherokee.Recv.Parse.{head_loop, head_at, take_line, take_head, parse}
use cherokee.Recv.SaveRound.{next_save-Writes}
use cherokee.Text.{Bytes, codes, crlf, equal, find, read_token}

abbrev pub Fine : Fault → Type 0
Fine out_of_fuel = ⊥
Fine e = Unit

abbrev pub Halts {ℓ} : {A : Type ℓ} → Result A → Type 0
Halts (ok a) = Unit
Halts (fault e) = Fine e

bind-Halts {ℓ κ} :
    {A : Type ℓ} {B : Type κ} (m : Result A) (f : A → Result B)
    → Halts m
    → ((a : A) → m ≡ ok a → Halts (f a))
    → Halts (m >>= f)
bind-Halts (ok a) f h k = k a refl
bind-Halts (fault e) f h k = h

digits-Halts : (b : _) (s : Bytes) → Halts (digits b s)
unfolding digits
digits-Halts b [] = tt
digits-Halts b (c ∷ s) = ground arith

stoll-Halts : (s : Bytes) → Halts (stoll s)
unfolding stoll
stoll-Halts s = grind (arith, digits-Halts)

add_content_type-Halts : (r : Request) (k v : Bytes) → Halts (add_content_type r k v)
unfolding add_content_type substr
add_content_type-Halts r k v = ground arith

set_option-Halts : (r : Request) (k v : Bytes) → Halts (set_option r k v)
unfolding set_option
set_option-Halts r k v = elim (Bool-cases (equal k (codes "Content-Length"))) [
  | inl e ↦ rw e (bind-Halts (stoll v) _ (stoll-Halts v) (λ n h. tt))
  | inr e ↦ rw e (elim (Bool-cases (equal k (codes "Content-Type"))) [
    | inl e' ↦ rw e' (add_content_type-Halts r k v)
    | inr e' ↦ rw e' tt
  ])
]

add_header_opt-Halts : (r : Request) (line : Bytes) → Halts (add_header_opt r line)
unfolding add_header_opt
add_header_opt-Halts r line = elim (Option-cases (read_token line)) [
  | inl e ↦ rw (e, add_header_opt) tt
  | inr ((key, rest), e) ↦ rw (e, add_header_opt) (set_option-Halts r _ _)
]

head_loop-Halts : (f : ℕ) (r : Request) → length r.recv_msg < f → Halts (head_loop f r)
head_loop-Halts zero r h = absurd (omega arith)
head_loop-Halts (suc f) r h = elim (Option-cases (find crlf r.recv_msg)) [
  | inl e ↦ rw (loop-none f r e) tt
  | inr (i, e) ↦ elim (Bool-cases (equal (line_of i r) crlf)) [
    | inl same ↦ rw (loop-end f r i e same) tt
    | inr other ↦ rw (loop-line f r i e other) (
        bind-Halts (add_header_opt (cut i r) (line_of i r)) _ (add_header_opt-Halts _ _) (λ r' k.
          let left = ap length (recv_msg-add_header_opt _ _ r' k) in
          head_loop-Halts f r' (omega (arith, left, cut-lt i r e))))
  ]
]

read_name-Halts : (name s : Bytes) → Halts (read_name name s)
unfolding read_name
read_name-Halts name [] = tt
read_name-Halts name (c ∷ s) = elim (Bool-cases (c == b'"')) [
  | inl e ↦ rw e tt
  | inr e ↦ rw e (read_name-Halts (name ++ c ∷ []) s)
]

-- A line of the file's header is worked off without a loop on the bytes that wait.
abbrev Leaves : Request → Result Request → Type 0
Leaves r m = Halts m × ((r' : Request) → m ≡ ok r' → r'.recv_msg ≡ r.recv_msg)

named-Leaves :
    (r : Request) (m : Result Bytes)
    → Halts m
    → Leaves r (m >>= λ name. ok (record r { recv_file_name = remove_spaces name }))
named-Leaves r (ok a) h = (tt, λ r' e. ap recv_of (sym e))
named-Leaves r (fault x) h = (h, λ r' e. cc)

file_line-Leaves : (r : Request) (line : Bytes) → Leaves r (file_line r line)
unfolding file_line
file_line-Leaves r line = elim (Option-cases (find (codes "filename") line)) [
  | inl e ↦ rw (e, file_line) (tt, λ r' k. ap recv_of (sym k))
  | inr (i, e) ↦ rw (e, file_line) (named-Leaves r _ (read_name-Halts _ _))
]

file_head_loop-Halts : (f : ℕ) (r : Request) → length r.recv_msg < f → Halts (file_head_loop f r)
unfolding file_head_loop
file_head_loop-Halts zero r h = absurd (omega arith)
file_head_loop-Halts (suc f) r h = elim (Option-cases (find crlf r.recv_msg)) [
  | inl e ↦ rw (e, file_head_loop) tt
  | inr (i, e) ↦ elim (Bool-cases (equal (line_of i r) crlf)) [
    | inl same ↦ rw (e, file_head_loop) (rw (same, file_head_loop) tt)
    | inr other ↦
        let (fine, same_msg) = file_line-Leaves (cut i r) (line_of i r) in
        rw (e, file_head_loop)
          (rw (other, file_head_loop)
            (bind-Halts (file_line (cut i r) (line_of i r)) _ fine (λ r' k.
              file_head_loop-Halts f r' (omega (arith, ap length (same_msg r' k), cut-lt i r e)))))
  ]
]

save_loop-Halts :
    (f : ℕ) (b written buf : Bytes)
    → length buf < f
    → (s : Save) → next_save b buf ≡ s
    → Halts (save_loop f b written buf)
unfolding save_loop
save_loop-Halts zero b written buf h s e = absurd (omega arith)
save_loop-Halts (suc f) b written buf h drained e = rw (e, save_loop) tt
save_loop-Halts (suc f) b written buf h cut_off e = rw (e, save_loop) tt
save_loop-Halts (suc f) b written buf h ended e = rw (e, save_loop) tt
save_loop-Halts (suc f) b written buf h refused e = rw (e, save_loop) tt
save_loop-Halts (suc f) b written buf h (write n) e =
    let w = next_save-Writes b buf n e in
    rw (e, save_loop)
      (save_loop-Halts f b (written ++ take n buf) (drop n buf)
        (omega (arith, length-drop n buf, w.some_byte, w.inside)) _ refl)

pub take_file_head-Halts : (r : Request) → Halts (take_file_head r)
unfolding take_file_head
take_file_head-Halts r = file_head_loop-Halts _ r (omega arith)

pub save_content-Halts : (b buf : Bytes) → Halts (save_content b buf)
unfolding save_content
save_content-Halts b buf = save_loop-Halts _ b [] buf (omega arith) _ refl

head_at-Halts : (st : MsgStatus) (r : Request) → Halts (head_at st r)
unfolding head_at
head_at-Halts handle_head r = head_loop-Halts _ r (omega arith)
head_at-Halts handle_init r = tt
head_at-Halts handle_body r = tt
head_at-Halts handle_complete r = tt
head_at-Halts handle_error r = tt

take_head-Halts : (r : Request) → Halts (take_head r)
unfolding take_head
take_head-Halts r = head_at-Halts r.status r

pub parse-Halts : (r : Request) (chunk : Bytes) → Halts (parse r chunk)
unfolding parse
parse-Halts r chunk = take_head-Halts (take_line (record r { recv_msg = r.recv_msg ++ chunk }))
