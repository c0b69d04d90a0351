-- ===== src/Recv/HeadLoop.antt =====
-- The loop over the lines of the header: what a round does, and that its rounds are enough.
use cherokee.Base.{
  ℕ, zero, suc, ◌+◌, ◌<◌, true, false, [], ◌++◌, none, some, ◌≡◌, ◌≢◌, sym, ap, ◌∙◌, arith, length,
  take, drop, length-drop, inl, inr, Bool-cases, Option-cases,
}
use cherokee.Fault.{Result, ok, fault, ◌>>=◌, bind-ext}
use cherokee.Message.{handle_head, Request}
use cherokee.Message.Header.{add_header_opt}
use cherokee.Message.HeaderLaws.{with_recv, add_header_opt-with_recv, add_header_opt-SameStatus}
use cherokee.Recv.Parse.{take_head, head_loop, end_head, head_at}
use cherokee.Text.{Bytes, crlf, equal, find}
use cherokee.Text.Find.{find-bounds}

-- More bytes behind those that are waiting.
abbrev pub more : Bytes → Request → Request
more t r = with_recv (r.recv_msg ++ t) r

-- The line that ends at `i + 2`, and the request without it.
abbrev pub line_of : ℕ → Request → Bytes
line_of i r = take (i + 2) r.recv_msg

abbrev pub cut : ℕ → Request → Request
cut i r = with_recv (drop (i + 2) r.recv_msg) r

module _ (f : ℕ) (r : Request) where
  pub loop-none : find crlf r.recv_msg ≡ none → head_loop (suc f) r ≡ ok r
  unfolding head_loop
  loop-none e = rw (e, head_loop)

  module _ (i : ℕ) (e : find crlf r.recv_msg ≡ some i) where
    pub loop-end : equal (line_of i r) crlf ≡ true → head_loop (suc f) r ≡ ok (end_head (cut i r))
    unfolding head_loop
    loop-end h = rw (e, head_loop) (rw (h, head_loop))

    pub loop-line :
        equal (line_of i r) crlf ≡ false
        → head_loop (suc f) r ≡ (add_header_opt (cut i r) (line_of i r) >>= λ r'. head_loop f r')
    unfolding head_loop
    loop-line h = rw (e, head_loop) (rw (h, head_loop))

-- A round that takes a line leaves fewer bytes.
pub cut-lt :
    (i : ℕ) (r : Request)
    → find crlf r.recv_msg ≡ some i
    → length (cut i r).recv_msg < length r.recv_msg
cut-lt i r e = omega (arith, find-bounds crlf r.recv_msg i e, length-drop (i + 2) r.recv_msg)

abbrev pub recv_of : Result Request → Bytes
recv_of (ok r) = r.recv_msg
recv_of (fault e) = []

-- The header line leaves the bytes that wait, and the status.
pub recv_msg-add_header_opt :
    (line : Bytes) (r r' : Request) → add_header_opt r line ≡ ok r' → r'.recv_msg ≡ r.recv_msg
recv_msg-add_header_opt line r r' e = ap recv_of (
    sym e
    ∙ add_header_opt-with_recv line r.recv_msg r
    ∙ ap (λ (m : Result Request). m >>= λ x. ok (with_recv r.recv_msg x)) e)

pub status-add_header_opt :
    (line : Bytes) (r r' : Request) → add_header_opt r line ≡ ok r' → r'.status ≡ r.status
status-add_header_opt line r r' e = rw e at (add_header_opt-SameStatus line r)

-- Rounds enough give one result.
head_loop_fuel :
    (f g : ℕ) (r : Request)
    → length r.recv_msg < f
    → length r.recv_msg < g
    → head_loop f r ≡ head_loop g r
head_loop_fuel zero g r p q = absurd (omega arith)
head_loop_fuel (suc f) zero r p q = absurd (omega arith)
head_loop_fuel (suc f) (suc g) r p q = elim (Option-cases (find crlf r.recv_msg)) [
  | inl e ↦ loop-none f r e ∙ sym (loop-none g r e)
  | inr (i, e) ↦ elim (Bool-cases (equal (line_of i r) crlf)) [
    | inl h ↦ loop-end f r i e h ∙ sym (loop-end g r i e h)
    | inr h ↦
        loop-line f r i e h
        ∙ bind-ext (add_header_opt (cut i r) (line_of i r)) _ _ (λ r' k.
          let left = ap length (recv_msg-add_header_opt _ _ r' k) in
          let fewer = cut-lt i r e in head_loop_fuel f g r' (omega arith) (omega arith))
        ∙ sym (loop-line g r i e h)
  ]
]

pub take_head-body : (r : Request) → r.status ≢ handle_head → take_head r ≡ ok r
unfolding take_head head_at
take_head-body r h = ground arith

pub take_head-head :
    (f : ℕ) (r : Request)
    → r.status ≡ handle_head
    → length r.recv_msg < f
    → take_head r ≡ head_loop f r
unfolding take_head head_at
take_head-head f r h p = ap (λ st. head_at st r) h ∙ head_loop_fuel _ f r (omega arith) p
