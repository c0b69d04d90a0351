-- ===== src/Recv/ParseLaws.antt =====
-- `HandleRecv::process` up to the body: the same bytes in one receipt and in two.
use cherokee.Base.{
  ℕ, zero, suc, ◌+◌, ◌<◌, true, false, ◌++◌, none, some, ◌≡◌, ◌≢◌, refl, sym, ap, ap₂, ◌∙◌, arith,
  length, drop, length-append, append_assoc, drop-append_of_le, take-append_of_le, inl, inr, ◌⊎◌,
  Bool-cases, Option-cases,
}
use cherokee.Fault.{Result, ok, fault, ◌>>=◌, bind-ext, bind_assoc}
use cherokee.Message.{MsgStatus, handle_init, handle_head, Request}
use cherokee.Message.Header.{add_header_opt, set_request_line}
use cherokee.Message.HeaderLaws.{with_recv, add_header_opt-with_recv, set_request_line-with_recv}
use cherokee.Recv.Parse.{is_multipart, take_line, take_head, head_loop, end_head, parse, line_at}
use cherokee.Text.{Bytes, crlf, equal, find}
use cherokee.Text.Find.{find-append, find-bounds}
use cherokee.Recv.HeadLoop.{
  more, line_of, cut, loop-none, loop-end, loop-line, cut-lt, recv_msg-add_header_opt,
  status-add_header_opt, take_head-body, take_head-head,
}

-- The same line is cut off when more bytes stand behind it.
module _ (t : Bytes) (r : Request) (i : ℕ) (e : find crlf r.recv_msg ≡ some i) where
  find-more : find crlf (more t r).recv_msg ≡ some i
  find-more = find-append crlf r.recv_msg t i e

  line_of-more : line_of i (more t r) ≡ line_of i r
  line_of-more = take-append_of_le (i + 2) r.recv_msg t (find-bounds crlf r.recv_msg i e)

  cut-more : cut i (more t r) ≡ more t (cut i r)
  cut-more =
      ap (λ x. with_recv x r)
        (drop-append_of_le (i + 2) r.recv_msg t (find-bounds crlf r.recv_msg i e))

  more-end :
      (f g : ℕ)
      → equal (line_of i r) crlf ≡ true
      → head_loop (suc g) (more t r) ≡ (head_loop (suc f) r >>= λ r'. take_head (more t r'))
  unfolding is_multipart
  more-end f g h =
      loop-end g (more t r) i find-more (ap (λ x. equal x crlf) line_of-more ∙ h)
      ∙ ap (λ x. ok (end_head x)) cut-more
      ∙ sym (take_head-body (more t (end_head (cut i r))) (λ x. cc))
      ∙ ap (λ m. m >>= λ r'. take_head (more t r')) (sym (loop-end f r i e h))

  -- One line in both readings, and the rest by induction.
  more-line :
      (f g : ℕ)
      → equal (line_of i r) crlf ≡ false
      → ((r' : Request)
          → add_header_opt (cut i r) (line_of i r) ≡ ok r'
          → head_loop g (more t r') ≡ (head_loop f r' >>= λ x. take_head (more t x)))
      → head_loop (suc g) (more t r) ≡ (head_loop (suc f) r >>= λ r'. take_head (more t r'))
  more-line f g h ih =
      let line = line_of i r in
      let first = add_header_opt (cut i r) line in
      loop-line g (more t r) i find-more (ap (λ x. equal x crlf) line_of-more ∙ h)
      ∙ ap₂ (λ x l. add_header_opt x l >>= λ r'. head_loop g r') cut-more line_of-more
      ∙ ap (λ m. m >>= λ r'. head_loop g r') (add_header_opt-with_recv line _ (cut i r))
      ∙ bind_assoc first _ _
      ∙ bind-ext first _ (λ r'. head_loop f r' >>= λ x. take_head (more t x))
          (λ r' k.
            ap (λ x. head_loop g (with_recv (x ++ t) r'))
              (sym (recv_msg-add_header_opt line (cut i r) r' k))
            ∙ ih r' k)
      ∙ sym (bind_assoc first (λ r'. head_loop f r') (λ x. take_head (more t x)))
      ∙ ap (λ m. m >>= λ x. take_head (more t x)) (sym (loop-line f r i e h))

-- A header read in two pieces: what the first leaves is read with the second behind it.
head_loop-more :
    (f g : ℕ) (t : Bytes) (r : Request)
    → r.status ≡ handle_head
    → length r.recv_msg < f
    → length (r.recv_msg ++ t) < g
    → head_loop g (more t r) ≡ (head_loop f r >>= λ r'. take_head (more t r'))
head_loop-more zero g t r st p q = absurd (omega arith)
head_loop-more (suc f) zero t r st p q = absurd (omega arith)
head_loop-more (suc f) (suc g) t r st p q = elim (Option-cases (find crlf r.recv_msg)) [
  | inl e ↦ sym (take_head-head (suc g) (more t r) st q) ∙ rw (loop-none f r e)
  | inr (i, e) ↦ elim (Bool-cases (equal (line_of i r) crlf)) [
    | inl h ↦ more-end t r i e f g h
    | inr h ↦ more-line t r i e f g h (λ r' k.
        let left = ap length (recv_msg-add_header_opt _ _ r' k) in
        let fewer = cut-lt i r e in
        let both = length-append r.recv_msg t in
        let both' = length-append r'.recv_msg t in
        head_loop-more f g t r' (status-add_header_opt _ _ r' k ∙ st) (omega arith) (omega arith))
  ]
]

pub status-cases : (m n : MsgStatus) → (m ≡ n) ⊎ (m ≢ n)
status-cases m n = ground arith

take_head-more :
    (t : Bytes) (r : Request) → take_head (more t r) ≡ (take_head r >>= λ r'. take_head (more t r'))
take_head-more t r = elim (status-cases r.status handle_head) [
  | inl st ↦
      let f = suc (length r.recv_msg) in
      let g = suc (length (r.recv_msg ++ t)) in
      take_head-head g (more t r) st (omega arith)
      ∙ head_loop-more f g t r st (omega arith) (omega arith)
      ∙ ap (λ m. m >>= λ r'. take_head (more t r')) (sym (take_head-head f r st (omega arith)))
  | inr other ↦ rw (take_head-body r other)
]

take_line-started : (r : Request) → r.status ≢ handle_init → take_line r ≡ r
unfolding take_line line_at
take_line-started r h = ground arith

take_line-none :
    (r : Request) → r.status ≡ handle_init → find crlf r.recv_msg ≡ none → take_line r ≡ r
unfolding take_line line_at
take_line-none r st e = ap (λ m. line_at m r) st ∙ rw (e, line_at)

started : ℕ → Request → Request
started i r = record (set_request_line r (line_of i r)) {
  status = handle_head;
  recv_msg = drop (i + 2) r.recv_msg;
}

take_line-some :
    (r : Request) (i : ℕ)
    → r.status ≡ handle_init
    → find crlf r.recv_msg ≡ some i
    → take_line r ≡ started i r
unfolding take_line line_at started
take_line-some r i st e = ap (λ m. line_at m r) st ∙ rw (e, line_at)

started-more :
    (t : Bytes) (r : Request) (i : ℕ)
    → find crlf r.recv_msg ≡ some i
    → started i (more t r) ≡ more t (started i r)
unfolding started
started-more t r i e =
    let begin_head = λ (x : Request) (d : Bytes). record x { status = handle_head; recv_msg = d } in
    ap₂ (λ l d. begin_head (set_request_line (more t r) l) d) (line_of-more t r i e)
      (drop-append_of_le (i + 2) r.recv_msg t (find-bounds crlf r.recv_msg i e))
    ∙ ap (λ x. begin_head x (drop (i + 2) r.recv_msg ++ t))
        (set_request_line-with_recv (line_of i r) (r.recv_msg ++ t) r)

take_line-more : (t : Bytes) (r : Request) → take_line (more t r) ≡ take_line (more t (take_line r))
take_line-more t r = elim (status-cases r.status handle_init) [
  | inl st ↦ elim (Option-cases (find crlf r.recv_msg)) [
    | inl e ↦ ap (λ x. take_line (more t x)) (sym (take_line-none r st e))
    | inr (i, e) ↦
        take_line-some (more t r) i st (find-more t r i e)
        ∙ started-more t r i e
        ∙ sym (take_line-started (more t (started i r)) (unfold started in λ x. cc))
        ∙ ap (λ x. take_line (more t x)) (sym (take_line-some r i st e))
  ]
  | inr other ↦ ap (λ x. take_line (more t x)) (sym (take_line-started r other))
]

-- A header that is read has been begun.
abbrev IsStarted : Result Request → Type 0
IsStarted (ok r) = r.status ≢ handle_init
IsStarted (fault e) = Unit {0}

IsStarted-bind :
    (m : Result Request) (f : Request → Result Request)
    → ((r : Request) → m ≡ ok r → IsStarted (f r))
    → IsStarted (m >>= f)
IsStarted-bind (ok r) f h = h r refl
IsStarted-bind (fault e) f h = tt

head_loop-IsStarted : (f : ℕ) (r : Request) → r.status ≡ handle_head → IsStarted (head_loop f r)
unfolding head_loop
head_loop-IsStarted zero r st = tt
head_loop-IsStarted (suc f) r st = elim (Option-cases (find crlf r.recv_msg)) [
  | inl e ↦ rw (loop-none f r e) (λ x. cc)
  | inr (i, e) ↦ elim (Bool-cases (equal (line_of i r) crlf)) [
    | inl h ↦ rw (loop-end f r i e h) (λ x. cc)
    | inr h ↦ rw (loop-line f r i e h) (
        IsStarted-bind _ (λ r'. head_loop f r')
          (λ r' k. head_loop-IsStarted f r' (status-add_header_opt _ _ r' k ∙ st)))
  ]
]

take_head-IsStarted : (r : Request) → r.status ≢ handle_init → IsStarted (take_head r)
take_head-IsStarted r h = elim (status-cases r.status handle_head) [
  | inl st ↦
      rw (take_head-head (suc (length r.recv_msg)) r st (omega arith)) (head_loop-IsStarted _ r st)
  | inr other ↦ rw (take_head-body r other) h
]

take_head-take_line-more :
    (y : Bytes) (l : Request)
    → take_head (take_line (more y l)) ≡ (take_head l >>= λ r'. take_head (take_line (more y r')))
take_head-take_line-more y l = elim (status-cases l.status handle_init) [
  | inl st ↦ rw (take_head-body l (λ x. cc))
  | inr begun ↦
      ap take_head (take_line-started (more y l) begun)
      ∙ take_head-more y l
      ∙ bind-ext (take_head l) _ _ (λ r' k.
        ap take_head (sym (take_line-started (more y r') (rw k at (take_head-IsStarted l begun)))))
]

-- Reading bytes in two receipts, wherever they are cut, is reading them in one: the same request,
-- with the same bytes still waiting, or the same fault.
pub parse-append : (r : Request) (x y : Bytes) → parse r (x ++ y) ≡ (parse r x >>= λ r'. parse r' y)
unfolding parse
parse-append r x y =
    ap (λ t. take_head (take_line (with_recv t r))) (sym (append_assoc r.recv_msg x y))
    ∙ ap take_head (take_line-more y (more x r))
    ∙ take_head-take_line-more y (take_line (more x r))
