-- ===== src/Recv/Valid.antt =====
-- What an entry of `requestStatus` is between two calls.
use cherokee.Base.{
  ℕ, zero, suc, ◌+◌, ◌++◌, some, ◌≡◌, refl, sym, subst, ◌∙◌, inl, inr, ◌⊎◌, Option-cases,
  Bool-cases, take,
}
use cherokee.Fault.{Result, ok, fault, ◌>>=◌}
use cherokee.Message.{
  MsgStatus, handle_init, handle_head, handle_body, handle_complete, handle_error, file_begin_flag,
  Request,
}
use cherokee.Message.Header.{add_header_opt}
use cherokee.Message.HeaderLaws.{
  SameFile, add_header_opt-SameFile, SameStatus, add_header_opt-SameStatus,
  file_msg_status-set_request_line,
}
use cherokee.Recv.{boundary_of}
use cherokee.Recv.HeadLoop.{line_of, cut, loop-none, loop-end, loop-line}
use cherokee.Recv.Parse.{
  is_multipart, line_at, take_line, head_loop, head_at, take_head, parse, end_head,
}
use cherokee.Text.{Bytes, crlf, equal, find}

-- An upload whose first boundary line has been read has the boundary among its headers.
abbrev pub HasBoundary : Request → Type 0
HasBoundary r = (r.file_msg_status ≡ file_begin_flag) ⊎ ((b : Bytes) × (boundary_of r ≡ some b))

-- No upload has begun before the header is complete, and no request in the map is complete.
abbrev pub IsKeptAt : MsgStatus → Request → Type 0
IsKeptAt handle_init r = r.file_msg_status ≡ file_begin_flag
IsKeptAt handle_head r = r.file_msg_status ≡ file_begin_flag
IsKeptAt handle_body r = HasBoundary r
IsKeptAt handle_error r = HasBoundary r
IsKeptAt handle_complete r = ⊥

abbrev pub IsKept : Request → Type 0
IsKept r = IsKeptAt r.status r

abbrev pub KeptOk : Result Request → Type 0
KeptOk (ok r) = IsKept r
KeptOk (fault e) = Unit

bind-KeptOk :
    (r : Request) (m : Result Request) (f : Request → Result Request)
    → SameFile r m
    → SameStatus r m
    → ((r' : Request)
        → r'.file_msg_status ≡ r.file_msg_status
        → r'.status ≡ r.status
        → KeptOk (f r'))
    → KeptOk (m >>= f)
bind-KeptOk r (ok r') f a b h = h r' a b
bind-KeptOk r (fault e) f a b h = tt

end_head-IsKept : (r : Request) → r.file_msg_status ≡ file_begin_flag → IsKept (end_head r)
end_head-IsKept r h = elim (Bool-cases (is_multipart r)) [
  | inl m ↦ inl (rw m refl)
  | inr n ↦ inl (rw n h)
]

head_loop-KeptOk :
    (f : ℕ) (r : Request)
    → r.status ≡ handle_head
    → r.file_msg_status ≡ file_begin_flag
    → KeptOk (head_loop f r)
unfolding head_loop
head_loop-KeptOk zero r st h = tt
head_loop-KeptOk (suc f) r st h = elim (Option-cases (find crlf r.recv_msg)) [
  | inl e ↦ subst KeptOk (sym (loop-none f r e)) (rw st h)
  | inr (i, e) ↦ elim (Bool-cases (equal (line_of i r) crlf)) [
    | inl same ↦ subst KeptOk (sym (loop-end f r i e same)) (end_head-IsKept (cut i r) h)
    | inr other ↦ subst KeptOk (sym (loop-line f r i e other)) (
        bind-KeptOk (cut i r) (add_header_opt (cut i r) (line_of i r)) (head_loop f)
          (add_header_opt-SameFile (line_of i r) (cut i r))
          (add_header_opt-SameStatus (line_of i r) (cut i r))
          (λ r' same_file same_status. head_loop-KeptOk f r' (same_status ∙ st) (same_file ∙ h)))
  ]
]

head_at-KeptOk :
    (st : MsgStatus) (r : Request) → r.status ≡ st → IsKeptAt st r → KeptOk (head_at st r)
unfolding head_at
head_at-KeptOk handle_head r e h = head_loop-KeptOk _ r e h
head_at-KeptOk handle_init r e h = rw e h
head_at-KeptOk handle_body r e h = rw e h
head_at-KeptOk handle_complete r e h = absurd h
head_at-KeptOk handle_error r e h = rw e h

line_at-IsKept :
    (st : MsgStatus) (r : Request) → r.status ≡ st → IsKeptAt st r → IsKept (line_at st r)
unfolding line_at
line_at-IsKept handle_init r e h = elim (Option-cases (find crlf r.recv_msg)) [
  | inl none_yet ↦ rw (none_yet, line_at) (rw e h)
  | inr (i, at) ↦
      rw (at, line_at) (file_msg_status-set_request_line r (take (i + 2) r.recv_msg) ∙ h)
]
line_at-IsKept handle_head r e h = rw e h
line_at-IsKept handle_body r e h = rw e h
line_at-IsKept handle_complete r e h = absurd h
line_at-IsKept handle_error r e h = rw e h

more-IsKeptAt :
    (st : MsgStatus) (r : Request) (t : Bytes)
    → IsKeptAt st r
    → IsKeptAt st (record r { recv_msg = t })
more-IsKeptAt handle_init r t h = h
more-IsKeptAt handle_head r t h = h
more-IsKeptAt handle_body r t h = h
more-IsKeptAt handle_complete r t h = h
more-IsKeptAt handle_error r t h = h

pub parse-KeptOk : (r : Request) (chunk : Bytes) → IsKept r → KeptOk (parse r chunk)
unfolding parse take_head take_line
parse-KeptOk r chunk h =
    let r1 = record r { recv_msg = r.recv_msg ++ chunk } in
    let r2 = line_at r1.status r1 in
    let k2 : IsKept r2 =
      line_at-IsKept r1.status r1 refl (more-IsKeptAt r.status r r1.recv_msg h) in
    head_at-KeptOk r2.status r2 refl k2
