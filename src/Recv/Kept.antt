-- ===== src/Recv/Kept.antt =====
-- What a call of `HandleRecv::process` leaves in the two maps, by the invariant rule of its loop.
use cherokee.Base.{
  ℕ, zero, suc, ◌+◌, Option, none, some, ◌≡◌, ◌≢◌, refl, sym, subst, ap, ◌∙◌, inl, inr, ◌⊎◌,
  Option-cases, Bool-cases, List, drop, take,
}
use cherokee.Fault.{Result, ok, fault, ◌>>=◌}
use cherokee.Message.{
  MsgStatus, handle_init, handle_head, handle_body, handle_complete, handle_error, file_begin_flag,
  Request, Response, get_header,
}
use cherokee.Recv.{
  Setting, Conn, RecvEnd, closed, would_block, failed, on_end, saved_to, recv_loop, resp_of,
}
use cherokee.Recv.FileHead.{file_line, file_head_loop, take_file_head}
use cherokee.Recv.Rule.{OnOk, IsKeptBy, recv_loop-Holds}
use cherokee.Recv.Valid.{HasBoundary, IsKeptAt, IsKept, parse-KeptOk, KeptOk}
use cherokee.Send.Bounds.{InBoundsAt, InBounds}
use cherokee.Text.{Bytes, codes, crlf, equal, find}

-- The header of an uploaded file changes neither the status nor the headers of the request.
abbrev pub SameHead : Request → Request → Type 0
SameHead r r' = (r'.status ≡ r.status) × (r'.msg_header ≡ r.msg_header)

abbrev pub SameHeadOk : Request → Result Request → Type 0
SameHeadOk r (ok r') = SameHead r r'
SameHeadOk r (fault e) = Unit

bind-SameHeadOk :
    (r : Request) (m : Result Request) (f : Request → Result Request)
    → SameHeadOk r m
    → ((r' : Request) → SameHeadOk r' (f r'))
    → SameHeadOk r (m >>= f)
bind-SameHeadOk r (ok r') f (a, b) h = after (f r') (h r')
  where
    after : (m : Result Request) → SameHeadOk r' m → SameHeadOk r m
    after (ok r2) (c, d) = (c ∙ a, d ∙ b)
    after (fault e) k = tt
bind-SameHeadOk r (fault e) f a h = tt

named-SameHeadOk :
    (r : Request) (m : Result Bytes) (g : Bytes → Bytes)
    → SameHeadOk r (m >>= λ name. ok (record r { recv_file_name = g name }))
named-SameHeadOk r (ok name) g = (refl, refl)
named-SameHeadOk r (fault e) g = tt

file_line-SameHeadOk : (r : Request) (line : Bytes) → SameHeadOk r (file_line r line)
unfolding file_line
file_line-SameHeadOk r line = elim (Option-cases (find (codes "filename") line)) [
  | inl e ↦ rw (e, file_line) (refl, refl)
  | inr (i, e) ↦ rw (e, file_line) (named-SameHeadOk r _ _)
]

pub file_head_loop-SameHeadOk : (f : ℕ) (r : Request) → SameHeadOk r (file_head_loop f r)
unfolding file_head_loop
file_head_loop-SameHeadOk zero r = tt
file_head_loop-SameHeadOk (suc f) r = elim (Option-cases (find crlf r.recv_msg)) [
  | inl e ↦ rw (e, file_head_loop) (refl, refl)
  | inr (i, e) ↦
      let line = take (i + 2) r.recv_msg in
      elim (Bool-cases (equal line crlf)) [
        | inl last ↦ rw (e, file_head_loop) (rw (last, file_head_loop) (refl, refl))
        | inr more ↦
            rw (e, file_head_loop)
              (rw (more, file_head_loop)
                (bind-SameHeadOk (record r { recv_msg = drop (i + 2) r.recv_msg })
                  (file_line (record r { recv_msg = drop (i + 2) r.recv_msg }) line)
                  (file_head_loop f) (file_line-SameHeadOk _ line) (file_head_loop-SameHeadOk f)))
      ]
]

to_error : (st : MsgStatus) (r : Request) → IsKeptAt st r → HasBoundary r
to_error handle_init r h = inl h
to_error handle_head r h = inl h
to_error handle_body r h = h
to_error handle_complete r h = absurd h
to_error handle_error r h = h

-- A request that is marked as failed stays one that may be in the map.
pub failed-IsKept : (r : Request) → IsKept r → IsKept (record r { status = handle_error })
failed-IsKept r h = to_error r.status r h

abbrev InBody : Conn → Type 0
InBody c = (c.req.status ≡ handle_body) × HasBoundary c.req

-- The request is over, or may stay in the map.
abbrev pub IsOver : Conn → Type 0
IsOver c = (c.req.status ≡ handle_complete) ⊎ IsKept c.req

found :
    (r r' : Request)
    → r.file_msg_status ≢ file_begin_flag
    → HasBoundary r
    → r'.msg_header ≡ r.msg_header
    → HasBoundary r'
found r r' ne (inl e) q = absurd (ne e)
found r r' ne (inr (b, e)) q = inr (b, ap (λ h. get_header (codes "boundary") h) q ∙ e)

IsKept-body : (r : Request) → r.status ≡ handle_body → HasBoundary r → IsKept r
IsKept-body r e h = subst (λ st. IsKeptAt st r) (sym e) h

ends-IsOver : (s : Setting) (c : Conn) (e : RecvEnd) → IsKept c.req → IsOver (on_end s c e)
unfolding on_end
ends-IsOver s c closed h = inr (failed-IsKept c.req h)
ends-IsOver s c failed h = inr (failed-IsKept c.req h)
ends-IsOver s c would_block h = inr h

request-IsKeptBy : (s : Setting) → IsKeptBy s (λ c. IsKept c.req) InBody IsOver
unfolding take_file_head
request-IsKeptBy s = record {
  parses = λ c chunk r h e. subst KeptOk e (parse-KeptOk c.req chunk h);
  enters = λ c h e. (e, subst (λ st. IsKeptAt st c.req) e h);
  begins = λ c i b (e, h) q. (e, inr (b, q));
  heads = λ c r (e, h) at q.
      let (same, headers) = subst (SameHeadOk c.req) q (file_head_loop-SameHeadOk _ c.req) in
      (same ∙ e, found c.req r (λ z. cc) h headers);
  saves = λ c w (e, h) at. (e, found c.req (saved_to c w).req (λ z. cc) h refl);
  stays = λ c (e, h). IsKept-body c.req e h;
  answers = λ c name b. inl refl;
  puts = λ c name (e, h). inr h;
  gives_up = λ c (e, h). inr (IsKept-body c.req e h);
  ends = ends-IsOver s;
}

pub recv_loop-IsOver :
    (s : Setting) (c : Conn) (xs : List Bytes) (e : RecvEnd)
    → IsKept c.req
    → OnOk IsOver (recv_loop s c xs e)
recv_loop-IsOver s c xs e h = recv_loop-Holds s _ _ _ (request-IsKeptBy s) c xs e h

-- The entry of a response, if there is one, has its counts in bounds.
abbrev pub RestsIn : Option Response → Type 0
RestsIn none = Unit
RestsIn (some p) = InBounds p

renamed :
    (st : MsgStatus) (p : Response) (name : Bytes)
    → InBoundsAt st p
    → InBoundsAt st (record p { body_file_name = name })
renamed handle_init p name h = h
renamed handle_head p name h = h
renamed handle_body p name h = h
renamed handle_complete p name h = h
renamed handle_error p name h = h

answer-RestsIn :
    (s : Setting) (o : Option Response) (name : Bytes)
    → RestsIn o
    → InBounds (record (resp_of s o) { body_file_name = name })
answer-RestsIn s none name h = tt
answer-RestsIn s (some p) name h = renamed p.status p name h

ends-RestsIn : (s : Setting) (c : Conn) (e : RecvEnd) → RestsIn c.resp → RestsIn (on_end s c e).resp
unfolding on_end
ends-RestsIn s c closed h = h
ends-RestsIn s c failed h = h
ends-RestsIn s c would_block h = h

abbrev Within : Conn → Type 0
Within c = RestsIn c.resp

response-IsKeptBy : (s : Setting) → IsKeptBy s Within Within Within
response-IsKeptBy s = record {
  parses = λ c chunk r h e. h;
  enters = λ c h e. h;
  begins = λ c i b h q. h;
  heads = λ c r h at q. h;
  saves = λ c w h at. h;
  stays = λ c h. h;
  answers = λ c name h. answer-RestsIn s c.resp name h;
  puts = λ c name h. answer-RestsIn s c.resp name h;
  gives_up = λ c h. h;
  ends = ends-RestsIn s;
}

pub recv_loop-RestsIn :
    (s : Setting) (c : Conn) (xs : List Bytes) (e : RecvEnd)
    → RestsIn c.resp
    → OnOk (λ c. RestsIn c.resp) (recv_loop s c xs e)
recv_loop-RestsIn s c xs e h = recv_loop-Holds s _ _ _ (response-IsKeptBy s) c xs e h
