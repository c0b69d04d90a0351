-- ===== src/Send/Stuck.antt =====
-- A body of which `send` or `sendfile` takes nothing more, as when the file has become shorter than its
-- announced size.
use cherokee.Base.{
  ℕ, zero, suc, ◌+◌, ◌%◌, ◌^◌, ◌<◌, false, List, [], ◌∷◌, ◌++◌, some, ◌≡◌, refl, sym, ap, ◌∙◌,
  arith, leb, append_assoc, append-nil, inl, inr, Bool-cases,
}
use cherokee.Message.{handle_body}
use cherokee.Send.{SendStop, sent_body, is_whole, body_at, round_at, send_loop}
use cherokee.Send.Build.{Setting, Sender}
use cherokee.Send.Pieces.{wire}
use cherokee.Send.Transmit.{round-body, loop-part}
use cherokee.Text.{Bytes}
use cherokee.World.{Effect, sent}

-- Calls that return 0, and what they do.
abbrev pub zeros : ℕ → List ℕ
zeros zero = []
zeros (suc n) = 0 ∷ zeros n

abbrev pub nothings : ℕ → List Effect
nothings zero = []
nothings (suc n) = sent [] ∷ nothings n

-- The body has bytes left.
pub record HasMore (s : Setting) (body : Bytes) (c : Sender) : Type 0 where
  pub in_body : c.resp.status ≡ handle_body
  pub body_is : body_at s c.resp ≡ some body
  pub left : c.resp.cur_status_has_send_len < c.resp.msg_body_len
  pub size : c.resp.msg_body_len < 2 ^ 64

not_whole : (s : Setting) (body : Bytes) (c : Sender) → HasMore s body c → is_whole 0 c.resp ≡ false
not_whole s body c h = elim (Bool-cases (is_whole 0 c.resp)) [
  | inl e ↦ absurd (let left = h.left in let size = h.size in ground arith)
  | inr e ↦ e
]

same_length : (cur len : ℕ) → cur < len → len < 2 ^ 64 → (cur + 0) % 2 ^ 64 ≡ cur
same_length cur len h k = omega arith

sent_nothing_of :
    (s : Setting) (body : Bytes) (c : Sender)
    → HasMore s body c
    → sent_body body 0 c ≡ record c { done = c.done ++ sent [] ∷ [] }
unfolding sent_body
sent_nothing_of s body c h =
    let whole : leb c.resp.msg_body_len ((c.resp.cur_status_has_send_len + 0) % 2 ^ 64) ≡ false =
      not_whole s body c h in
    rw (whole, same_length c.resp.cur_status_has_send_len c.resp.msg_body_len h.left h.size)
      (ap (λ st. record c { resp = record c.resp { status = st }; done = c.done ++ sent [] ∷ [] })
        (sym h.in_body))

waiting-HasMore :
    (s : Setting) (body : Bytes) (c : Sender) (es : List Effect)
    → HasMore s body c
    → HasMore s body (record c { done = es })
waiting-HasMore s body c es h = record {
  in_body = h.in_body;
  body_is = h.body_is;
  left = h.left;
  size = h.size;
}

-- While a body has bytes left, a call of `send` or `sendfile` that returns 0 leads to another one: after
-- any number `n` of such calls the handler is still in its loop, in the same state, has sent nothing
-- more, and will do what it would have done before them. So it never returns when they go on.
pub send_loop-stuck :
    (s : Setting) (body : Bytes) (stop : SendStop) (n : ℕ) (ns : List ℕ) (c : Sender)
    → HasMore s body c
    → (send_loop s (zeros n ++ ns) stop c
        ≡ send_loop s ns stop (record c { done = c.done ++ nothings n }))
      × (wire (nothings n) ≡ [])
unfolding round_at
send_loop-stuck s body stop zero ns c h =
    (ap (λ es. send_loop s ns stop (record c { done = es })) (sym (append-nil c.done)), refl)
send_loop-stuck s body stop (suc n) ns c h =
    let c1 = record c { done = c.done ++ sent [] ∷ [] } in
    let (later, silent) = send_loop-stuck s body stop n ns c1 (waiting-HasMore s body c _ h) in
    (
      loop-part s c stop 0 (zeros n ++ ns) body (round-body s c (some body) h.in_body h.body_is)
            (not_whole s body c h)
          ∙ ap (send_loop s (zeros n ++ ns) stop) (sent_nothing_of s body c h)
          ∙ later
          ∙ ap (λ es. send_loop s ns stop (record c { done = es }))
              (append_assoc c.done (sent [] ∷ []) (nothings n)),
      silent,
    )
