-- ===== src/Send/Bounds.antt =====
-- What a response at rest is: not over, and with its counts inside the texts that they count.
use cherokee.Base.{
  ℕ, ◌+◌, ◌%◌, ◌^◌, ◌≤◌, false, List, [], ◌∷◌, Option, none, some, ◌≡◌, refl, ◌∙◌, arith, leb,
  length, inl, inr, Bool-cases,
}
use cherokee.Fault.{ok}
use cherokee.Message.{
  MsgStatus, handle_init, handle_head, handle_body, handle_complete, handle_error, html_type,
  Response,
}
use cherokee.Send.{
  SendStop, again, broken, stopped, round_at, is_whole, sent_head, sent_body, sent_nothing, body_at,
  send_loop,
}
use cherokee.Send.Build.{Setting, Sender}
use cherokee.Send.Transmit.{
  IsUnderWay, round-head, round-body, loop-no_body, loop-head, loop-whole, loop-part,
  loop-stops-head, loop-stops-body, UnderWay-head, UnderWay-body,
}
use cherokee.Text.{Bytes}

-- The announced length of a list page is its length.
abbrev pub PageFits : Response → Type 0
PageFits p = p.body_type ≡ html_type → p.msg_body_len ≡ length p.msg_body

-- The next `send` begins inside the text, and the announced length is the text's: it reads nothing
-- behind its end. A response that is over or has failed is not in the map.
abbrev pub InBoundsAt : MsgStatus → Response → Type 0
InBoundsAt handle_init p = Unit
InBoundsAt handle_head p =
    (p.before_body_msg_len ≡ length p.before_body_msg)
    × (p.cur_status_has_send_len ≤ p.before_body_msg_len)
    × PageFits p
InBoundsAt handle_body p = (p.cur_status_has_send_len ≤ p.msg_body_len) × PageFits p
InBoundsAt handle_complete p = ⊥
InBoundsAt handle_error p = ⊥

abbrev pub InBounds : Response → Type 0
InBounds p = InBoundsAt p.status p

-- The same in the loop that sends, which begins under way and ends complete or under way.
abbrev pub SendsAt : MsgStatus → Response → Type 0
SendsAt handle_init p = ⊥
SendsAt handle_complete p = Unit
SendsAt st p = InBoundsAt st p

abbrev Sends : Sender → Type 0
Sends c = SendsAt c.resp.status c.resp

stopped-Sends : (stop : SendStop) (c : Sender) → Sends c → Sends (stopped stop c)
unfolding stopped
stopped-Sends again c v = v
stopped-Sends broken c v = v

sent_head-Sends :
    (n : ℕ) (c : Sender) → c.resp.status ≡ handle_head → Sends c → Sends (sent_head n c)
unfolding sent_head
sent_head-Sends n c st v =
    let (size, fits, page) : SendsAt handle_head c.resp = rw st at v in
    elim (Bool-cases
      (leb c.resp.before_body_msg_len ((c.resp.cur_status_has_send_len + n) % 2 ^ 64))) [
        | inl w ↦ rw w (omega arith, page)
        | inr w ↦ rw w (size, ground arith, page)
      ]

sent_body-Sends :
    (b : Bytes) (n : ℕ) (c : Sender)
    → c.resp.status ≡ handle_body
    → Sends c
    → Sends (sent_body b n c)
unfolding sent_body
sent_body-Sends b n c st v =
    let (fits, page) : SendsAt handle_body c.resp = rw st at v in
    elim (Bool-cases (leb c.resp.msg_body_len ((c.resp.cur_status_has_send_len + n) % 2 ^ 64))) [
      | inl w ↦ rw w tt
      | inr w ↦ rw w (ground arith, page)
    ]

abbrev Returns : Setting → List ℕ → SendStop → Sender → Type 0
Returns s ns stop c = (c' : Sender) × (send_loop s ns stop c ≡ ok c') × Sends c'

module _ (s : Setting) (stop : SendStop) where
  body_nil-Returns :
      (c : Sender)
      → c.resp.status ≡ handle_body
      → Sends c
      → (o : Option Bytes) → body_at s c.resp ≡ o
      → Returns s [] stop c
  unfolding round_at
  body_nil-Returns c st v none e =
      (sent_nothing c, loop-no_body s c stop [] (round-body s c none st e), tt)
  body_nil-Returns c st v (some b) e = (
    stopped stop c,
    loop-stops-body s c stop b (round-body s c (some b) st e),
    stopped-Sends stop c v,
  )

  body_cons-Returns :
      (n : ℕ) (ns : List ℕ) (c : Sender)
      → ((b : Bytes) → is_whole n c.resp ≡ false → Returns s ns stop (sent_body b n c))
      → c.resp.status ≡ handle_body
      → Sends c
      → (o : Option Bytes) → body_at s c.resp ≡ o
      → Returns s (n ∷ ns) stop c
  unfolding round_at
  body_cons-Returns n ns c ih st v none e =
      (sent_nothing c, loop-no_body s c stop (n ∷ ns) (round-body s c none st e), tt)
  body_cons-Returns n ns c ih st v (some b) e =
      let round = round-body s c (some b) st e in
      elim (Bool-cases (is_whole n c.resp)) [
        | inl whole ↦
            (sent_body b n c, loop-whole s c stop n ns b round whole, sent_body-Sends b n c st v)
        | inr part ↦
            let (c', run, v') = ih b part in (c', loop-part s c stop n ns b round part ∙ run, v')
      ]

  -- The loop returns, with its counts in bounds.
  pub send_loop-Returns : (ns : List ℕ) (c : Sender) → IsUnderWay c → Sends c → Returns s ns stop c
  send_loop-Returns [] c (inl st) v =
      (stopped stop c, loop-stops-head s c stop (round-head s c st), stopped-Sends stop c v)
  send_loop-Returns (n ∷ ns) c (inl st) v =
      let (c', run, v') =
        send_loop-Returns ns (sent_head n c) (UnderWay-head n c) (sent_head-Sends n c st v) in
      (c', loop-head s c stop n ns (round-head s c st) ∙ run, v')
  send_loop-Returns [] c (inr st) v = body_nil-Returns c st v (body_at s c.resp) refl
  send_loop-Returns (n ∷ ns) c (inr st) v =
      body_cons-Returns n ns c
        (λ b part.
          send_loop-Returns ns (sent_body b n c) (inr (UnderWay-body b n c part))
            (sent_body-Sends b n c st v))
        st v (body_at s c.resp) refl
