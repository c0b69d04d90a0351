-- ===== src/Send/Transmit.antt =====
-- What reaches the client: the header and the body, each byte once and in order, however many bytes
-- the socket takes at a time and however often the handler has to come back.
use cherokee.Base.{
  ℕ, ◌^◌, ◌<◌, true, false, List, [], ◌∷◌, Option, none, some, ◌≡◌, refl, ap, ap₂, ◌∙◌, arith,
  if◌then◌else◌, length, inl, inr, ◌⊎◌, Bool-cases,
}
use cherokee.Fault.{ok}
use cherokee.Message.{handle_head, handle_body, handle_complete}
use cherokee.Send.{
  SendStop, again, broken, stopped, send_head, send_body, no_body, round_at, round_of, is_whole,
  sent_head, sent_body, sent_nothing, body_at, send_loop,
}
use cherokee.Send.Build.{Setting, Sender}
use cherokee.Text.{Bytes}
use cherokee.Send.Pieces.{
  wire, SentSoFar, IsSending, AreCounts, sent_head-IsSending, sent_body-IsSending,
}

-- A response that is being sent.
abbrev pub IsUnderWay : Sender → Type 0
IsUnderWay c = (c.resp.status ≡ handle_head) ⊎ (c.resp.status ≡ handle_body)

-- The loop ends, and what the socket has taken is known.
abbrev pub EndsSending : Setting → Bytes → Bytes → Bytes → List ℕ → SendStop → Sender → Type 0
EndsSending s start head body ns stop c =
    (c' : Sender) × (send_loop s ns stop c ≡ ok c') × IsSending s start head body c'

stopped-IsSending :
    (s : Setting) (start head body : Bytes) (stop : SendStop) (c : Sender)
    → IsSending s start head body c
    → IsSending s start head body (stopped stop c)
unfolding stopped
stopped-IsSending s start head body again c v = v
stopped-IsSending s start head body broken c v = record {
  head_is = v.head_is;
  head_len = v.head_len;
  body_is = v.body_is;
  so_far = v.so_far;
}

nothing-IsSending :
    (s : Setting) (start head body : Bytes) (c : Sender)
    → c.resp.status ≡ handle_body
    → body_at s c.resp ≡ none
    → IsSending s start head body c
    → IsSending s start head body (sent_nothing c)
nothing-IsSending s start head body c st e v =
    let so_far : SentSoFar handle_body start head body c.resp.cur_status_has_send_len
        (wire c.done) =
      rw st at v.so_far in
    let empty : body ≡ [] = rw e at v.body_is in
    let none_sent : c.resp.cur_status_has_send_len ≡ 0 = omega (arith, ap length empty, so_far.0) in
    record {
      head_is = v.head_is;
      head_len = v.head_len;
      body_is = v.body_is;
      so_far = (refl, so_far.1 ∙ rw (none_sent, empty));
    }

module _ (s : Setting) (c : Sender) where
  pub round-head : c.resp.status ≡ handle_head → round_of s c.resp ≡ send_head
  unfolding round_of round_at
  round-head st = ap (λ m. round_at m (body_at s c.resp)) st

  pub round-body :
      (o : Option Bytes)
      → c.resp.status ≡ handle_body
      → body_at s c.resp ≡ o
      → round_of s c.resp ≡ round_at handle_body o
  unfolding round_of round_at
  round-body o st e = ap₂ round_at st e

  module _ (stop : SendStop) where
    pub loop-stops-head :
        round_of s c.resp ≡ send_head → send_loop s [] stop c ≡ ok (stopped stop c)
    unfolding send_loop
    loop-stops-head e = rw (e, send_loop)

    pub loop-stops-body :
        (b : Bytes) → round_of s c.resp ≡ send_body b → send_loop s [] stop c ≡ ok (stopped stop c)
    unfolding send_loop
    loop-stops-body b e = rw (e, send_loop)

    pub loop-no_body :
        (ns : List ℕ) → round_of s c.resp ≡ no_body → send_loop s ns stop c ≡ ok (sent_nothing c)
    unfolding send_loop
    loop-no_body [] e = rw (e, send_loop)
    loop-no_body (n ∷ ns) e = rw (e, send_loop)

    module _ (n : ℕ) (ns : List ℕ) where
      pub loop-head :
          round_of s c.resp ≡ send_head
          → send_loop s (n ∷ ns) stop c ≡ send_loop s ns stop (sent_head n c)
      unfolding send_loop
      loop-head e = rw (e, send_loop)

      pub loop-whole :
          (b : Bytes)
          → round_of s c.resp ≡ send_body b
          → is_whole n c.resp ≡ true
          → send_loop s (n ∷ ns) stop c ≡ ok (sent_body b n c)
      unfolding send_loop
      loop-whole b e w = rw (e, send_loop) (rw (w, send_loop))

      pub loop-part :
          (b : Bytes)
          → round_of s c.resp ≡ send_body b
          → is_whole n c.resp ≡ false
          → send_loop s (n ∷ ns) stop c ≡ send_loop s ns stop (sent_body b n c)
      unfolding send_loop
      loop-part b e w = rw (e, send_loop) (rw (w, send_loop))

pub UnderWay-head : (n : ℕ) (c : Sender) → IsUnderWay (sent_head n c)
unfolding sent_head
UnderWay-head n c = ground arith

pub UnderWay-body :
    (b : Bytes) (n : ℕ) (c : Sender)
    → is_whole n c.resp ≡ false
    → (sent_body b n c).resp.status ≡ handle_body
unfolding sent_body
UnderWay-body b n c part = ap (λ w. if w then handle_complete else handle_body) part

module _ (s : Setting) (start head body : Bytes) (stop : SendStop)
    (small_head : length head < 2 ^ 63) (small_body : length body < 2 ^ 63) where
  send_loop-body_nil :
      (c : Sender)
      → c.resp.status ≡ handle_body
      → IsSending s start head body c
      → (o : Option Bytes) → body_at s c.resp ≡ o
      → EndsSending s start head body [] stop c
  unfolding round_at
  send_loop-body_nil c st v none e = (
    _,
    loop-no_body s c stop [] (round-body s c none st e),
    nothing-IsSending s start head body c st e v,
  )
  send_loop-body_nil c st v (some b) e = (
    _,
    loop-stops-body s c stop b (round-body s c (some b) st e),
    stopped-IsSending s start head body stop c v,
  )

  send_loop-body_cons :
      (n : ℕ) (ns : List ℕ) (c : Sender)
      → ((b : Bytes)
          → body_at s c.resp ≡ some b
          → is_whole n c.resp ≡ false
          → EndsSending s start head body ns stop (sent_body b n c))
      → n < 2 ^ 63
      → c.resp.status ≡ handle_body
      → IsSending s start head body c
      → (o : Option Bytes) → body_at s c.resp ≡ o
      → EndsSending s start head body (n ∷ ns) stop c
  unfolding round_at
  send_loop-body_cons n ns c ih count st v none e = (
    _,
    loop-no_body s c stop (n ∷ ns) (round-body s c none st e),
    nothing-IsSending s start head body c st e v,
  )
  send_loop-body_cons n ns c ih count st v (some b) e =
      let round = round-body s c (some b) st e in
      elim (Bool-cases (is_whole n c.resp)) [
        | inl whole ↦ (
          _,
          loop-whole s c stop n ns b round whole,
          sent_body-IsSending s start head body c n count b small_body st e v,
        )
        | inr part ↦
            let (c', run, v') = ih b e part in (c', loop-part s c stop n ns b round part ∙ run, v')
      ]

  -- From any point of the sending of a response, whatever counts the socket answers, and whether it
  -- then blocks or breaks, the loop ends, and the bytes that the socket has taken since the start of
  -- the response are the first so many of header and body, in order, with none left out or sent
  -- twice: all of them if the response is complete, and otherwise as many as the state records, from
  -- which the next call goes on.
  pub send_loop-IsSending :
      (ns : List ℕ) (c : Sender)
      → AreCounts ns
      → IsUnderWay c
      → IsSending s start head body c
      → EndsSending s start head body ns stop c
  send_loop-IsSending [] c counts (inl st) v = (
    _,
    loop-stops-head s c stop (round-head s c st),
    stopped-IsSending s start head body stop c v,
  )
  send_loop-IsSending (n ∷ ns) c counts (inl st) v =
      let (c', run, v') =
        send_loop-IsSending ns (sent_head n c) counts.1 (UnderWay-head n c)
          (sent_head-IsSending s start head body c n counts.0 small_head st v) in
      (c', loop-head s c stop n ns (round-head s c st) ∙ run, v')
  send_loop-IsSending [] c counts (inr st) v = send_loop-body_nil c st v (body_at s c.resp) refl
  send_loop-IsSending (n ∷ ns) c counts (inr st) v =
      send_loop-body_cons n ns c
        (λ b e part.
          send_loop-IsSending ns (sent_body b n c) counts.1 (inr (UnderWay-body b n c part))
            (sent_body-IsSending s start head body c n counts.0 b small_body st e v))
        counts.0 st v (body_at s c.resp) refl
