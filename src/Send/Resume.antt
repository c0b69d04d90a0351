-- ===== src/Send/Resume.antt =====
-- Sending that blocks and goes on later.
use cherokee.Base.{
  ℕ, false, List, [], ◌∷◌, ◌++◌, Option, none, some, ◌≡◌, refl, sym, ap, ◌∙◌, inl, inr, Bool-cases,
  if◌then◌else◌,
}
use cherokee.Fault.{Result, ok, fault}
use cherokee.Message.{MsgStatus, handle_head, handle_body, handle_complete}
use cherokee.Send.{
  SendStop, again, stopped, round_at, is_whole, sent_head, sent_body, sent_nothing, body_at,
  send_loop,
}
use cherokee.Send.Build.{Setting, Sender}
use cherokee.Send.Transmit.{
  IsUnderWay, round-head, round-body, loop-no_body, loop-head, loop-whole, loop-part,
  loop-stops-head, loop-stops-body, UnderWay-head, UnderWay-body,
}
use cherokee.Text.{Bytes}

-- The next call goes on with a response that is not complete.
abbrev pub resume_at : MsgStatus → Setting → List ℕ → SendStop → Sender → Result Sender
resume_at handle_complete s ms stop c = ok c
resume_at _ s ms stop c = send_loop s ms stop c

abbrev pub and_resume : Setting → List ℕ → SendStop → Result Sender → Result Sender
and_resume s ms stop (ok c) = resume_at c.resp.status s ms stop c
and_resume s ms stop (fault e) = fault e

abbrev Splits : Setting → List ℕ → List ℕ → SendStop → Sender → Type 0
Splits s ns ms stop c =
    send_loop s (ns ++ ms) stop c ≡ and_resume s ms stop (send_loop s ns again c)

module _ (s : Setting) (ms : List ℕ) (stop : SendStop) where
  -- The response is complete.
  completes :
      (ns : List ℕ) (c c' : Sender)
      → send_loop s (ns ++ ms) stop c ≡ ok c'
      → send_loop s ns again c ≡ ok c'
      → c'.resp.status ≡ handle_complete
      → Splits s ns ms stop c
  completes ns c c' long short st =
      long ∙ sym (ap (λ m. resume_at m s ms stop c') st) ∙ sym (ap (and_resume s ms stop) short)

  -- The socket blocks.
  blocks :
      (c : Sender) (st : MsgStatus)
      → c.resp.status ≡ st
      → send_loop s ms stop c ≡ resume_at st s ms stop c
      → send_loop s [] again c ≡ ok c
      → Splits s [] ms stop c
  blocks c st e same run =
      same ∙ sym (ap (λ m. resume_at m s ms stop c) e) ∙ sym (ap (and_resume s ms stop) run)

  body_nil-Splits :
      (c : Sender)
      → c.resp.status ≡ handle_body
      → (o : Option Bytes) → body_at s c.resp ≡ o
      → Splits s [] ms stop c
  unfolding round_at stopped
  body_nil-Splits c st none e =
      let round = round-body s c none st e in
      completes [] c (sent_nothing c) (loop-no_body s c stop ms round)
        (loop-no_body s c again [] round) refl
  body_nil-Splits c st (some b) e =
      blocks c handle_body st refl (loop-stops-body s c again b (round-body s c (some b) st e))

  body_cons-Splits :
      (n : ℕ) (ns : List ℕ) (c : Sender)
      → ((b : Bytes) → is_whole n c.resp ≡ false → Splits s ns ms stop (sent_body b n c))
      → c.resp.status ≡ handle_body
      → (o : Option Bytes) → body_at s c.resp ≡ o
      → Splits s (n ∷ ns) ms stop c
  unfolding round_at sent_body
  body_cons-Splits n ns c ih st none e =
      let round = round-body s c none st e in
      completes (n ∷ ns) c (sent_nothing c) (loop-no_body s c stop (n ∷ (ns ++ ms)) round)
        (loop-no_body s c again (n ∷ ns) round) refl
  body_cons-Splits n ns c ih st (some b) e =
      let round = round-body s c (some b) st e in
      elim (Bool-cases (is_whole n c.resp)) [
        | inl whole ↦
            completes (n ∷ ns) c (sent_body b n c) (loop-whole s c stop n (ns ++ ms) b round whole)
              (loop-whole s c again n ns b round whole)
              (ap (λ w. if w then handle_complete else handle_body) whole)
        | inr part ↦
            loop-part s c stop n (ns ++ ms) b round part
            ∙ ih b part
            ∙ sym (ap (and_resume s ms stop) (loop-part s c again n ns b round part))
      ]

  -- Sending that blocks after some calls, and goes on later with more of them from the state that is
  -- left, ends as sending by all these calls at once: with the same response, entry of the request
  -- and effects.
  pub send_loop-append :
      (ns : List ℕ) (c : Sender)
      → IsUnderWay c
      → send_loop s (ns ++ ms) stop c ≡ and_resume s ms stop (send_loop s ns again c)
  unfolding stopped
  send_loop-append [] c (inl st) =
      blocks c handle_head st refl (loop-stops-head s c again (round-head s c st))
  send_loop-append (n ∷ ns) c (inl st) =
      loop-head s c stop n (ns ++ ms) (round-head s c st)
      ∙ send_loop-append ns (sent_head n c) (UnderWay-head n c)
      ∙ sym (ap (and_resume s ms stop) (loop-head s c again n ns (round-head s c st)))
  send_loop-append [] c (inr st) = body_nil-Splits c st (body_at s c.resp) refl
  send_loop-append (n ∷ ns) c (inr st) =
      body_cons-Splits n ns c
        (λ b part. send_loop-append ns (sent_body b n c) (inr (UnderWay-body b n c part))) st
        (body_at s c.resp) refl
