-- ===== src/Send/Completion.antt =====
-- How many calls of `send` and `sendfile` a response takes.
use cherokee.Base.{
  ℕ, suc, subst, ◌+◌, ◌-◌, ◌%◌, ◌^◌, ◌≤◌, ◌<◌, true, false, List, [], ◌∷◌, ◌++◌, Option, none, some,
  ◌≡◌, refl, sym, ap, ◌∙◌, arith, leb, if◌then◌else◌, length, inl, inr, ◌⊎◌, Bool-cases,
}
use cherokee.Fault.{ok}
use cherokee.Message.{MsgStatus, handle_head, handle_body, handle_complete}
use cherokee.Send.{
  SendStop, round_at, is_whole, sent_head, sent_body, sent_nothing, body_at, send_loop,
}
use cherokee.Send.Build.{Setting, Sender}
use cherokee.Send.Pieces.{
  wire, SentSoFar, IsSending, AreCounts, no_wrap, sent_head-IsSending, sent_body-IsSending,
}
use cherokee.Send.Transmit.{
  IsUnderWay, round-head, round-body, loop-no_body, loop-head, loop-whole, loop-part, UnderWay-body,
  send_loop-IsSending,
}
use cherokee.Text.{Bytes}

-- Every call takes a byte at least.
abbrev pub ArePositive : List ℕ → Type 0
ArePositive [] = Unit {0}
ArePositive (n ∷ ns) = (1 ≤ n) × ArePositive ns

-- An upper bound on the calls that are still needed.
abbrev pub calls_left : Bytes → Bytes → MsgStatus → ℕ → ℕ
calls_left head body handle_head cur = (length head - cur) + (length body + 2)
calls_left head body _ cur = (length body - cur) + 1

abbrev CompletesIn : Setting → List ℕ → SendStop → Sender → Type 0
CompletesIn s ns stop c =
    (c' : Sender) × (send_loop s ns stop c ≡ ok c')
    × (c'.resp.status ≡ handle_complete)
    × (c'.req ≡ c.req)

-- Sending does not touch the request.
req-sent_head : (n : ℕ) (c : Sender) → (sent_head n c).req ≡ c.req
unfolding sent_head
req-sent_head n c = refl

req-sent_body : (b : Bytes) (n : ℕ) (c : Sender) → (sent_body b n c).req ≡ c.req
unfolding sent_body
req-sent_body b n c = refl

whole_status :
    (b : Bytes) (n : ℕ) (c : Sender)
    → is_whole n c.resp ≡ true
    → (sent_body b n c).resp.status ≡ handle_complete
unfolding sent_body
whole_status b n c w = ap (λ x. if x then handle_complete else handle_body) w

module _ (s : Setting) (start head body : Bytes) (stop : SendStop)
    (small_head : length head < 2 ^ 63) (small_body : length body < 2 ^ 63) where
  -- What is left after a call on the header.
  head_left :
      (n : ℕ) (c : Sender) (k : ℕ)
      → n < 2 ^ 63
      → 1 ≤ n
      → c.resp.status ≡ handle_head
      → IsSending s start head body c
      → calls_left head body handle_head c.resp.cur_status_has_send_len ≤ k + 1
      → let p = (sent_head n c).resp in
        ((p.status ≡ handle_head)
          × (calls_left head body handle_head p.cur_status_has_send_len ≤ k))
        ⊎ ((p.status ≡ handle_body)
            × (calls_left head body handle_body p.cur_status_has_send_len ≤ k))
  unfolding sent_head
  head_left n c k count pos st v enough =
      let so_far : SentSoFar handle_head start head body c.resp.cur_status_has_send_len
          (wire c.done) =
        rw st at v.so_far in
      let wraps = no_wrap s start head body c n count head small_head so_far.0 in
      let m = (c.resp.cur_status_has_send_len + n) % 2 ^ 64 in
      elim (Bool-cases (leb c.resp.before_body_msg_len m)) [
        | inl w ↦
            let none_yet : (sent_head n c).resp.cur_status_has_send_len ≡ 0 =
              ap (λ x. if x then 0 else m) w in
            inr
              (ap (λ x. if x then handle_body else handle_head) w, omega (arith, enough, none_yet))
        | inr w ↦
            let more : (sent_head n c).resp.cur_status_has_send_len ≡ m =
              ap (λ x. if x then 0 else m) w in
            let part : m < length head = ground (arith, v.head_len) in
            inl (
              ap (λ x. if x then handle_body else handle_head) w,
              omega (arith, enough, more, wraps, part),
            )
      ]

  body_left :
      (b : Bytes) (n : ℕ) (c : Sender) (k : ℕ)
      → n < 2 ^ 63
      → 1 ≤ n
      → c.resp.status ≡ handle_body
      → body_at s c.resp ≡ some b
      → IsSending s start head body c
      → is_whole n c.resp ≡ false
      → calls_left head body handle_body c.resp.cur_status_has_send_len ≤ k + 1
      → calls_left head body handle_body (sent_body b n c).resp.cur_status_has_send_len ≤ k
  unfolding sent_body
  body_left b n c k count pos st e v part enough =
      let so_far : SentSoFar handle_body start head body c.resp.cur_status_has_send_len
          (wire c.done) =
        rw st at v.so_far in
      let is : (b ≡ body) × (c.resp.msg_body_len ≡ length body) = rw e at v.body_is in
      let wraps = no_wrap s start head body c n count body small_body so_far.0 in
      let m = (c.resp.cur_status_has_send_len + n) % 2 ^ 64 in
      let more : (sent_body b n c).resp.cur_status_has_send_len ≡ m =
        ap (λ x. if x then 0 else m) part in
      let short : m < length body = ground (arith, is.1) in
      omega (arith, enough, more, wraps, short)

  body_none :
      (n : ℕ) (ns : List ℕ) (c : Sender)
      → c.resp.status ≡ handle_body
      → body_at s c.resp ≡ none
      → CompletesIn s (n ∷ ns) stop c
  unfolding round_at
  body_none n ns c st e =
      (sent_nothing c, loop-no_body s c stop (n ∷ ns) (round-body s c none st e), refl, refl)

  body_completes :
      (ns : List ℕ) (c : Sender)
      → AreCounts ns
      → ArePositive ns
      → c.resp.status ≡ handle_body
      → IsSending s start head body c
      → calls_left head body handle_body c.resp.cur_status_has_send_len ≤ length ns
      → (o : Option Bytes) → body_at s c.resp ≡ o
      → CompletesIn s ns stop c
  unfolding round_at
  body_completes [] c counts pos st v enough o e = absurd (omega (arith, enough))
  body_completes (n ∷ ns) c counts pos st v enough none e = body_none n ns c st e
  body_completes (n ∷ ns) c counts pos st v enough (some b) e =
      let round = round-body s c (some b) st e in
      elim (Bool-cases (is_whole n c.resp)) [
        | inl whole ↦ (
          sent_body b n c,
          loop-whole s c stop n ns b round whole,
          whole_status b n c whole,
          req-sent_body b n c,
        )
        | inr part ↦
            let (c', run, done, same) =
              body_completes ns (sent_body b n c) counts.1 pos.1 (UnderWay-body b n c part)
                (sent_body-IsSending s start head body c n counts.0 b small_body st e v)
                (body_left b n c (length ns) counts.0 pos.0 st e v part (omega (arith, enough)))
                (body_at s (sent_body b n c).resp) refl in
            (c', loop-part s c stop n ns b round part ∙ run, done, same ∙ req-sent_body b n c)
      ]

  completes :
      (ns : List ℕ) (c : Sender)
      → AreCounts ns
      → ArePositive ns
      → IsUnderWay c
      → IsSending s start head body c
      → calls_left head body c.resp.status c.resp.cur_status_has_send_len ≤ length ns
      → CompletesIn s ns stop c
  completes ns c counts pos (inr st) v enough =
      body_completes ns c counts pos st v (rw st at enough) (body_at s c.resp) refl
  completes [] c counts pos (inl st) v enough =
      let some_call : calls_left head body handle_head c.resp.cur_status_has_send_len ≤ 0 =
        rw st at enough in
      absurd (omega (arith, some_call))
  completes (n ∷ ns) c counts pos (inl st) v enough =
      let bound : calls_left head body handle_head c.resp.cur_status_has_send_len
          ≤ suc (length ns) =
        rw st at enough in
      let v' = sent_head-IsSending s start head body c n counts.0 small_head st v in
      let rest : CompletesIn s ns stop (sent_head n c) =
        elim (head_left n c (length ns) counts.0 pos.0 st v (omega (arith, bound))) [
          | inl (st', few) ↦ completes ns (sent_head n c) counts.1 pos.1 (inl st') v' (
              subst
                (λ q.
                  calls_left head body q (sent_head n c).resp.cur_status_has_send_len ≤ length ns)
                (sym st') few)
          | inr (st', few) ↦
              body_completes ns (sent_head n c) counts.1 pos.1 st' v' few
                (body_at s (sent_head n c).resp) refl
        ] in
      (
        rest.0,
        loop-head s c stop n ns (round-head s c st) ∙ rest.1,
        rest.2,
        rest.3 ∙ req-sent_head n c,
      )

  -- From any point of the sending of a response, with header, body and counts below 2 ^ 63, if every
  -- call of `send` and `sendfile` takes a byte at least and there are as many calls as bytes left and
  -- two more, the loop ends with the response complete and the request as it was, and the socket has
  -- taken the whole of header and body.
  pub send_loop-completes :
      (ns : List ℕ) (c : Sender)
      → AreCounts ns
      → ArePositive ns
      → IsUnderWay c
      → IsSending s start head body c
      → calls_left head body c.resp.status c.resp.cur_status_has_send_len ≤ length ns
      → (c' : Sender) × (send_loop s ns stop c ≡ ok c')
        × (c'.resp.status ≡ handle_complete)
        × (c'.req ≡ c.req)
        × (wire c'.done ≡ start ++ (head ++ body))
  send_loop-completes ns c counts pos going v enough =
      let (c', run, done, same_req) = completes ns c counts pos going v enough in
      let (c'', run', v') =
        send_loop-IsSending s start head body stop small_head small_body ns c counts going v in
      let same : c'' ≡ c' = cc in
      let so_far : SentSoFar c'.resp.status start head body c'.resp.cur_status_has_send_len
          (wire c'.done) =
        rw same at v'.so_far in
      let all : SentSoFar handle_complete start head body c'.resp.cur_status_has_send_len
          (wire c'.done) =
        rw done at so_far in
      (c', run, done, same_req, all.1)
