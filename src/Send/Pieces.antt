-- ===== src/Send/Pieces.antt =====
-- One piece of a response: what a single `send` or `sendfile` does to the bytes on the wire.
use cherokee.Base.{
  ℕ, ◌+◌, ◌%◌, ◌^◌, ◌≤◌, ◌<◌, Bool, true, false, List, [], ◌∷◌, ◌++◌, Option, none, some, ◌≡◌, refl,
  sym, ap, ◌∙◌, arith, leb, if◌then◌else◌, length, take, drop, append_assoc, append-nil,
  take-append-take, take-all,
}
use cherokee.Message.{MsgStatus, handle_head, handle_body, handle_complete}
use cherokee.Send.{sent_head, sent_body, body_at}
use cherokee.Send.Build.{Setting, Sender}
use cherokee.Text.{Bytes}
use cherokee.World.{Effect, sent}

-- The bytes that the socket has taken.
abbrev pub wire : List Effect → Bytes
wire [] = []
wire (sent bytes ∷ es) = bytes ++ wire es
wire (_ ∷ es) = wire es

pub wire-append : (xs ys : List Effect) → wire (xs ++ ys) ≡ wire xs ++ wire ys
wire-append [] ys = refl
wire-append (sent bytes ∷ es) ys = rw (wire-append es ys) (sym (append_assoc bytes _ _))
wire-append (_ ∷ es) ys = wire-append es ys

pub wire-sent : (es : List Effect) (bytes : Bytes) → wire (es ++ sent bytes ∷ []) ≡ wire es ++ bytes
wire-sent es bytes = wire-append es (sent bytes ∷ []) ∙ ap (◌++◌ (wire es)) (append-nil bytes)

-- The body of a response and its announced length.
abbrev pub BodyIs : Option Bytes → ℕ → Bytes → Type 0
BodyIs none len body = body ≡ []
BodyIs (some b) len body = (b ≡ body) × (len ≡ length body)

-- Before `start`, other bytes have gone over the connection.
abbrev pub SentSoFar : MsgStatus → Bytes → Bytes → Bytes → ℕ → Bytes → Type 0
SentSoFar handle_head start head body cur out = (cur ≤ length head) × (out ≡ start ++ take cur head)
SentSoFar handle_body start head body cur out =
    (cur ≤ length body) × (out ≡ start ++ (head ++ take cur body))
SentSoFar handle_complete start head body cur out = (cur ≡ 0) × (out ≡ start ++ (head ++ body))
SentSoFar _ start head body cur out = ⊥

pub record IsSending (s : Setting) (start head body : Bytes) (c : Sender) : Type 0 where
  pub head_is : c.resp.before_body_msg ≡ head
  pub head_len : c.resp.before_body_msg_len ≡ length head
  pub body_is : BodyIs (body_at s c.resp) c.resp.msg_body_len body
  pub so_far : SentSoFar c.resp.status start head body c.resp.cur_status_has_send_len (wire c.done)

-- The range of the results of `send` and `sendfile`.
abbrev pub AreCounts : List ℕ → Type 0
AreCounts [] = Unit {0}
AreCounts (n ∷ ns) = (n < 2 ^ 63) × AreCounts ns

-- One more piece of a text of which `cur` bytes are sent.
pub piece :
    (before msg out : Bytes) (cur n : ℕ)
    → out ≡ before ++ take cur msg
    → out ++ take n (drop cur msg) ≡ before ++ take (cur + n) msg
piece before msg out cur n e =
    ap (λ x. x ++ take n (drop cur msg)) e
    ∙ append_assoc before _ _
    ∙ ap (◌++◌ before) (take-append-take cur n (cur + n) msg refl)

module _ (start head body out : Bytes) (cur n len m : ℕ) (sum : m ≡ cur + n) where
  pub head_piece :
      len ≡ length head
      → SentSoFar handle_head start head body cur out
      → (w : Bool) → leb len m ≡ w
      → SentSoFar
          (if w then handle_body else handle_head)
          start
          head
          body
          (if w then 0 else m)
          (out ++ take n (drop cur head))
  head_piece size (fits, e) true w =
      let all : take (cur + n) head ≡ head = take-all (cur + n) head (ground arith) in
      (omega arith, piece start head out cur n e ∙ ap (◌++◌ start) (all ∙ sym (append-nil head)))
  head_piece size (fits, e) false w =
      (ground arith, piece start head out cur n e ∙ ap (λ k. start ++ take k head) (sym sum))

  pub body_piece :
      len ≡ length body
      → SentSoFar handle_body start head body cur out
      → (w : Bool) → leb len m ≡ w
      → SentSoFar
          (if w then handle_complete else handle_body)
          start
          head
          body
          (if w then 0 else m)
          (out ++ take n (drop cur body))
  body_piece size (fits, e) w q =
      let e' : out ≡ (start ++ head) ++ take cur body = e ∙ sym (append_assoc start head _) in
      let next = piece (start ++ head) body out cur n e' ∙ append_assoc start head _ in
      by_whole w q next
    where
      by_whole :
          (w : Bool)
          → leb len m ≡ w
          → out ++ take n (drop cur body) ≡ start ++ (head ++ take (cur + n) body)
          → SentSoFar
              (if w then handle_complete else handle_body)
              start
              head
              body
              (if w then 0 else m)
              (out ++ take n (drop cur body))
      by_whole true q next =
          (refl, next ∙ ap (λ x. start ++ (head ++ x)) (take-all (cur + n) body (ground arith)))
      by_whole false q next =
          (ground arith, next ∙ ap (λ k. start ++ (head ++ take k body)) (sym sum))

module _ (s : Setting) (start head body : Bytes) (c : Sender) (n : ℕ) (count : n < 2 ^ 63) where
  abbrev pub cur : ℕ
  cur = c.resp.cur_status_has_send_len

  pub no_wrap :
      (text : Bytes) → length text < 2 ^ 63 → cur ≤ length text → (cur + n) % 2 ^ 64 ≡ cur + n
  no_wrap text small fits = omega arith

  pub sent_head-IsSending :
      length head < 2 ^ 63
      → c.resp.status ≡ handle_head
      → IsSending s start head body c
      → IsSending s start head body (sent_head n c)
  unfolding sent_head
  sent_head-IsSending small st v =
      let so_far : SentSoFar handle_head start head body cur (wire c.done) = rw st at v.so_far in
      record {
        head_is = v.head_is;
        head_len = v.head_len;
        body_is = v.body_is;
        so_far =
            rw (wire-sent c.done (take n (drop cur c.resp.before_body_msg)), v.head_is)
              (head_piece start head body (wire c.done) cur n c.resp.before_body_msg_len _
                (no_wrap head small so_far.0) v.head_len so_far _ refl);
      }

  pub sent_body-IsSending :
      (b : Bytes)
      → length body < 2 ^ 63
      → c.resp.status ≡ handle_body
      → body_at s c.resp ≡ some b
      → IsSending s start head body c
      → IsSending s start head body (sent_body b n c)
  unfolding sent_body
  sent_body-IsSending b small st e v =
      let so_far : SentSoFar handle_body start head body cur (wire c.done) = rw st at v.so_far in
      let is : (b ≡ body) × (c.resp.msg_body_len ≡ length body) = rw e at v.body_is in
      record {
        head_is = v.head_is;
        head_len = v.head_len;
        body_is = v.body_is;
        so_far =
            rw (wire-sent c.done (take n (drop cur b)), is.0)
              (body_piece start head body (wire c.done) cur n c.resp.msg_body_len _
                (no_wrap body small so_far.0) is.1 so_far _ refl);
      }
