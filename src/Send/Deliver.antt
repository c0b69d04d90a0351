-- ===== src/Send/Deliver.antt =====
-- A response that is prepared, from its first byte to its last.
use cherokee.Base.{
  ◌∷◌, ◌≢◌, subst, ℕ, ◌+◌, ◌^◌, ◌≤◌, ◌<◌, List, [], ◌++◌, ◌≡◌, refl, ap, ◌∙◌, arith, length,
  length-append, inl, append-nil,
}
use cherokee.Fault.{ok}
use cherokee.Message.{
  handle_init, handle_head, handle_complete, file_type, html_type, MsgBodyType, empty_type,
  Response, new_response,
}
use cherokee.Send.Closing.{Keeps, send_loop_inv}
use cherokee.Utils.{modify_events}
use cherokee.World.{modify_wait}
use cherokee.World.Arming.{AllQuiet, AllQuiet-append, Rearms, for_reading}
use cherokee.Send.{
  SendStop, again, broken, stopped, sent_head, sent_body, send_loop, conclude, last_close,
  after_prepare, conclude_result, send_response,
}
use cherokee.Send.Build.{Setting, Sender, next, dispatch_result, prepare, prepare_at}
use cherokee.Send.Completion.{ArePositive, send_loop-completes}
use cherokee.Send.Page.{status_line}
use cherokee.Send.Pieces.{wire, wire-append, IsSending, AreCounts}
use cherokee.Send.Routing.{route}
use cherokee.Text.{Bytes, codes, crlf}

-- Every byte of `head` and `body` goes out behind what is out, the entry is a fresh one, and the
-- handler ends by waiting for the client, whose descriptor is open, unless it has closed the one that
-- the fresh entry happens to hold.
abbrev pub Delivers : Setting → List ℕ → SendStop → Sender → Bytes → Bytes → Type 0
Delivers s ns stop c head body =
    (c' : Sender) × (send_response s ns stop c ≡ ok c')
    × (wire c'.done ≡ wire c.done ++ (head ++ body))
    × (c'.req ≡ c.req)
    × (c'.resp ≡ new_response s.garbage_after)
    × (s.garbage_after.body_type ≢ file_type → Rearms s.client_fd for_reading c'.done)

-- Enough calls, each of which takes a byte at least.
abbrev pub AreEnough : ℕ → List ℕ → Type 0
AreEnough size ns = AreCounts ns × ArePositive ns × (size + 2 ≤ length ns)

wire-last_close : (s : Setting) (type : MsgBodyType) → wire (last_close s type) ≡ []
wire-last_close s file_type = refl
wire-last_close s html_type = refl
wire-last_close s empty_type = refl

concluded : (s : Setting) (c : Sender) → wire (conclude handle_complete s c).done ≡ wire c.done
unfolding conclude
concluded s c =
    wire-append c.done _
    ∙ ap (◌++◌ (wire c.done)) (wire-last_close s s.garbage_after.body_type)
    ∙ append-nil (wire c.done)

-- Sending does not touch a registration.
module _ (s : Setting) (stop : SendStop) where
  abbrev Quiet : Sender → Type 0
  Quiet c = AllQuiet c.done

  heads : (n : ℕ) (c : Sender) → Quiet c → Quiet (sent_head n c)
  unfolding sent_head
  heads n c h = AllQuiet-append c.done _ h (tt, tt)

  bodies : (b : Bytes) (n : ℕ) (c : Sender) → Quiet c → Quiet (sent_body b n c)
  unfolding sent_body
  bodies b n c h = AllQuiet-append c.done _ h (tt, tt)

  stops : (x : SendStop) (c : Sender) → Quiet c → Quiet (stopped x c)
  unfolding stopped
  stops again c h = h
  stops broken c h = h

  send_loop-Quiet : (ns : List ℕ) (c : Sender) → Quiet c → Keeps Quiet (send_loop s ns stop c)
  send_loop-Quiet = send_loop_inv Quiet s stop heads bodies (λ c h. h) (stops stop)

no_last_close : (s : Setting) (type : MsgBodyType) → type ≢ file_type → last_close s type ≡ []
no_last_close s file_type h = absurd (h refl)
no_last_close s html_type h = refl
no_last_close s empty_type h = refl

conclude-Rearms :
    (s : Setting) (c : Sender)
    → s.garbage_after.body_type ≢ file_type
    → AllQuiet c.done
    → Rearms s.client_fd for_reading (conclude handle_complete s c).done
unfolding conclude modify_events
conclude-Rearms s c no_file quiet = (
  c.done,
  ap (λ es. c.done ++ modify_wait s.client_fd for_reading ∷ es)
      (no_last_close s s.garbage_after.body_type no_file),
  quiet,
)

module _ (s : Setting) (ns : List ℕ) (stop : SendStop) (head body : Bytes)
    (small_head : length head < 2 ^ 63) (small_body : length body < 2 ^ 63)
    (enough : AreEnough (length head + length body) ns) where
  pub Delivers-prepared :
      (c c1 : Sender)
      → prepare s c ≡ next c1
      → c1.req ≡ c.req
      → c1.resp.status ≡ handle_head
      → c1.resp.cur_status_has_send_len ≡ 0
      → IsSending s (wire c.done) head body c1
      → AllQuiet c1.done
      → Delivers s ns stop c head body
  unfolding send_response conclude
  Delivers-prepared c c1 e same st cur v quiet =
      let (c', run, done, req, out) =
        send_loop-completes s (wire c.done) head body stop small_head small_body ns c1 enough.0
          enough.1 (inl st) v (rw (st, cur) (omega (arith, enough.2))) in
      (
        conclude handle_complete s c',
        ap (after_prepare s ns stop) e
            ∙ ap (conclude_result s) run
            ∙ ap (λ m. ok (conclude m s c')) done,
        concluded s c' ∙ out,
        req ∙ same,
        refl,
        λ no_file.
            conclude-Rearms s c' no_file
              (subst (Keeps (λ c. AllQuiet c.done)) run (send_loop-Quiet s stop ns c1 quiet)),
      )

-- A new response, for a path.
abbrev pub ForPath : Setting → Response → Bytes → Type 0
ForPath s p path = (p.status ≡ handle_init) × (p.body_file_name ≡ path)

pub prepare-route :
    (s : Setting) (c : Sender) (path : Bytes)
    → ForPath s c.resp path
    → prepare s c ≡ dispatch_result s c (route path)
unfolding prepare prepare_at
prepare-route s c path (st, name) =
    ap (λ m. prepare_at m s c) st ∙ ap (λ n. dispatch_result s c (route n)) name

ok_line : length (status_line (codes "HTTP/1.1") (codes "200") (codes "OK")) ≤ 20
unfolding status_line
ok_line = omega arith

-- `head ++ crlf` for any header of at most 160 bytes.
pub small_answer :
    (h : Bytes)
    → length h ≤ 160
    → length ((status_line (codes "HTTP/1.1") (codes "200") (codes "OK") ++ h) ++ crlf) < 2 ^ 63
small_answer h k = omega (
  arith,
  ok_line,
  length-append {0} (status_line (codes "HTTP/1.1") (codes "200") (codes "OK") ++ h) crlf,
  length-append {0} (status_line (codes "HTTP/1.1") (codes "200") (codes "OK")) h,
)
