-- ===== src/System/Invariant.antt =====
-- The entries of the two maps in every state that calls of the handlers lead to.
use cherokee.Base.{
  ℕ, Bool, true, false, List, [], Option, none, some, ◌≡◌, ◌≢◌, refl, subst, inl, inr, ◌==◌,
  if◌then◌else◌,
}
use cherokee.Fault.{Result, ok, fault, hangs}
use cherokee.Message.{
  MsgStatus, handle_init, handle_head, handle_body, handle_complete, handle_error, Request,
  Response,
}
use cherokee.Recv
use cherokee.Recv.{Conn, RecvEnd, recv_loop, conn_of, settle, finish}
use cherokee.Recv.Kept.{IsOver, RestsIn, recv_loop-IsOver, recv_loop-RestsIn}
use cherokee.Recv.Rule.{OnOk}
use cherokee.Recv.Valid.{IsKept}
use cherokee.Send
use cherokee.Send.Build
use cherokee.Send.{SendStop, process_at, send_response, store}
use cherokee.Send.Build.{Sender}
use cherokee.Send.Bounds.{InBounds}
use cherokee.Send.Kept.{KeptIn, SenderKeeps, req_of-IsKept, send_response-Keeps}
use cherokee.Send.Resting.{HasLabel, Ends, Rests, send_response-RestsOrFaults, send_response-Rests}
use cherokee.System.{Call, recv_call, send_call, run, Reach, begin, then_call}
use cherokee.Text.{Bytes}
use cherokee.World.{Effect, Table, Tables, set_at}

-- Each request is incomplete, with the boundary of its upload at hand once the upload has begun; each
-- response is unfinished, with what is sent next inside its texts.
abbrev pub EntriesRest : Tables → Type 0
EntriesRest t = (fd : ℕ) → KeptIn (t.requests fd) × RestsIn (t.responses fd)

pub set_at-all :
    {A : Type 0} (P : Option A → Type 0) (f : Table A) (fd : ℕ) (v : Option A)
    → ((j : ℕ) → P (f j))
    → P v
    → (j : ℕ) → P (set_at f fd v j)
set_at-all P f fd v h pv j = chosen (fd == j)
  where
    chosen : (b : Bool) → P (if b then v else f j)
    chosen true = pv
    chosen false = h j

-- What a call leaves, if it returns.
abbrev pub TablesRest : Result (Tables × List Effect) → Type 0
TablesRest (ok (t, done)) = EntriesRest t
TablesRest (fault e) = Unit

not_over : (c : Conn) → c.req.status ≢ handle_complete → IsOver c → IsKept c.req
not_over c ne (inl e) = absurd (ne e)
not_over c ne (inr h) = h

settle-KeptIn :
    (s : Recv.Setting) (st : MsgStatus) (c : Conn)
    → c.req.status ≡ st
    → IsOver c
    → KeptIn (settle s st c).0
settle-KeptIn s handle_complete c e h = tt
settle-KeptIn s handle_error c e h = tt
settle-KeptIn s handle_init c e h = not_over c (λ z. cc) h
settle-KeptIn s handle_head c e h = not_over c (λ z. cc) h
settle-KeptIn s handle_body c e h = not_over c (λ z. cc) h

finish-Rest :
    (s : Recv.Setting) (t : Tables) (m : Result Conn)
    → EntriesRest t
    → OnOk IsOver m
    → OnOk (λ c. RestsIn c.resp) m
    → TablesRest (finish s t m)
finish-Rest s t (ok c) h over within = λ fd. (
  set_at-all KeptIn t.requests s.client_fd _ (λ j. (h j).0)
      (settle-KeptIn s c.req.status c refl over) fd,
  set_at-all RestsIn t.responses s.client_fd c.resp (λ j. (h j).1) within fd,
)
finish-Rest s t (fault e) h over within = tt

received-Rest :
    (s : Recv.Setting) (t : Tables) (chunks : List Bytes) (e : RecvEnd)
    → EntriesRest t
    → TablesRest (Recv.process s t chunks e)
unfolding Recv.process
received-Rest s t chunks e h =
    let c = conn_of s t in
    finish-Rest s t (recv_loop s c chunks e) h
      (recv_loop-IsOver s c chunks e (req_of-IsKept (t.requests s.client_fd) (h s.client_fd).0))
      (recv_loop-RestsIn s c chunks e (h s.client_fd).1)

store-Rest :
    (s : Build.Setting) (t : Tables) (m : Result Sender)
    → EntriesRest t
    → SenderKeeps m
    → Rests (λ e. Unit) m
    → TablesRest (store s t m)
store-Rest s t (ok c) h kept within = λ fd. (
  set_at-all KeptIn t.requests s.client_fd c.req (λ j. (h j).0) kept fd,
  set_at-all RestsIn t.responses s.client_fd (some c.resp) (λ j. (h j).1) within fd,
)
store-Rest s t (fault e) h kept within = tt

process_at-Rest :
    (s : Build.Setting) (t : Tables) (ns : List ℕ) (stop : SendStop) (o : Option Response)
    → EntriesRest t
    → RestsIn o
    → TablesRest (process_at s t ns stop o)
process_at-Rest s t ns stop none h v = h
process_at-Rest s t ns stop (some p) h v =
    let c : Sender = record { req = t.requests s.client_fd; resp = p; done = [] } in
    store-Rest s t (send_response s ns stop c) h (send_response-Keeps s ns stop c (h s.client_fd).0)
      (send_response-RestsOrFaults s ns stop c v)

written-Rest :
    (s : Build.Setting) (t : Tables) (ns : List ℕ) (stop : SendStop)
    → EntriesRest t
    → TablesRest (Send.process s t ns stop)
unfolding Send.process
written-Rest s t ns stop h =
    process_at-Rest s t ns stop (t.responses s.client_fd) h (h s.client_fd).1

pub run-Rest : (k : Call) (t : Tables) → EntriesRest t → TablesRest (run k t)
run-Rest (recv_call r chunks e) t h = received-Rest r t chunks e h
run-Rest (send_call s ns stop) t h = written-Rest s t ns stop h

pub Reach-EntriesRest : {t : Tables} → Reach t → EntriesRest t
Reach-EntriesRest begin = λ fd. (tt, tt)
Reach-EntriesRest (then_call k done p q) = subst TablesRest q (run-Rest k _ (Reach-EntriesRest p))

-- After any calls of the two handlers that return, for any descriptors and with whatever the system
-- answers them, no request in the map is complete, no upload has begun before the header of its
-- request is complete, and one whose first boundary line has been read has its boundary at hand.
pub Reach-IsKept : {t : Tables} (fd : ℕ) (r : Request) → Reach t → t.requests fd ≡ some r → IsKept r
Reach-IsKept fd r reached e = subst KeptIn e (Reach-EntriesRest reached fd).0

-- After any calls of the two handlers that return, for any descriptors and with whatever the system
-- answers them, no response in the map is over or failed, what it sends next begins inside the header
-- or within the announced length of the body, and the announced length of a list page that is being
-- sent is the length of the page.
pub Reach-InBounds :
    {t : Tables} (fd : ℕ) (p : Response) → Reach t → t.responses fd ≡ some p → InBounds p
Reach-InBounds fd p reached e = subst RestsIn e (Reach-EntriesRest reached fd).1

store-ne-hangs :
    (s : Build.Setting) (t : Tables) (m : Result Sender) → Rests Ends m → store s t m ≢ fault hangs
store-ne-hangs s t (ok c) h = λ e. cc
store-ne-hangs s t (fault e) h = λ q. subst EndsIn q h
  where
    EndsIn : Result (Tables × List Effect) → Type 0
    EndsIn (ok r) = Unit
    EndsIn (fault e) = Ends e

process_at-ne-hangs :
    (s : Build.Setting) (t : Tables) (ns : List ℕ) (stop : SendStop) (o : Option Response)
    → HasLabel s
    → RestsIn o
    → process_at s t ns stop o ≢ fault hangs
process_at-ne-hangs s t ns stop none labelled v = λ e. cc
process_at-ne-hangs s t ns stop (some p) labelled v =
    store-ne-hangs s t _ (send_response-Rests s ns stop _ labelled v)

-- After any calls of the two handlers that return, the handler that sends reaches neither of two loops
-- that would go round for ever with no call in them: that of the list page, where the template has its
-- label, and that of sending, which in HANDLE_INIT or HANDLE_COMPLETE would neither send nor leave.
pub process-ne-hangs :
    {t : Tables} (s : Build.Setting) (ns : List ℕ) (stop : SendStop)
    → Reach t
    → HasLabel s
    → Send.process s t ns stop ≢ fault hangs
unfolding Send.process
process-ne-hangs {t} s ns stop reached labelled =
    process_at-ne-hangs s t ns stop (t.responses s.client_fd) labelled
      (Reach-EntriesRest reached s.client_fd).1
