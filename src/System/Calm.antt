-- ===== src/System/Calm.antt =====
-- Calls of the handlers that touch the registration of a descriptor last.
use cherokee.Base.{ℕ, List, Option, none, some, ◌≡◌, ◌≢◌, refl, subst, sym}
use cherokee.Fault.{Result, ok, fault}
use cherokee.Message.{
  MsgStatus, handle_init, handle_head, handle_body, handle_complete, handle_error, file_type,
  Response,
}
use cherokee.Recv
use cherokee.Recv.{Conn, RecvEnd, recv_loop, conn_of, settle, finish}
use cherokee.Recv.Arming.{EffectsArmLast, received-ArmsLast, EffectsEndTurn, received-EndsTurn}
use cherokee.Recv.Returns.{CanAppend}
use cherokee.Recv.Kept.{RestsIn}
use cherokee.Send
use cherokee.Send.{SendStop, again, store, process_at, send_response}
use cherokee.Send.Build
use cherokee.Send.Build.{Sender}
use cherokee.Send.Arming.{
  SoundIn, req_of-IsSound, written-ArmsLast, written-EndsTurn, EndedOk, send_response-EndedOk,
}
use cherokee.System.{Call, recv_call, send_call, fd_of, run, Reach, begin, then_call}
use cherokee.System.Invariant.{EntriesRest, set_at-all, Reach-EntriesRest}
use cherokee.World.{Effect, Tables}
use cherokee.World.Arming.{ArmsLast, EndsTurn}

-- Sending does not break, and the entry that is made at the end of a response happens not to be of the
-- type of a file.
abbrev pub IsCalmCall : Call → Type 0
IsCalmCall (recv_call r chunks e) = Unit
IsCalmCall (send_call s ns stop) = (stop ≡ again) × (s.garbage_after.body_type ≢ file_type)

abbrev pub IsCalm : {t : Tables} → Reach t → Type 0
IsCalm begin = Unit
IsCalm (then_call k done p q) = IsCalm p × IsCalmCall k

-- No entry of a request has been marked as failed.
abbrev AllSound : Tables → Type 0
AllSound t = (fd : ℕ) → SoundIn (t.requests fd)

abbrev SoundAfter : Result (Tables × List Effect) → Type 0
SoundAfter (ok (t, done)) = AllSound t
SoundAfter (fault e) = Unit

-- A request that has been marked as failed is erased.
settle-SoundIn :
    (s : Recv.Setting) (st : MsgStatus) (c : Conn) → c.req.status ≡ st → SoundIn (settle s st c).0
settle-SoundIn s handle_complete c e = tt
settle-SoundIn s handle_error c e = tt
settle-SoundIn s handle_init c e = λ z. cc
settle-SoundIn s handle_head c e = λ z. cc
settle-SoundIn s handle_body c e = λ z. cc

finish-Sound :
    (s : Recv.Setting) (t : Tables) (m : Result Conn) → AllSound t → SoundAfter (finish s t m)
finish-Sound s t (ok c) h =
    set_at-all SoundIn t.requests s.client_fd _ h (settle-SoundIn s c.req.status c refl)
finish-Sound s t (fault e) h = tt

received-Sound :
    (s : Recv.Setting) (t : Tables) (chunks : List (List ℕ)) (e : RecvEnd)
    → AllSound t
    → SoundAfter (Recv.process s t chunks e)
unfolding Recv.process
received-Sound s t chunks e h = finish-Sound s t (recv_loop s (conn_of s t) chunks e) h

module _ (s : Build.Setting) (no_file : s.garbage_after.body_type ≢ file_type) where
  store-Sound :
      (t : Tables) (m : Result Sender) → AllSound t → EndedOk s no_file m → SoundAfter (store s t m)
  store-Sound t (ok c) h ended = set_at-all SoundIn t.requests s.client_fd c.req h ended.1
  store-Sound t (fault e) h ended = tt

  process_at-Sound :
      (t : Tables) (ns : List ℕ) (o : Option Response)
      → AllSound t
      → RestsIn o
      → SoundAfter (process_at s t ns again o)
  process_at-Sound t ns none h rests = h
  process_at-Sound t ns (some p) h rests =
      store-Sound t _ h (send_response-EndedOk s no_file t ns p rests (h s.client_fd))

  written-Sound :
      (t : Tables) (ns : List ℕ)
      → AllSound t
      → EntriesRest t
      → SoundAfter (Send.process s t ns again)
  unfolding Send.process
  written-Sound t ns h rest = process_at-Sound t ns (t.responses s.client_fd) h (rest s.client_fd).1

run-Sound :
    (k : Call) (t : Tables) → IsCalmCall k → EntriesRest t → AllSound t → SoundAfter (run k t)
run-Sound (recv_call r chunks e) t calm rest h = received-Sound r t chunks e h
run-Sound (send_call s ns stop) t calm rest h =
    subst (λ x. SoundAfter (Send.process s t ns x)) (sym calm.0)
      (written-Sound s calm.1 t ns h rest)

run-ArmsLast :
    (k : Call) (t : Tables)
    → IsCalmCall k
    → EntriesRest t
    → AllSound t
    → EffectsArmLast (fd_of k) (run k t)
run-ArmsLast (recv_call r chunks e) t calm rest h =
    received-ArmsLast r t chunks e (req_of-IsSound (t.requests r.client_fd) (h r.client_fd))
run-ArmsLast (send_call s ns stop) t calm rest h =
    subst (λ x. EffectsArmLast s.client_fd (Send.process s t ns x)) (sym calm.0)
      (written-ArmsLast s calm.1 t ns (rest s.client_fd).1 (h s.client_fd))

-- Every upload can be opened, and a handler that sends finds a response.
abbrev pub IsServedCall : Tables → Call → Type 0
IsServedCall t (recv_call r chunks e) = CanAppend r
IsServedCall t (send_call s ns stop) = (p : Response) × (t.responses s.client_fd ≡ some p)

run-EndsTurn :
    (k : Call) (t : Tables)
    → IsCalmCall k
    → IsServedCall t k
    → EntriesRest t
    → AllSound t
    → EffectsEndTurn (run k t)
run-EndsTurn (recv_call r chunks e) t calm all rest h =
    received-EndsTurn r t chunks e all (Recv.process r t chunks e) refl
run-EndsTurn (send_call s ns stop) t calm (p, e) rest h =
    subst (λ x. EffectsEndTurn (Send.process s t ns x)) (sym calm.0)
      (written-EndsTurn s calm.1 t ns p e (rest s.client_fd).1 (h s.client_fd))

Reach-AllSound : {t : Tables} (p : Reach t) → IsCalm p → AllSound t
Reach-AllSound begin calm = λ fd. tt
Reach-AllSound (then_call {t} k done p q) calm =
    subst SoundAfter q (run-Sound k t calm.1 (Reach-EntriesRest p) (Reach-AllSound p calm.0))

-- After any calls of the two handlers, one after the other, a further call that returns registers or
-- closes no descriptor but its own, does one of the two just once, and does nothing outside after it.
-- Here sending does not break in any call, and no entry that is made at the end of a response happens to
-- be of the type of a file; in the last call each upload can be opened, and a handler that sends finds
-- a response. What is written to the maps is not put in order with what is done outside.
pub Reach-ArmsLast :
    {t t' : Tables} (k : Call) (done : List Effect) (p : Reach t)
    → IsCalm p
    → IsCalmCall k
    → IsServedCall t k
    → run k t ≡ ok (t', done)
    → ArmsLast (fd_of k) done × EndsTurn done
Reach-ArmsLast {t} k done p calm last served e =
    let rest = Reach-EntriesRest p in
    let sound = Reach-AllSound p calm in
    (
      subst (EffectsArmLast (fd_of k)) e (run-ArmsLast k t last rest sound),
      subst EffectsEndTurn e (run-EndsTurn k t last served rest sound),
    )
