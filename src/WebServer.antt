-- ===== src/WebServer.antt =====
-- fileserver/fileserver.cpp, the loop of the main thread: it turns what epoll reports into event
-- objects for the pool, until a signal stops it. And `AcceptConn::process` of event/myevent.cpp.
pub mod Setup
pub mod LoopLaws
pub mod SetupLaws
pub mod Calls
pub mod Epoll
pub mod EpollLaws
pub mod Signals
use Prim.Native.Nat.{bit_and}
use cherokee.Base.{
  ℕ, Bool, true, false, not, ◌||◌, ◌&&◌, List, [], ◌∷◌, ◌++◌, Option, none, some, ◌==◌,
  if◌then◌else◌,
}
use cherokee.Base.Int.{ℤ, pos, negsuc}
use cherokee.Utils.{add_events}
use cherokee.World.{Effect, add_wait, set_non_blocking}

-- `new AcceptConn(..)`, `new HandleRecv(fd, ..)`, `new HandleSend(fd, ..)`
pub data Handler : Type 0 where
  accept_conn : Handler
  handle_recv : ℤ → Handler
  handle_send : ℤ → Handler

-- `epoll_event`: the descriptor and the mask of what is ready.
pub record Ready : Type 0 where
  pub fd : ℤ
  pub events : ℕ

-- The descriptors of the server: a pipe that was never made is -1.
pub record Descriptors : Type 0 where
  pub listen_fd : ℤ
  pub pipe_fd : ℤ

abbrev pub same_fd : ℤ → ℤ → Bool
same_fd (pos a) (pos b) = a == b
same_fd (negsuc a) (negsuc b) = a == b
same_fd _ _ = false

-- `events & flag`
abbrev pub has : ℕ → ℕ → Bool
has events flag = not (bit_and events flag == 0)

-- `if (event) threadPool->appendEvent(event.release(), "event")`: the pointer is empty after it.
abbrev pub append_if : Option Handler → Option Handler × List Handler
append_if none = (none, [])
append_if (some h) = (none, h ∷ [])

-- One round of the `for` loop: the pointer `event` before and after it, and what is appended.
unfoldable pub on_ready : Descriptors → Option Handler → Ready → Option Handler × List Handler
on_ready d event r =
    if same_fd r.fd d.listen_fd
    then append_if (some accept_conn)
    else if same_fd r.fd d.pipe_fd && has r.events 1
    then (event, [])
    else if has r.events 1
    then append_if (some (handle_recv r.fd))
    else if has r.events 4
    then append_if (some (handle_send r.fd))
    else append_if event

unfoldable pub for_ready : Descriptors → Option Handler → List Ready → Option Handler × List Handler
for_ready d event [] = (event, [])
for_ready d event (r ∷ rs) =
    let (event', appended) = on_ready d event r in
    let (last, others) = for_ready d event' rs in (last, appended ++ others)

-- What `epoll_wait` returns: descriptors that are ready, or -1 with EINTR or with another errno.
pub data Waited : Type 0 where
  ready : List Ready → Waited
  interrupted : Waited
  failed : Waited

-- `(signo & SIGINT) || (signo & SIGTERM)`
unfoldable pub stops : ℕ → Bool
stops signo = has signo 2 || has signo 15

-- `isStop` after the handler has run for these signals.
abbrev pub after_signals : Bool → List ℕ → Bool
after_signals is_stop [] = is_stop
after_signals is_stop (signo ∷ ss) = after_signals (is_stop || stops signo) ss

-- How `waitEpoll` ends, if it does within the rounds that are given.
pub data WaitEnd : Type 0 where
  returns : WaitEnd  -- 0
  throws : WaitEnd
  waiting : WaitEnd

abbrev pub with_more : List Handler → List Handler × WaitEnd → List Handler × WaitEnd
with_more hs (hs', e) = (hs ++ hs', e)

-- `while (!isStop)`, over the results of `epoll_wait` with the signals that arrive until the next
-- test of the flag.
unfoldable pub while_not :
    Descriptors → Bool → Option Handler → List (Waited × List ℕ) → List Handler × WaitEnd
while_not d true event rounds = ([], returns)
while_not d false event [] = ([], waiting)
while_not d false event ((failed, ss) ∷ rounds) = ([], throws)
while_not d false event ((interrupted, ss) ∷ rounds) =
    while_not d (after_signals false ss) event rounds
while_not d false event ((ready rs, ss) ∷ rounds) =
    let (event', appended) = for_ready d event rs in
    with_more appended (while_not d (after_signals false ss) event' rounds)

-- `waitEpoll`. A signal that came before it is forgotten: `isStop = false`.
unfoldable pub wait_epoll : Descriptors → Bool → List (Waited × List ℕ) → List Handler × WaitEnd
wait_epoll d is_stop rounds = while_not d false none rounds

-- `AcceptConn::process`, on the descriptor that `accept` returns.
unfoldable pub accept_process : Option ℕ → List Effect
accept_process none = []
accept_process (some fd) = set_non_blocking fd ∷ add_wait fd (add_events true true) ∷ []
