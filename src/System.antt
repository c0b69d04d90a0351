-- ===== src/System.antt =====
-- The handlers of the connections together, over the two maps of `EventBase` that they share: what one
-- call leaves there is what the next call finds.
pub mod Exchange
pub mod Invariant
pub mod Calm
pub mod Serve
pub mod Delete
pub mod Missing
pub mod Upload
pub mod SentFiles
pub mod Put
pub mod Session
pub mod Files
pub mod StoreFetch
use cherokee.Base.{ℕ, List, Option, none, ◌≡◌}
use cherokee.Fault.{Result, ok}
use cherokee.Recv
use cherokee.Send
use cherokee.Send.Build
use cherokee.Text.{Bytes}
use cherokee.World.{Effect, Tables}

abbrev pub no_entries : Tables
no_entries = record { requests = λ fd. none; responses = λ fd. none }

-- A call of a handler, and what it finds outside.
pub data Call : Type 0 where
  recv_call : Recv.Setting → List Bytes → Recv.RecvEnd → Call
  send_call : Build.Setting → List ℕ → Send.SendStop → Call

abbrev pub fd_of : Call → ℕ
fd_of (recv_call r chunks e) = r.client_fd
fd_of (send_call s ns stop) = s.client_fd

-- `event->process()`, with no other call in between: the order of what it writes to the two maps and of
-- what it does outside is left out.
abbrev pub run : Call → Tables → Result (Tables × List Effect)
run (recv_call r chunks e) t = Recv.process r t chunks e
run (send_call s ns stop) t = Send.process s t ns stop

-- The entries that calls that return can lead to, for any descriptors and one after the other.
pub data Reach : Tables → Type 0 where
  begin : Reach no_entries
  then_call :
      {t t' : Tables} (k : Call) (done : List Effect) → Reach t → run k t ≡ ok (t', done) → Reach t'
