-- ===== src/WebServer/Epoll.antt =====
-- fileserver/fileserver.cpp: `createEpoll`, `epollAddListenFd`, `epollAddEventPipe`, `addHandleSig`, and
-- the private `setNonBlocking` and `addWaitFd`, which throw.
use Prim.Native.Nat.{bit_or}
use cherokee.Base.{ℕ, Bool, true, false, List, [], ◌∷◌, Option, none, some, if◌then◌else◌}
use cherokee.Base.Int.{ℤ, pos}
use cherokee.Utils.{epollin, epollet, epolloneshot}
use cherokee.WebServer.Calls.{
  get_flags, set_flags, make_epoll, epoll_add, make_pair, set_handler, Setup, ask, return, ◌>>=◌,
}

abbrev pub o_nonblock : ℕ
o_nonblock = 2048

unfoldable pub set_non_blocking : ℤ → Setup ℕ
set_non_blocking fd = do flags ← ask (get_flags fd); ask (set_flags fd (bit_or flags o_nonblock))

-- `ev.events`, which does not depend on `enableET`.
abbrev pub wait_events : Bool → ℕ
wait_events one_shot =
    if one_shot then bit_or (bit_or epollin epollet) epolloneshot else bit_or epollin epollet

unfoldable pub add_wait_fd : ℤ → ℤ → Bool → Bool → Setup ℕ
add_wait_fd epoll_fd fd enable_et one_shot = ask (epoll_add epoll_fd fd (wait_events one_shot))

-- The descriptor goes to `m_epollfd`.
unfoldable pub create_epoll : Setup ℤ
create_epoll = do fd ← ask make_epoll; return (pos fd)

unfoldable pub epoll_add_listen_fd : ℤ → ℤ → Setup ℤ
epoll_add_listen_fd epoll_fd listen_fd = do
  r ← set_non_blocking listen_fd
  ret ← add_wait_fd epoll_fd listen_fd true false
  return (pos 0)

-- The two ends are what socketpair puts into `eventHandlerPipe`.
unfoldable pub epoll_add_event_pipe : ℤ → ℤ × ℤ → Setup ℤ
epoll_add_event_pipe epoll_fd (read_end, write_end) = do
  made ← ask make_pair
  r ← set_non_blocking read_end
  w ← set_non_blocking write_end
  ret ← add_wait_fd epoll_fd read_end true false
  return (pos 0)

unfoldable pub set_handlers : List ℕ → Setup ℤ
set_handlers [] = return (pos 0)
set_handlers (signo ∷ ss) = do set ← ask (set_handler signo); set_handlers ss

-- `none` for -1: SIGINT, SIGTERM and SIGALRM.
unfoldable pub add_handle_sig : Option ℕ → Setup ℤ
add_handle_sig none = set_handlers (2 ∷ 15 ∷ 14 ∷ [])
add_handle_sig (some signo) = set_handlers (signo ∷ [])
