-- ===== src/WebServer/EpollLaws.antt =====
-- The set-up steps make their calls in order, up to the first that fails.
use Prim.Native.Nat.{bit_or}
use cherokee.Base.{ℕ, List, [], ◌∷◌, ◌++◌, Option, none, some, ◌≡◌, refl, arith}
use cherokee.Base.Int.{ℤ, pos}
use cherokee.WebServer.Calls.{
  SetupCall, get_flags, set_flags, epoll_add, make_pair, set_handler, Answers,
}
use cherokee.WebServer.Epoll.{
  o_nonblock, set_non_blocking, add_wait_fd, epoll_add_listen_fd, epoll_add_event_pipe,
  set_handlers, add_handle_sig,
}

abbrev ended : Option ℕ → SetupCall → List SetupCall × Option ℤ → List SetupCall × Option ℤ
ended none c rest = (c ∷ [], none)
ended (some n) c (cs, r) = (c ∷ cs, r)

-- The calls up to the first that fails, which makes the step throw; with none it returns 0.
abbrev pub until_failure : Answers → List SetupCall → List SetupCall × Option ℤ
until_failure a [] = ([], some (pos 0))
until_failure a (c ∷ cs) = ended (a c) c (until_failure a cs)

abbrev flags_or : Option ℕ → ℕ
flags_or none = 0
flags_or (some flags) = flags

-- The two calls that make a descriptor non-blocking: the flags it has, and one more.
abbrev pub non_blocking_calls : Answers → ℤ → List SetupCall
non_blocking_calls a fd =
    get_flags fd ∷ set_flags fd (bit_or (flags_or (a (get_flags fd))) o_nonblock) ∷ []

-- Edge-triggered reading, for every report.
abbrev pub add_call : ℤ → ℤ → SetupCall
add_call epoll_fd fd = epoll_add epoll_fd fd 2_147_483_649

abbrev pub listen_calls : Answers → ℤ → ℤ → List SetupCall
listen_calls a epoll_fd fd = non_blocking_calls a fd ++ add_call epoll_fd fd ∷ []

abbrev pub pipe_calls : Answers → ℤ → ℤ × ℤ → List SetupCall
pipe_calls a epoll_fd (read_end, write_end) =
    make_pair
    ∷ (non_blocking_calls a read_end
        ++ (non_blocking_calls a write_end ++ add_call epoll_fd read_end ∷ []))

abbrev pub handler_calls : List ℕ → List SetupCall
handler_calls [] = []
handler_calls (signo ∷ ss) = set_handler signo ∷ handler_calls ss

epoll_add_listen_fd-until_failure :
    (a : Answers) (epoll_fd fd : ℤ)
    → epoll_add_listen_fd epoll_fd fd a ≡ until_failure a (listen_calls a epoll_fd fd)
unfolding epoll_add_listen_fd set_non_blocking add_wait_fd
epoll_add_listen_fd-until_failure a epoll_fd fd = ground arith

epoll_add_event_pipe-until_failure :
    (a : Answers) (epoll_fd : ℤ) (ends : ℤ × ℤ)
    → epoll_add_event_pipe epoll_fd ends a ≡ until_failure a (pipe_calls a epoll_fd ends)
unfolding epoll_add_event_pipe set_non_blocking add_wait_fd
epoll_add_event_pipe-until_failure a epoll_fd (read_end, write_end) = ground arith

set_handlers-until_failure :
    (a : Answers) (ss : List ℕ) → set_handlers ss a ≡ until_failure a (handler_calls ss)
unfolding set_handlers
set_handlers-until_failure a [] = refl
set_handlers-until_failure a (signo ∷ ss) = ground (arith, set_handlers-until_failure a ss)

abbrev pub signals : Option ℕ → List ℕ
signals none = 2 ∷ 15 ∷ 14 ∷ []
signals (some signo) = signo ∷ []

add_handle_sig-until_failure :
    (a : Answers) (signo : Option ℕ)
    → add_handle_sig signo a ≡ until_failure a (handler_calls (signals signo))
unfolding add_handle_sig
add_handle_sig-until_failure a none = set_handlers-until_failure a (2 ∷ 15 ∷ 14 ∷ [])
add_handle_sig-until_failure a (some signo) = set_handlers-until_failure a (signo ∷ [])

-- The steps that register the listening socket, make the pipe and install the handlers of signals
-- each make their calls in a fixed order up to the first that fails, and then throw; where none
-- fails, they make all of them and return 0. The flags of a descriptor are set to those it has and
-- O_NONBLOCK, before it is registered, and both descriptors for edge-triggered reading.
pub setup_steps-until_failure :
    (a : Answers) (epoll_fd listen_fd : ℤ) (ends : ℤ × ℤ) (signo : Option ℕ)
    → (epoll_add_listen_fd epoll_fd listen_fd a
        ≡ until_failure a (listen_calls a epoll_fd listen_fd))
      × (epoll_add_event_pipe epoll_fd ends a ≡ until_failure a (pipe_calls a epoll_fd ends))
      × (add_handle_sig signo a ≡ until_failure a (handler_calls (signals signo)))
setup_steps-until_failure a epoll_fd listen_fd ends signo = (
  epoll_add_listen_fd-until_failure a epoll_fd listen_fd,
  epoll_add_event_pipe-until_failure a epoll_fd ends,
  add_handle_sig-until_failure a signo,
)
