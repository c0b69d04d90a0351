-- ===== src/Tests/ServerWitnesses.antt =====
-- The theorems on the main thread, at concrete inputs.
use cherokee.Base.{ℕ, true, false, List, [], ◌∷◌, none, some, ◌≡◌, refl, arith}
use cherokee.Base.Int.{pos, neg_ℕ}
use cherokee.WebServer.{Descriptors, Waited, ready, interrupted, failed, waiting, wait_epoll}
use cherokee.WebServer.LoopLaws.{served, wait_epoll-served}
use cherokee.WebServer.Signals.{Interrupted, handle_signals, handle_signals-after_all}
use cherokee.WebServer.SetupLaws.{destroy-closes}
use cherokee.WebServer.Setup.{Calls, create_listen_fd, destroy, MainCalls, main, exits}

abbrev descriptors : Descriptors
descriptors = record { listen_fd = pos 3; pipe_fd = neg_ℕ 1 }

-- A connection and a request, a signal that is not caught here, and SIGINT.
abbrev rounds : List (Waited × List ℕ)
rounds =
    (ready (record { fd = pos 3; events = 1 } ∷ record { fd = pos 7; events = 5 } ∷ []), [])
    ∷ (interrupted, 16 ∷ [])
    ∷ (ready (record { fd = pos 7; events = 4 } ∷ []), 2 ∷ [])
    ∷ (failed, [])
    ∷ []

wait_epoll-served_example : wait_epoll descriptors true rounds ≡ served descriptors rounds
wait_epoll-served_example = wait_epoll-served descriptors true rounds

-- SIGALRM, and SIGURG before it with an error of `send`.
abbrev running : Interrupted
running = record { is_stop = false; errno = 4; told = [] }

handle_signals-after_all_example :
    handle_signals (neg_ℕ 1) ((16, 9) ∷ (14, 9) ∷ []) running
    ≡ record { is_stop = true; errno = 4; told = (neg_ℕ 1, 16) ∷ (neg_ℕ 1, 14) ∷ [] }
handle_signals-after_all_example =
    handle_signals-after_all (neg_ℕ 1) ((16, 9) ∷ (14, 9) ∷ []) running
      (omega arith, (omega arith, tt))

abbrev busy_port : Calls
busy_port = record { socket = some 3; sets_option = true; binds = false; listens = true }

destroy-closes_example :
    ((create_listen_fd busy_port).thrown ≡ true)
    × (destroy (create_listen_fd busy_port) true ≡ (pos 3 ∷ pos 3 ∷ [], true))
destroy-closes_example = destroy-closes busy_port 3 true refl

abbrev no_fork : MainCalls
no_fork = record {
  fork = neg_ℕ 1;
  semaphore = true;
  pool = record { makes_mutex = true; makes_semaphore = true; makes_threads = [] };
  listening = busy_port;
  answers = λ c. none;
  waits = waiting;
}

no_fork_run : main no_fork ≡ exits (pos 1)
unfolding main
no_fork_run = refl
