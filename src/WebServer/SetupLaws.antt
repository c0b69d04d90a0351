-- ===== src/WebServer/SetupLaws.antt =====
-- Failures of the set-up, and how the program ends.
use cherokee.ThreadPool.Create.{create_thread_pool, no_failure, new_thread_pool-no_failure}
use cherokee.WebServer.{WaitEnd, returns, throws, waiting}
use cherokee.WebServer.Calls.{SetupCall, make_epoll, Answers}
use cherokee.WebServer.EpollLaws.{listen_calls}
use cherokee.Base.{
  ℕ, suc, Bool, true, false, not, List, Option, none, ◌&&◌, [], ◌∷◌, some, ◌≡◌, ◌⊎◌, if◌then◌else◌,
  arith,
}
use cherokee.Base.Int.{ℤ, pos}
use cherokee.WebServer.Epoll.{epoll_add_listen_fd, set_non_blocking, add_wait_fd, create_epoll}
use cherokee.WebServer.Setup.{
  Calls, create_listen_fd, destroy, Exit, exits, terminates, runs, MainCalls, main,
}

-- Where the parent or the child of main.cpp ends with a result of `main` or of `exit`, whatever its
-- calls return, the result is 0 or 1, and never one of the results -1 to -5 that
-- main keeps for failing steps.
pub main-codes : (c : MainCalls) (r : ℤ) → main c ≡ exits r → (r ≡ pos 0) ⊎ (r ≡ pos 1)
unfolding main create_listen_fd epoll_add_listen_fd set_non_blocking add_wait_fd
main-codes c r h = ground arith

-- Once `socket` has returned a descriptor, `createListenFd` throws just where `setsockopt`, `bind` or
-- `listen` fails. A destructor that runs then closes the descriptor again, which is closed but still in
-- `m_listenfd`; where none of the three fails, it is closed once, by the destructor. Whether the pool
-- is deleted depends on nothing but whether there is one.
pub destroy-closes :
    (c : Calls) (fd : ℕ) (pool : Bool)
    → c.socket ≡ some fd
    → let listens = c.sets_option && (c.binds && c.listens) in
      ((create_listen_fd c).thrown ≡ not listens)
      × (destroy (create_listen_fd c) pool
          ≡ (if listens then pos fd ∷ [] else pos fd ∷ pos fd ∷ [], pool))
unfolding destroy create_listen_fd
destroy-closes c fd pool h = ground arith

abbrev is_some : Option ℕ → Bool
is_some none = false
is_some (some n) = true

abbrev pub answers_all : Answers → List SetupCall → Bool
answers_all a [] = true
answers_all a (c ∷ cs) = if is_some (a c) then answers_all a cs else false

-- The calls that register the socket, where there are a socket and an epoll descriptor.
abbrev pub registers : Answers → Option ℕ → Option ℕ → Bool
registers a (some fd) (some epoll_fd) = answers_all a (listen_calls a (pos epoll_fd) (pos fd))
registers a _ _ = false

-- No call of the set-up fails.
abbrev pub is_set_up : MainCalls → Bool
is_set_up c =
    no_failure c.pool
    && ((c.listening.sets_option && (c.listening.binds && c.listening.listens))
        && registers c.answers c.listening.socket (c.answers make_epoll))

abbrev pub after_wait : WaitEnd → Exit
after_wait returns = exits (pos 0)
after_wait throws = terminates
after_wait waiting = runs

-- In the parent process, once the semaphore is there: where some call of the set-up fails, an
-- exception ends the process; where none fails, the process ends with 0 when `waitEpoll` returns, and
-- by an exception when that throws.
pub main-parent :
    (c : MainCalls) (pid : ℕ)
    → c.fork ≡ pos (suc pid)
    → c.semaphore ≡ true
    → main c ≡ (if is_set_up c then after_wait c.waits else terminates)
unfolding main create_thread_pool create_listen_fd create_epoll epoll_add_listen_fd set_non_blocking
    add_wait_fd
main-parent c pid child sem = let pool = (new_thread_pool-no_failure c.pool).0 in ground arith
