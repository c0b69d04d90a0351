-- ===== src/WebServer/Setup.antt =====
-- Setting the server up: `createListenFd` and the destructor of `WebServer`, and main.cpp.
use cherokee.Base.{
  ℕ, Bool, true, false, List, [], ◌∷◌, ◌++◌, Option, none, some, if◌then◌else◌, ◌==◌,
}
use cherokee.Base.Int.{ℤ, pos, negsuc, neg_ℕ}
use cherokee.ThreadPool.Create.{PoolCalls, create_thread_pool}
use cherokee.WebServer.Calls.{Answers}
use cherokee.WebServer.Epoll.{create_epoll, epoll_add_listen_fd}
use cherokee.WebServer.{WaitEnd, returns, throws, waiting, same_fd}

-- What the calls return: the socket, and whether each later call succeeds.
pub record Calls : Type 0 where
  pub socket : Option ℕ
  pub sets_option : Bool
  pub binds : Bool
  pub listens : Bool

-- `m_listenfd`, the descriptors closed so far, and whether an exception was thrown.
pub record Listening : Type 0 where
  pub listen_fd : ℤ
  pub closed : List ℤ
  pub thrown : Bool

abbrev give_up : ℕ → Listening
give_up fd = record { listen_fd = pos fd; closed = pos fd ∷ []; thrown = true }

abbrev with_socket : Calls → Option ℕ → Listening
with_socket c none = record { listen_fd = neg_ℕ 1; closed = []; thrown = true }
with_socket c (some fd) =
    if c.sets_option
    then (if c.binds
        then (if c.listens
            then record { listen_fd = pos fd; closed = []; thrown = false }
            else give_up fd)
        else give_up fd)
    else give_up fd

unfoldable pub create_listen_fd : Calls → Listening
create_listen_fd c = with_socket c c.socket

-- `~WebServer`, where `pool` tells whether there is a thread pool: the descriptors closed by then, and
-- whether the pool is deleted.
unfoldable pub destroy : Listening → Bool → List ℤ × Bool
destroy l pool = (
  if same_fd l.listen_fd (neg_ℕ 1) then l.closed else l.closed ++ l.listen_fd ∷ [],
  if pool then true else false,
)

-- How the process ends, if it does.
pub data Exit : Type 0 where
  exits : ℤ → Exit  -- the result of main, or exit(..)
  terminates : Exit  -- an exception leaves main
  runs : Exit

-- A set-up step: it returns 0 or throws, so that the test of its result never fails.
pub data Called : Type 0 where
  result : ℤ → Called
  thrown : Called

abbrev called : Bool → Called
called true = result (pos 0)
called false = thrown

abbrev waited : WaitEnd → Option Called
waited returns = some (result (pos 0))
waited throws = some thrown
waited waiting = none

-- `ret = ...; if (ret != 0) return code;`
abbrev check : Called → ℤ → Exit → Exit
check thrown code rest = terminates
check (result r) code rest = if same_fd r (pos 0) then rest else exits code

abbrev check_wait : Option Called → Exit
check_wait none = runs
check_wait (some c) = check c (neg_ℕ 5) (exits (pos 0))

-- What `main` finds: the result of `fork`, whether sem_init succeeds, the calls of the pool, of the
-- listening socket and of epoll, and how `waitEpoll` ends.
pub record MainCalls : Type 0 where
  pub fork : ℤ
  pub semaphore : Bool
  pub pool : PoolCalls
  pub listening : Calls
  pub answers : Answers
  pub waits : WaitEnd

abbrev not_thrown : Listening → Called
not_thrown l = if l.thrown then thrown else result (pos 0)

abbrev pub registered : MainCalls → ℤ → Option ℤ
registered c epoll_fd =
    (epoll_add_listen_fd epoll_fd (create_listen_fd c.listening).listen_fd c.answers).1

abbrev returned : Option ℤ → Called
returned none = thrown
returned (some r) = result r

-- From `createEpoll` on.
abbrev listen_on : MainCalls → Option ℤ → Exit
listen_on c none = check thrown (neg_ℕ 3) runs
listen_on c (some epoll_fd) =
    check (result (pos 0)) (neg_ℕ 3)
      (check (returned (registered c epoll_fd)) (neg_ℕ 4) (check_wait (waited c.waits)))

abbrev parent : MainCalls → Exit
parent c =
    if c.semaphore
    then check (called (create_thread_pool false c.pool)) (neg_ℕ 1) (
        check (not_thrown (create_listen_fd c.listening)) (neg_ℕ 2)
          (listen_on c (create_epoll c.answers).1))
    else exits (pos 1)

-- The child runs `cache_manager`, which waits and posts for ever once it has its semaphore.
abbrev child : MainCalls → Exit
child c = if c.semaphore then runs else exits (pos 1)

abbrev by_pid : ℤ → MainCalls → Exit
by_pid (pos pid) c = if pid == 0 then child c else parent c
by_pid (negsuc n) c = exits (pos 1)

unfoldable pub main : MainCalls → Exit
main c = by_pid c.fork c
