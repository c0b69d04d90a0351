-- ===== src/Tests/SetupWitnesses.antt =====
-- The theorems on the set-up of the server and of the pool, at concrete inputs.
use cherokee.Base.{◌≡◌, refl, true, false, [], ◌∷◌, none, some, if◌then◌else◌}
use cherokee.Base.Int.{pos}
use cherokee.ThreadPool.Create.{PoolCalls, new_thread_pool, new_thread_pool-no_failure}
use cherokee.WebServer.{returns}
use cherokee.WebServer.Calls.{get_flags, make_epoll, epoll_add, Answers}
use cherokee.WebServer.Epoll.{epoll_add_listen_fd, epoll_add_event_pipe, add_handle_sig}
use cherokee.WebServer.EpollLaws.{
  until_failure, listen_calls, pipe_calls, handler_calls, signals, setup_steps-until_failure,
}
use cherokee.WebServer.Setup.{MainCalls, main, terminates}
use cherokee.WebServer.SetupLaws.{is_set_up, after_wait, main-parent}

-- The descriptor 3 has the flags 2, and cannot be registered.
abbrev no_room : Answers
no_room (get_flags fd) = some 2
no_room (epoll_add epoll_fd fd events) = none
no_room make_epoll = some 4
no_room c = some 0

setup_steps-until_failure_example :
    (epoll_add_listen_fd (pos 4) (pos 3) no_room
      ≡ until_failure no_room (listen_calls no_room (pos 4) (pos 3)))
    × (epoll_add_event_pipe (pos 4) (pos 5, pos 6) no_room
        ≡ until_failure no_room (pipe_calls no_room (pos 4) (pos 5, pos 6)))
    × (add_handle_sig none no_room ≡ until_failure no_room (handler_calls (signals none)))
setup_steps-until_failure_example =
    setup_steps-until_failure no_room (pos 4) (pos 3) (pos 5, pos 6) none

-- The second of three threads cannot be created.
abbrev one_thread : PoolCalls
one_thread = record {
  makes_mutex = true;
  makes_semaphore = true;
  makes_threads = (true, true) ∷ (false, true) ∷ (true, true) ∷ [];
}

new_thread_pool-no_failure_example :
    let p = new_thread_pool one_thread in
    (p.thrown ≡ true)
    × (p.mutex ≡ false)
    × (p.semaphore ≡ false)
    × (p.threads ≡ 1)
    × (false ≡ true → p.threads ≡ 3)
new_thread_pool-no_failure_example = new_thread_pool-no_failure one_thread

abbrev server_calls : MainCalls
server_calls = record {
  fork = pos 100;
  semaphore = true;
  pool = record { makes_mutex = true; makes_semaphore = true; makes_threads = (true, true) ∷ [] };
  listening = record { socket = some 3; sets_option = true; binds = true; listens = true };
  answers = no_room;
  waits = returns;
}

main-parent_example :
    main server_calls ≡ (if is_set_up server_calls then after_wait returns else terminates)
main-parent_example = main-parent server_calls 99 refl refl
