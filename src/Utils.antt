-- ===== src/Utils.antt =====
-- utils/utils.cpp: the masks given to epoll.
pub mod HashTable
pub mod LogPrefix
pub mod Results
pub mod Ipc
pub mod Cache
use Prim.Native.Nat.{bit_or}
use cherokee.Base.{ℕ, ◌^◌, Bool, if◌then◌else◌}

abbrev pub epollin : ℕ
epollin = 1

abbrev pub epollout : ℕ
epollout = 4

abbrev pub epolloneshot : ℕ
epolloneshot = 2 ^ 30

abbrev pub epollet : ℕ
epollet = 2 ^ 31

abbrev add_flag : Bool → ℕ → ℕ → ℕ
add_flag b flag events = if b then bit_or events flag else events

-- `event.events` of `addWaitFd`
unfoldable pub add_events : Bool → Bool → ℕ
add_events edge_trigger is_oneshot =
    add_flag is_oneshot epolloneshot (add_flag edge_trigger epollet epollin)

-- `event.events` of `modifyWaitFd`
unfoldable pub modify_events : Bool → Bool → Bool → ℕ
modify_events edge_trigger reset_oneshot add_epollout =
    add_flag add_epollout epollout
      (add_flag reset_oneshot epolloneshot (add_flag edge_trigger epollet epollin))
