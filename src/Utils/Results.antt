-- ===== src/Utils/Results.antt =====
-- What `addWaitFd`, `modifyWaitFd`, `deleteWaitFd` and `setNonBlocking` of utils/utils.cpp ask of the
-- system, and return. The handlers do not look at the results.
use Prim.Native.Nat.{bit_or}
use cherokee.Base.{ℕ, Bool, Option, none, some, if◌then◌else◌}
use cherokee.Base.Int.{ℤ, pos, neg_ℕ}
use cherokee.Utils.{add_events, modify_events}

-- epoll_ctl: the epoll, the descriptor, and the mask.
pub data EpollCtl : Type 0 where
  ctl_add ctl_mod : ℕ → ℕ → ℕ → EpollCtl
  ctl_del : ℕ → ℕ → EpollCtl

abbrev pub zero_if : Bool → ℤ
zero_if good = if good then pos 0 else neg_ℕ 1

unfoldable pub add_wait_fd : (EpollCtl → Bool) → ℕ → ℕ → Bool → Bool → ℤ
add_wait_fd succeeds epoll_fd new_fd edge_trigger is_oneshot =
    zero_if (succeeds (ctl_add epoll_fd new_fd (add_events edge_trigger is_oneshot)))

unfoldable pub modify_wait_fd : (EpollCtl → Bool) → ℕ → ℕ → Bool → Bool → Bool → ℤ
modify_wait_fd succeeds epoll_fd mod_fd edge_trigger reset_oneshot add_epollout =
    zero_if
      (succeeds (ctl_mod epoll_fd mod_fd (modify_events edge_trigger reset_oneshot add_epollout)))

unfoldable pub delete_wait_fd : (EpollCtl → Bool) → ℕ → ℕ → ℤ
delete_wait_fd succeeds epoll_fd delete_fd = zero_if (succeeds (ctl_del epoll_fd delete_fd))

-- -1 with one more bit set is -1, which stands for `none`.
abbrev with_nonblock : Option ℕ → Option ℕ
with_nonblock none = none
with_nonblock (some old_flag) = some (bit_or old_flag 2048)

-- What F_GETFL returns is not tested.
unfoldable pub set_non_blocking : Option ℕ → (Option ℕ → Bool) → ℤ
set_non_blocking old_flag sets = zero_if (sets (with_nonblock old_flag))
