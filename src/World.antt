-- ===== src/World.antt =====
-- What the handlers do to the outside, one entry for each call, in the order of the calls; and the
-- two maps of `EventBase` that all handlers share.
pub mod Arming
use cherokee.Base.{ℕ, Option, ◌==◌, if◌then◌else◌}
use cherokee.Base.Int.{ℤ}
use cherokee.Message.{Request, Response}
use cherokee.Text.{Bytes}

pub data Effect : Type 0 where
  add_wait : ℕ → ℕ → Effect  -- epoll_ctl, EPOLL_CTL_ADD: descriptor and mask
  modify_wait : ℕ → ℕ → Effect  -- epoll_ctl, EPOLL_CTL_MOD
  delete_wait : ℕ → Effect  -- epoll_ctl, EPOLL_CTL_DEL
  set_non_blocking : ℕ → Effect
  shut_down : ℕ → Effect  -- shutdown, both ways or for writing
  close_fd : ℤ → Effect
  append_file : Bytes → Bytes → Effect  -- opened to append: path, and all that is written
  write_file : Bytes → Bytes → Effect  -- opened to overwrite
  open_file : Bytes → Effect
  remove_file : Bytes → Effect  -- a removal that succeeds
  sent : Bytes → Effect  -- bytes that a socket has taken

-- `std::unordered_map<int, A>`
abbrev pub Table : Type 0 → Type 0
Table A = ℕ → Option A

abbrev pub set_at : {A : Type 0} → Table A → ℕ → Option A → Table A
set_at t fd v j = if fd == j then v else t j

-- `requestStatus` and `responseStatus`
pub record Tables : Type 0 where
  pub requests : Table Request
  pub responses : Table Response
