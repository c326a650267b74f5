-- ===== src/Socket.antt =====
-- net/socket.h, net/socket.cpp, and what net/socketsops.cpp does to a socket: the options that the kernel
-- keeps for it. Whether the kernel accepts a call is an argument; the statistics are with Info.
pub mod Info
mod Tests
use kaycc.Prelude.{ℕ, Bool, true, false, not, ◌&&◌, Option, none, some, if◌then◌else◌}

-- The kernel's side of a descriptor.
pub record Socket : Type 0 where
  pub tcp_no_delay : Bool
  pub reuse_addr : Bool
  pub reuse_port : Bool
  pub keep_alive : Bool
  pub non_block : Bool
  pub close_on_exec : Bool
  pub listening : Bool
  pub write_shut : Bool

pub data SocketOption : Type 0 where
  no_delay address port alive : SocketOption

-- `setsockopt`
pub setsockopt : Bool → SocketOption → Bool → Socket → Socket
setsockopt false option on s = s
setsockopt true no_delay on s = record s { tcp_no_delay = on }
setsockopt true address on s = record s { reuse_addr = on }
setsockopt true port on s = record s { reuse_port = on }
setsockopt true alive on s = record s { keep_alive = on }

unfoldable pub set_tcp_no_delay : Bool → Bool → Socket → Socket
set_tcp_no_delay accepted on s = setsockopt accepted no_delay on s

unfoldable pub set_reuse_addr : Bool → Bool → Socket → Socket
set_reuse_addr accepted on s = setsockopt accepted address on s

-- Whether a line is logged, and the socket; `supported` says that `SO_REUSEPORT` is defined.
unfoldable pub set_reuse_port : Bool → Bool → Bool → Socket → Bool × Socket
set_reuse_port supported accepted on s =
    if supported then (not accepted && on, setsockopt accepted port on s) else (on, s)

unfoldable pub set_keep_alive : Bool → Bool → Socket → Socket
set_keep_alive accepted on s = setsockopt accepted alive on s

-- `fcntl(sockfd, F_SETFL, flags)` sets the status flags, of which FD_CLOEXEC, which is 1, is none.
abbrev pub fcntl_setfl : Bool → Socket → Socket
fcntl_setfl non_block s = record s { non_block = non_block }

-- Where there is no `accept4`.
unfoldable pub set_non_block_and_close_on_exec : Socket → Socket
set_non_block_and_close_on_exec s = let t = fcntl_setfl true s in fcntl_setfl t.non_block t

unfoldable pub listen : Bool → Socket → Socket
listen accepted s = if accepted then record s { listening = true } else s

unfoldable pub shutdown_write : Bool → Socket → Socket
shutdown_write accepted s = if accepted then record s { write_shut = true } else s

-- `SO_ERROR`, if the kernel gives it, and otherwise `errno`.
unfoldable pub get_socket_error : Option ℕ → ℕ → ℕ
get_socket_error none errno = errno
get_socket_error (some optval) errno = optval
