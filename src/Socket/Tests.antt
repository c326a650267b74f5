-- ===== src/Socket/Tests.antt =====
-- net/socket.cpp: options.
use kaycc.Prelude.{◌≡◌, refl, true, false}
use kaycc.Socket.{Socket, set_non_block_and_close_on_exec, set_reuse_port}

abbrev fresh : Socket
fresh = record {
  tcp_no_delay = false;
  reuse_addr = false;
  reuse_port = false;
  keep_alive = false;
  non_block = false;
  close_on_exec = false;
  listening = false;
  write_shut = false;
}

-- The descriptor stays open across `exec`.
still_open :
    set_non_block_and_close_on_exec fresh ≡ record fresh { non_block = true; close_on_exec = false }
unfolding set_non_block_and_close_on_exec
still_open = refl

unsupported : set_reuse_port false true true fresh ≡ (true, fresh)
unfolding set_reuse_port
unsupported = refl
