-- ===== src/Acceptor/Tests.antt =====
-- net/acceptor.cpp on sockets of a small program.
use kaycc.Prelude.{refl, none, ok, OnOk, false, true, List, [], ◌∷◌, Returns, pos, negsuc, arith}
use kaycc.Channel
use kaycc.InetAddress.{zeroed}
use kaycc.Acceptor.{Errno, emfile, eintr, accepted, refused, destruct}
use kaycc.Acceptor.Descriptors.{Round, run}
use kaycc.Acceptor.Whole.{Listening, Ended, open_up, life_balanced}
use kaycc.Epoll.{EpollPoller}
use kaycc.Epoll.Mirror.{Mirrors}
use kaycc.Epoll.Linux.{linux}
use kaycc.EventLoop.Life.{Loop}
use kaycc.Poller.Backend.{epoll_backend}
use kaycc.Poller.Keeping.{epoll_keeping}

abbrev quiet_log : Errno → Errno
quiet_log e = e

-- A connection, a full table, a full table with nobody waiting, and an interrupted call.
abbrev rounds : List Round
rounds =
    record { first = accepted 5 zeroed; second = negsuc 0; reopened = negsuc 0 }
    ∷ record { first = refused emfile; second = pos 4; reopened = pos 4 }
    ∷ record { first = refused emfile; second = negsuc 0; reopened = negsuc 0 }
    ∷ record { first = refused eintr; second = negsuc 0; reopened = negsuc 0 }
    ∷ []

-- The listening socket is 3, and its channel at 100.
abbrev empty : EpollPoller linux
empty = record {
  channels = λ fd. none;
  heap = λ p. Channel.construct 3;
  kernel = λ fd. none;
  capacity = 16;
  failures = 0;
}

empty-Mirrors : Mirrors linux empty
unfolding Channel.construct
empty-Mirrors = record {
  keyed = λ fd p e. ground arith;
  settled = λ fd p e. ground arith;
  outside = λ p ne. ground arith;
  unwatched = λ fd e. refl;
}

abbrev fresh_loop : Loop (epoll_backend linux)
fresh_loop = record {
  poller = empty;
  thread_id = 1;
  loop_in_this_thread = λ thread. none;
  closed = [];
  event_handling = false;
  active_channels = [];
  current_active_channel = none;
}

life_balanced_example :
    Returns (open_up (epoll_backend linux) (epoll_keeping linux) 1 100 3 4 true fresh_loop) (λ r.
      Listening (epoll_backend linux) (epoll_keeping linux) 1 100 3 r.0
      × OnOk (ok r.0) (λ m.
        Returns
          (destruct (epoll_backend linux) 1 m (run quiet_log rounds r.1))
          (Ended (epoll_backend linux) (epoll_keeping linux) 1 100 3 m)))
unfolding Channel.construct epoll_keeping
life_balanced_example =
    life_balanced (epoll_backend linux) (epoll_keeping linux) 1 quiet_log 100 3 4 true rounds
      fresh_loop (λ m. ok m) (omega arith)
      (record {
        in_thread = refl;
        idle = refl;
        sound = empty-Mirrors;
        fresh = refl;
        own = refl;
        quiet = refl;
      })
      (λ m v. v)
