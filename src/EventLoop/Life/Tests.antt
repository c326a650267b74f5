-- ===== src/EventLoop/Life/Tests.antt =====
-- net/eventloop.cpp: a loop over an empty epoll poller, and a second one in a thread that has one.
use kaycc.Prelude.{ℕ, refl, none, Option, ok, Returns, OnOk, arith, ◌==◌, if◌then◌else◌}
use kaycc.Channel
use kaycc.Epoll.{EpollPoller}
use kaycc.Epoll.Mirror.{Mirrors}
use kaycc.Epoll.Linux.{linux}
use kaycc.Poller.Backend.{epoll_backend}
use kaycc.Poller.Keeping.{epoll_keeping}
use kaycc.EventLoop.Life.{construct, destruct}
use kaycc.EventLoop.Life.Whole.{Made, Gone, loop_life}

abbrev empty : EpollPoller linux
empty = record {
  channels = λ fd. none;
  heap = λ p.
      if 100 == p
      then Channel.construct 5
      else if 200 == p
      then Channel.construct 6
      else Channel.construct 7;
  kernel = λ fd. none;
  capacity = 16;
  failures = 0;
}

empty-Mirrors : Mirrors linux empty
unfolding Channel.construct
empty-Mirrors = record {
  keyed = λ fd p e. ground arith;
  settled = λ fd p e. ground arith;
  outside = λ p ne. ground arith;
  unwatched = λ fd e. refl;
}

abbrev nothing_known : ℕ → Option ℕ
nothing_known thread = none

loop_life_example : Returns (construct (epoll_backend linux) 1 9 100 200 empty nothing_known) (λ l.
    Made (epoll_backend linux) (epoll_keeping linux) 1 100 200 5 6 (omega arith) l
    × OnOk (ok l) (λ m.
      Returns
        (destruct (epoll_backend linux) 1 100 200 m)
        (Gone (epoll_backend linux) (epoll_keeping linux) 1 100 200 5 6 (omega arith) m)))
unfolding Channel.construct epoll_keeping
loop_life_example =
    loop_life (epoll_backend linux) (epoll_keeping linux) 1 100 200 5 6 (omega arith) 9 empty
      nothing_known (λ l. ok l)
      (record {
        sound = empty-Mirrors;
        timer_new = refl;
        wakeup_new = refl;
        timer_eq = refl;
        wakeup_eq = refl;
        timer_calm = refl;
        wakeup_calm = refl;
      })
      (λ l made. made)
