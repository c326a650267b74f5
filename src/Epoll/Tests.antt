-- ===== src/Epoll/Tests.antt =====
-- net/poller/epollpoller.cpp on two channels.
use kaycc.Prelude.{[], ◌∷◌, refl, inl, true, none, some, Returns, arith, ◌==◌, if◌then◌else◌}
use kaycc.Channel
use kaycc.Channel.{
  Events, Channel, none_event, with_reading, Interest, enable_reading, apply_interest,
  is_none_event,
}
use kaycc.Epoll.{poll, added_index, EpollPoller, change_interest, deleted_index}
use kaycc.Epoll.Linux.{linux}
use kaycc.Epoll.Active.{Polled, poll-Polled}
use kaycc.Epoll.Mirror.{Mirrors}
use kaycc.Epoll.Update.{Watches, change_interest-Watches}

-- The channel at address 100 watches descriptor 5; the one at 200 is new, for descriptor 6.
abbrev first : Channel
first = record (Channel.construct 5) { index = deleted_index; added_to_loop = true }

abbrev second : Channel
second = Channel.construct 6

abbrev two : EpollPoller linux
two = record {
  channels = λ fd. if 5 == fd then some 100 else none;
  heap = λ p. if 100 == p then first else second;
  kernel = λ fd. none;
  capacity = 16;
  failures = 0;
}

two-Mirrors : Mirrors linux two
unfolding Channel.construct
two-Mirrors = record {
  keyed = λ fd p e. ground arith;
  settled = λ fd p e. ground arith;
  outside = λ p ne. ground arith;
  unwatched = λ fd e. refl;
}

-- The second channel, made readable, is added.
change_interest_example :
    Returns
      (change_interest linux enable_reading 200 two)
      (Watches linux two 200 (apply_interest enable_reading second).events)
unfolding Channel.construct
change_interest_example =
    change_interest-Watches linux enable_reading 200 two two-Mirrors (inl refl)

-- The first channel reads, and there is room for one event.
abbrev reading : Events
reading = with_reading none_event

abbrev watching : EpollPoller linux
watching = record two {
  heap = λ p. if 100 == p then record first { events = reading; index = added_index } else second;
  kernel = λ fd. if 5 == fd then some (reading, 100) else none;
  capacity = 1;
}

watching-Mirrors : Mirrors linux watching
unfolding Channel.construct
watching-Mirrors = record {
  keyed = λ fd p e. ground arith;
  settled = λ fd p e. ground arith;
  outside = λ p ne. ground arith;
  unwatched = λ fd e. ground arith;
}

poll_example :
    Returns
      (poll linux (some ((reading, 100) ∷ [])) watching)
      (Polled linux ((reading, 100) ∷ []) watching)
poll_example =
    poll-Polled linux ((reading, 100) ∷ []) watching watching-Mirrors (omega arith)
      ((5, reading, refl), tt)
