-- ===== src/Poller/Tests.antt =====
-- net/poller.h: both pollers with one channel that reads descriptor 5, and a new one for 6.
use kaycc.Prelude.{
  ℕ, ◌≡◌, refl, inl, zero, suc, get_elem?, none, some, [], ◌∷◌, Returns, arith, ◌==◌, pos,
  if◌then◌else◌,
}
use kaycc.Channel
use kaycc.Channel.{Events, Channel, none_event, with_reading, enable_writing}
use kaycc.Epoll.{EpollPoller, added_index}
use kaycc.Epoll.Mirror.{Mirrors}
use kaycc.Epoll.Linux.{linux}
use kaycc.PollPoller.{PollPoller}
use kaycc.PollPoller.Agree.{Agrees}
use kaycc.Poller.{changes, Asks, Same, epoll_step, poll_step}
use kaycc.Poller.Lockstep.{lockstep}

abbrev reading : Events
reading = with_reading none_event

abbrev by_epoll : EpollPoller linux
by_epoll = record {
  channels = λ fd. if 5 == fd then some 100 else none;
  heap = λ p.
      if 100 == p
      then record (Channel.construct 5) { events = reading; index = added_index }
      else Channel.construct 6;
  kernel = λ fd. if 5 == fd then some (reading, 100) else none;
  capacity = 16;
  failures = 0;
}

abbrev by_poll : PollPoller
by_poll = record {
  channels = λ fd. if 5 == fd then some 100 else none;
  heap = λ p.
      if 100 == p
      then record (Channel.construct 5) { events = reading; index = pos 0 }
      else Channel.construct 6;
  pollfds = record { fd = pos 5; events = reading; revents = none_event } ∷ [];
}

by_epoll-Mirrors : Mirrors linux by_epoll
unfolding Channel.construct
by_epoll-Mirrors = record {
  keyed = λ fd p e. ground arith;
  settled = λ fd p e. ground arith;
  outside = λ p ne. ground arith;
  unwatched = λ fd e. ground arith;
}

by_poll-Agrees : Agrees by_poll
unfolding Channel.construct
by_poll-Agrees = record {
  keyed = λ fd p k. ground arith;
  indexed = λ fd p n k. ground arith;
  filed = λ fd p i k x. ground arith;
  fits = λ fd p i e k x a. ground arith;
  known = λ i e a. ground arith;
  owned = λ i p e a k. ground arith;
}

Asks-reading :
    (fd p : ℕ) (ev : Events)
    → (by_epoll.kernel fd ≡ some (ev, p))
    → (by_poll.channels fd ≡ some p) × Asks by_poll.pollfds fd ev
Asks-reading fd p ev h = (ground arith, (none_event, (0, ground arith)))

watches_reading :
    (fd p : ℕ) (ev r : Events) (i : ℕ)
    → by_poll.channels fd ≡ some p
    → get_elem? by_poll.pollfds i ≡ some (record { fd = pos fd; events = ev; revents = r })
    → by_epoll.kernel fd ≡ some (ev, p)
watches_reading fd p ev r zero k a = ground arith
watches_reading fd p ev r (suc i) k a = ground arith

both-Same : Same linux by_epoll by_poll
both-Same = record {
  mirrors = by_epoll-Mirrors;
  agrees = by_poll-Agrees;
  channels_eq = λ f. refl;
  fd_eq = λ q. ground arith;
  events_eq = λ q. ground arith;
  alike = λ fd p ev.
      (Asks-reading fd p ev, λ x. let (k, (r, (i, a))) = x in watches_reading fd p ev r i k a);
}

lockstep_example :
    Returns (epoll_step linux (changes enable_writing 200) by_epoll) (λ e'.
      Returns (poll_step linux (changes enable_writing 200) by_poll) (λ s'. Same linux e' s'))
unfolding Channel.construct
lockstep_example =
    lockstep linux (changes enable_writing 200) by_epoll by_poll both-Same (inl (refl, refl))
