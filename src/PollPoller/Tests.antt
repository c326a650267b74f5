-- ===== src/PollPoller/Tests.antt =====
-- net/poller/pollpoller.cpp on two channels.
use kaycc.Prelude.{refl, none, some, List, [], ◌∷◌, Returns, arith, ◌==◌, pos, if◌then◌else◌}
use kaycc.Channel
use kaycc.Channel.{
  Events, Channel, none_event, with_reading, with_writing, enable_reading, apply_interest,
}
use kaycc.PollPoller.{PollPoller, PollFd, poll}
use kaycc.PollPoller.Polling.{Reports, Answered, poll-Answered}
use kaycc.PollPoller.Agree.{Agrees}
use kaycc.PollPoller.Swap.{Removed}
use kaycc.PollPoller.Remove.{retire, retire-Removed}

-- The channel at address 100 reads descriptor 5, the one at 200 writes descriptor 6, and the one at
-- 300 is new.
abbrev reader : Channel
reader = record (Channel.construct 5) { events = with_reading none_event; index = pos 0 }

abbrev writer : Channel
writer = record (Channel.construct 6) { events = with_writing none_event; index = pos 1 }

abbrev fresh : Channel
fresh = Channel.construct 7

abbrev two : PollPoller
two = record {
  channels = λ fd. if 5 == fd then some 100 else if 6 == fd then some 200 else none;
  heap = λ p. if 100 == p then reader else if 200 == p then writer else fresh;
  pollfds =
      record { fd = pos 5; events = with_reading none_event; revents = none_event }
      ∷ record { fd = pos 6; events = with_writing none_event; revents = none_event }
      ∷ [];
}

two-Agrees : Agrees two
unfolding Channel.construct
two-Agrees = record {
  keyed = λ fd p k. ground arith;
  indexed = λ fd p n k. ground arith;
  filed = λ fd p i k x. ground arith;
  fits = λ fd p i e k x a. ground arith;
  known = λ i e a. ground arith;
  owned = λ i p e a k. ground arith;
}

-- The first entry goes, and the second takes its place.
retire_example : Returns (retire 100 two) (Removed two 100)
unfolding Channel.construct
retire_example = retire-Removed 100 two two-Agrees refl

-- Both channels have events, in the order of the array.
abbrev after : List PollFd
after =
    record { fd = pos 5; events = with_reading none_event; revents = with_reading none_event }
    ∷ record { fd = pos 6; events = with_writing none_event; revents = with_writing none_event }
    ∷ []

poll-Answered_example : Returns (poll (some after) two) (Answered after two)
unfolding Reports
poll-Answered_example =
    poll-Answered after two two-Agrees
      (refl, refl, (λ n e. absurd (ground arith)), (refl, refl, (λ n e. absurd (ground arith)), tt))
