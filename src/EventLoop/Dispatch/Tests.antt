-- ===== src/EventLoop/Dispatch/Tests.antt =====
-- net/eventloop.cpp: a round with two channels over epoll. The first wants to write once it has read, the
-- second is removed.
use kaycc.Prelude.{
  ℕ, ◌≡◌, refl, sym, true, false, Bool, none, some, List, [], ◌∷◌, Returns, OnOk, arith, ◌==◌, ◌||◌,
  ◌&&◌, if◌then◌else◌, subst, Bool-cases, inl, inr,
}
use kaycc.Channel
use kaycc.Channel.{
  Events, Channel, none_event, with_reading, enable_writing, disable_all, Callback, read,
  handle_event, handle_event_with_guard,
}
use kaycc.Epoll.{EpollPoller, added_index}
use kaycc.Epoll.Mirror.{Mirrors}
use kaycc.Epoll.Linux.{linux}
use kaycc.Poller.{Op, changes, removes}
use kaycc.Poller.Backend.{epoll_backend}
use kaycc.Poller.Laws.{epoll_laws}
use kaycc.EventLoop.Dispatch.{Dispatch, handle_events, script_of}
use kaycc.EventLoop.Dispatch.Removal.{Round, handle_events-Round}
use kaycc.EventLoop.Dispatch.Own.{Own, done, sets, retires, handle_events-Own}

abbrev reading : Events
reading = with_reading none_event

abbrev two_channels : EpollPoller linux
two_channels = record {
  channels = λ fd. if 5 == fd then some 100 else if 6 == fd then some 200 else none;
  heap = λ p.
      if 100 == p
      then record (Channel.construct 5) {
        events = reading;
        revents = reading;
        index = added_index;
        read_callback = true;
      }
      else if 200 == p
      then record (Channel.construct 6) {
        events = reading;
        revents = reading;
        index = added_index;
        read_callback = true;
      }
      else Channel.construct 7;
  kernel =
      λ fd. if 5 == fd then some (reading, 100) else if 6 == fd then some (reading, 200) else none;
  capacity = 16;
  failures = 0;
}

abbrev looping : Dispatch (epoll_backend linux)
looping = record {
  poller = two_channels;
  event_handling = false;
  active_channels = [];
  current_active_channel = none;
  handled = [];
}

abbrev on_read : ℕ → List Op
on_read p =
    if p == 100 then changes enable_writing p ∷ [] else changes disable_all p ∷ removes p ∷ []

abbrev script : ℕ → Callback → List Op
script p Channel.close = []
script p Channel.error = []
script p Channel.read = on_read p
script p Channel.write = []

two_channels-Mirrors : Mirrors linux two_channels
unfolding Channel.construct
two_channels-Mirrors = record {
  keyed = λ fd p e. ground arith;
  settled = λ fd p e. ground arith;
  outside = λ p ne. ground arith;
  unwatched = λ fd e. ground arith;
}

abbrev reads : Channel → Bool
reads c = (c.revents.pollin || c.revents.pollpri || c.revents.pollrdhup) && c.read_callback

script_of-reads :
    (p : ℕ) (c : Channel)
    → script_of (epoll_backend linux) script (λ q. true) p (handle_event c true)
      ≡ (if reads c then on_read p else [])
unfolding handle_event handle_event_with_guard script_of
script_of-reads p c = ground arith

handle_events_round_example :
    OnOk
      (handle_events (epoll_backend linux) script (λ q. true) (100 ∷ 200 ∷ []) looping)
      (Round (epoll_backend linux) script (λ q. true) (100 ∷ 200 ∷ []) looping)
unfolding Channel.construct
handle_events_round_example =
    handle_events-Round (epoll_backend linux) script (λ q. true) (100 ∷ 200 ∷ []) looping
      ((ground arith, tt), (tt, tt)) (refl, (refl, tt))

writer-Own :
    (c : Channel)
    → Own 100 (script_of (epoll_backend linux) script (λ q. true) 100 (handle_event c true))
writer-Own c =
    subst (Own 100) (sym (script_of-reads 100 c)) (elim (Bool-cases (reads c)) [
      | inl e ↦ rw e (sets enable_writing [] done)
      | inr e ↦ rw e done
    ])

leaver-Own :
    (c : Channel)
    → Own 200 (script_of (epoll_backend linux) script (λ q. true) 200 (handle_event c true))
leaver-Own c =
    subst (Own 200) (sym (script_of-reads 200 c))
      (elim (Bool-cases (reads c)) [ inl e ↦ rw e retires | inr e ↦ rw e done ])

handle_events_own_example :
    Returns (handle_events (epoll_backend linux) script (λ q. true) (100 ∷ 200 ∷ []) looping) (λ t.
      Mirrors linux t.poller
      × Round (epoll_backend linux) script (λ q. true) (100 ∷ 200 ∷ []) looping t)
unfolding Channel.construct epoll_laws
handle_events_own_example =
    handle_events-Own (epoll_backend linux) (epoll_laws linux) script (λ q. true) (100 ∷ 200 ∷ [])
      looping ((ground arith, tt), (tt, tt)) (writer-Own, (leaver-Own, tt)) two_channels-Mirrors
      (refl, (refl, tt))
