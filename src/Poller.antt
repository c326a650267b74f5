-- ===== src/Poller.antt =====
-- net/poller.h: the two pollers behind the one interface of `Poller`, on one set of channels. `Op` is an
-- operation of a channel's owner that reaches the poller.
pub mod Backend
pub mod Flags
pub mod Keeping
pub mod Laws
pub mod Alike
pub mod Lockstep
mod Tests
use kaycc.Prelude.{
  ℕ, ◌≡◌, ◌↔◌, ◌⊎◌, Bool, true, false, Option, none, some, List, Checked, pos, negsuc, holds,
}
use kaycc.Channel.{Events, Channel, is_none_event, Interest, apply_interest}
use kaycc.Epoll.{Kernel, EpollPoller}
use kaycc.Epoll
use kaycc.Epoll.Mirror.{Mirrors}
use kaycc.PollPoller
use kaycc.PollPoller.{PollFd, PollPoller}
use kaycc.PollPoller.Agree.{Agrees, Lists}

pub data Op : Type 0 where
  changes : Interest → ℕ → Op
  removes : ℕ → Op

-- The array asks poll(2) for these events of that descriptor.
abbrev pub Asks : List PollFd → ℕ → Events → Type 0
Asks l fd e = (r : Events) × Lists l (record { fd = pos fd; events = e; revents = r })

module _ (K : Kernel) where
  open K use {interest}

  unfoldable pub epoll_step : Op → EpollPoller K → Checked (EpollPoller K)
  epoll_step (changes i p) e = Epoll.change_interest K i p e
  epoll_step (removes p) e = Epoll.remove K p e

  unfoldable pub poll_step : Op → PollPoller → Checked PollPoller
  poll_step (changes i p) s = PollPoller.change_interest i p s
  poll_step (removes p) s = PollPoller.remove p s

  -- Both are sound, have the same channels, and have the kernel watch the same descriptors for the
  -- same events.
  pub record Same (e : EpollPoller K) (s : PollPoller) : Type 0 where
    pub mirrors : Mirrors K e
    pub agrees : Agrees s
    pub channels_eq : (f : ℕ) → e.channels f ≡ s.channels f
    pub fd_eq : (q : ℕ) → (e.heap q).fd ≡ (s.heap q).fd
    pub events_eq : (q : ℕ) → (e.heap q).events ≡ (s.heap q).events
    pub alike :
        (fd p : ℕ) (ev : Events)
        → (interest e.kernel fd ≡ some (ev, p)) ↔ ((s.channels fd ≡ some p) × Asks s.pollfds fd ev)

  -- How the owners of channels use a poller. A change of interest is that of a channel which has never
  -- been added and whose descriptor is free, or of one in the map, which is watched or now asks for
  -- something; and a channel that is removed is in the map, and neither asks for anything nor is
  -- watched.
  abbrev pub Legal : Op → EpollPoller K → PollPoller → Type 0
  Legal (changes i p) e s =
      ((s.channels (s.heap p).fd ≡ none) × ((s.heap p).index ≡ negsuc 0))
      ⊎ ((s.channels (s.heap p).fd ≡ some p)
          × (((w : Events × ℕ) × (interest e.kernel (s.heap p).fd ≡ some w))
              ⊎ (is_none_event (apply_interest i (s.heap p)).events ≡ false)))
  Legal (removes p) e s =
      (s.channels (s.heap p).fd ≡ some p)
      × (is_none_event (s.heap p).events ≡ true)
      × (interest e.kernel (s.heap p).fd ≡ none)
