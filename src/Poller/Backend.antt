-- ===== src/Poller/Backend.antt =====
-- net/poller.h and poller.cpp: `Poller` as the loop sees it. Its operations are those of `Channel` down to
-- the poller, since every change of a poller comes through one.
use kaycc.Prelude.{ℕ, ◌≡◌, ◌≢◌, Bool, Option, some, holds, Checked, OnOk}
use kaycc.Channel.{Channel, Interest}
use kaycc.Epoll
use kaycc.Epoll.{Kernel, EpollPoller}
use kaycc.Epoll.Kept as EpollKept
use kaycc.PollPoller
use kaycc.PollPoller.{PollPoller}
use kaycc.PollPoller.Kept as PollKept

pub record Backend : Type 1 where
  pub State : Type 0
  pub channels : State → ℕ → Option ℕ
  pub heap : State → ℕ → Channel
  pub change_interest : Interest → ℕ → State → Checked State
  pub remove : ℕ → State → Checked State
  -- A change of interest leaves the channels of the map there; a removal takes out its own at most.
  pub change-Known :
      (i : Interest) (p q : ℕ) (s : State)
      → channels s (heap s q).fd ≡ some q
      → OnOk (change_interest i p s) (λ t. channels t (heap t q).fd ≡ some q)
  pub remove-Known :
      (p q : ℕ) (s : State)
      → q ≢ p
      → channels s (heap s q).fd ≡ some q
      → OnOk (remove p s) (λ t. channels t (heap t q).fd ≡ some q)

-- `hasChannel`
unfoldable pub has_channel : (B : Backend) → ℕ → B.State → Bool
has_channel B p s = holds (B.channels s (B.heap s p).fd) p

module _ (K : Kernel) where
  abbrev pub epoll_backend : Backend
  epoll_backend = record {
    State = EpollPoller K;
    channels = λ s. s.channels;
    heap = λ s. s.heap;
    change_interest = Epoll.change_interest K;
    remove = Epoll.remove K;
    change-Known = EpollKept.change_interest-Known K;
    remove-Known = EpollKept.remove-Known K;
  }

abbrev pub poll_backend : Backend
poll_backend = record {
  State = PollPoller;
  channels = λ s. s.channels;
  heap = λ s. s.heap;
  change_interest = PollPoller.change_interest;
  remove = PollPoller.remove;
  change-Known = PollKept.change_interest-Known;
  remove-Known = PollKept.remove-Known;
}
