-- ===== src/Poller/Laws.antt =====
-- net/poller.h: what each poller promises to an owner who changes and removes its own channel.
use kaycc.Prelude.{ℕ, ◌≡◌, ◌≢◌, refl, ap, ◌∙◌, inr, true, some, Returns, Returns-map, arith, pos}
use kaycc.Channel.{is_none_event, Interest, disable_all, apply_interest}
use kaycc.Epoll.{Kernel, EpollPoller}
use kaycc.Epoll
use kaycc.Epoll.Mirror.{Mirrors}
use kaycc.Epoll.Update as EpollUpdate
use kaycc.Epoll.Remove as EpollRemove
use kaycc.PollPoller
use kaycc.PollPoller.{PollFd, PollPoller}
use kaycc.PollPoller.Agree.{Agrees, Lists}
use kaycc.PollPoller.Update as PollUpdate
use kaycc.PollPoller.Remove as PollRemove
use kaycc.Poller.Backend.{Backend, epoll_backend, poll_backend}

pub record Laws (B : Backend) : Type 1 where
  pub Sound : B.State → Type 0
  -- What `disableAll` brings about.
  pub Removable : ℕ → B.State → Type 0
  pub change_returns :
      (i : Interest) (p : ℕ) (s : B.State)
      → Sound s
      → B.channels s (B.heap s p).fd ≡ some p
      → Returns (B.change_interest i p s) (λ t. Sound t × (B.channels t (B.heap t p).fd ≡ some p))
  pub disable_returns :
      (p : ℕ) (s : B.State)
      → Sound s
      → B.channels s (B.heap s p).fd ≡ some p
      → Returns (B.change_interest disable_all p s) (λ t. Sound t × Removable p t)
  pub remove_returns :
      (p : ℕ) (s : B.State) → Sound s → Removable p s → Returns (B.remove p s) Sound

module _ (K : Kernel) where
  abbrev EpollRemovable : ℕ → EpollPoller K → Type 0
  EpollRemovable p s =
      (s.channels (s.heap p).fd ≡ some p) × (is_none_event (s.heap p).events ≡ true)

  epoll_known :
      (s t : EpollPoller K) (p : ℕ) (i : Interest)
      → EpollUpdate.Watches K s p (apply_interest i (s.heap p)).events t
      → t.channels (t.heap p).fd ≡ some p
  epoll_known s t p i w = ground (arith, w.entered (t.heap p).fd, w.same_fd p)

  epoll_idle :
      (s t : EpollPoller K) (p : ℕ)
      → EpollUpdate.Watches K s p (apply_interest disable_all (s.heap p)).events t
      → is_none_event (t.heap p).events ≡ true
  unfolding apply_interest
  epoll_idle s t p w = ground (arith, w.asked p)

  unfoldable pub epoll_laws : Laws (epoll_backend K)
  unfolding epoll_known epoll_idle
  epoll_laws = record {
    Sound = Mirrors K;
    Removable = EpollRemovable;
    change_returns = λ i p s m k.
        Returns-map _ _ (Epoll.change_interest K i p s)
          (EpollUpdate.change_interest-Watches K i p s m (inr k))
          (λ t w. (w.mirrors, epoll_known s t p i w));
    disable_returns = λ p s m k.
        Returns-map _ _ (Epoll.change_interest K disable_all p s)
          (EpollUpdate.change_interest-Watches K disable_all p s m (inr k))
          (λ t w. (w.mirrors, (epoll_known s t p disable_all w, epoll_idle s t p w)));
    remove_returns = λ p s m r.
        Returns-map _ _ (Epoll.remove K p s) (EpollRemove.remove_lem K p s m r.0 r.1)
          (λ t h. h.mirrors);
  }

abbrev PollRemovable : ℕ → PollPoller → Type 0
PollRemovable p s =
    (s.channels (s.heap p).fd ≡ some p)
    × (is_none_event (s.heap p).events ≡ true)
    × ((x : PollFd) → Lists s.pollfds x → x.fd ≢ pos (s.heap p).fd)

poll_known :
    (s t : PollPoller) (p : ℕ) (i : Interest)
    → PollUpdate.Watches s p (apply_interest i (s.heap p)).events t
    → t.channels (t.heap p).fd ≡ some p
poll_known s t p i w = ap t.channels (w.same_fd p) ∙ w.present

poll_removable :
    (s t : PollPoller) (p : ℕ)
    → s.channels (s.heap p).fd ≡ some p
    → PollUpdate.Watches s p (apply_interest disable_all (s.heap p)).events t
    → PollRemovable p t
unfolding apply_interest
poll_removable s t p k w = (
  poll_known s t p disable_all w,
  ground (arith, w.asked p),
  λ x l e. w.quiet refl k x l (e ∙ ap pos (w.same_fd p)),
)

unfoldable pub poll_laws : Laws poll_backend
unfolding poll_known poll_removable
poll_laws = record {
  Sound = Agrees;
  Removable = PollRemovable;
  change_returns = λ i p s m k.
      Returns-map _ _ (PollPoller.change_interest i p s)
        (PollUpdate.change_interest-Lists i p s m (inr k))
        (λ t w. (w.agrees, poll_known s t p i w));
  disable_returns = λ p s m k.
      Returns-map _ _ (PollPoller.change_interest disable_all p s)
        (PollUpdate.change_interest-Lists disable_all p s m (inr k))
        (λ t w. (w.agrees, poll_removable s t p k w));
  remove_returns = λ p s m r.
      Returns-map _ _ (PollPoller.remove p s) (PollRemove.remove_parked p s m r.0 r.1 r.2)
        (λ t h. h.agrees);
}
