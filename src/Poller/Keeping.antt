-- ===== src/Poller/Keeping.antt =====
-- net/poller.h: what each poller promises about a channel that comes and goes while others stay.
use kaycc.Prelude.{
  ℕ, ◌==◌, ◌≡◌, ◌≢◌, refl, sym, ap, ◌∙◌, inl, inr, true, none, some, if◌then◌else◌, Returns,
  Returns-map, Returns-OnOk, OnOk, OnOk-all, OnOk-both, false, Option, arith, pos, negsuc,
}
use kaycc.Channel.{Events, is_none_event, Interest, disable_all, apply_interest}
use kaycc.Epoll.{Kernel, EpollPoller}
use kaycc.Epoll
use kaycc.Epoll.Mirror.{Mirrors}
use kaycc.Epoll.Update as EpollUpdate
use kaycc.Epoll.Remove as EpollRemove
use kaycc.PollPoller
use kaycc.PollPoller.{PollFd, PollPoller, update_channel, add_entry, renew_entry}
use kaycc.PollPoller.Agree.{Agrees, Lists}
use kaycc.PollPoller.Update as PollUpdate
use kaycc.PollPoller.Remove as PollRemove
use kaycc.Poller.Flags.{
  epoll_change-handling, epoll_remove-handling, epoll_remove-off, poll_change-handling,
  poll_remove-handling, poll_remove-off,
}
use kaycc.Poller.Backend.{Backend, epoll_backend, poll_backend}

pub record Keeping (B : Backend) : Type 1 where
  pub Sound : B.State → Type 0
  -- A channel that the poller has never had, and one that `disableAll` has prepared.
  pub Fresh : ℕ → B.State → Type 0
  pub Removable : ℕ → B.State → Type 0
  pub enter :
      (i : Interest) (p : ℕ) (s : B.State)
      → Sound s
      → Fresh p s
      → Returns (B.change_interest i p s) (λ t.
        Sound t
        × ((f : ℕ) → B.channels t f ≡ (if (B.heap s p).fd == f then some p else B.channels s f))
        × ((q : ℕ) → (B.heap t q).fd ≡ (B.heap s q).fd)
        × ((q : ℕ) → (B.heap t q).event_handling ≡ (B.heap s q).event_handling)
        × ((q : ℕ) → (B.heap s p).fd ≢ (B.heap s q).fd → Fresh q s → Fresh q t))
  pub disable :
      (p : ℕ) (s : B.State)
      → Sound s
      → B.channels s (B.heap s p).fd ≡ some p
      → Returns (B.change_interest disable_all p s) (λ t.
        Sound t
        × Removable p t
        × ((f : ℕ) → B.channels t f ≡ B.channels s f)
        × ((q : ℕ) → (B.heap t q).fd ≡ (B.heap s q).fd)
        × ((q : ℕ) → (B.heap t q).event_handling ≡ (B.heap s q).event_handling))
  pub leave :
      (p : ℕ) (s : B.State)
      → Sound s
      → Removable p s
      → Returns (B.remove p s) (λ t.
        Sound t
        × ((f : ℕ) → B.channels t f ≡ (if (B.heap s p).fd == f then none else B.channels s f))
        × ((q : ℕ) → (B.heap t q).fd ≡ (B.heap s q).fd)
        × ((q : ℕ) → (B.heap t q).event_handling ≡ (B.heap s q).event_handling)
        × ((B.heap t p).added_to_loop ≡ false))

-- An entry that is written again is the same.
same_entries :
    (s t : ℕ → Option ℕ) (fd p : ℕ)
    → s fd ≡ some p
    → ((f : ℕ) → t f ≡ (if fd == f then some p else s f))
    → (f : ℕ) → t f ≡ s f
same_entries s t fd p k h f = ground (arith, h f, k)

change_index :
    (i : Interest) (p : ℕ) (s : PollPoller) (q : ℕ)
    → OnOk (PollPoller.change_interest i p s) (λ t. q ≢ p → (t.heap q).index ≡ (s.heap q).index)
unfolding PollPoller.change_interest update_channel add_entry renew_entry
change_index i p s q = ground arith

module _ (K : Kernel) where
  abbrev EpollRemovable : ℕ → EpollPoller K → Type 0
  EpollRemovable p s =
      (s.channels (s.heap p).fd ≡ some p) × (is_none_event (s.heap p).events ≡ true)

  epoll_removable :
      (s t : EpollPoller K) (p : ℕ)
      → s.channels (s.heap p).fd ≡ some p
      → EpollUpdate.Watches K s p (apply_interest disable_all (s.heap p)).events t
      → EpollRemovable p t
  unfolding apply_interest
  epoll_removable s t p k w = ground (arith, w.entered (t.heap p).fd, w.same_fd p, w.asked p)

  epoll_fresh :
      (s t : EpollPoller K) (p q : ℕ) (e : Events)
      → EpollUpdate.Watches K s p e t
      → (s.heap p).fd ≢ (s.heap q).fd
      → s.channels (s.heap q).fd ≡ none
      → t.channels (t.heap q).fd ≡ none
  epoll_fresh s t p q e w ne k = ground (arith, w.entered (t.heap q).fd, w.same_fd q)

  -- With what happens to the flags of the channels.
  epoll_changed :
      (P : EpollPoller K → Type 0) (i : Interest) (p : ℕ) (s : EpollPoller K)
      → Returns (Epoll.change_interest K i p s) P
      → Returns
          (Epoll.change_interest K i p s)
          (λ t. P t × ((q : ℕ) → (t.heap q).event_handling ≡ (s.heap q).event_handling))
  epoll_changed P i p s r = Returns-OnOk P _ (Epoll.change_interest K i p s) r (
      OnOk-all (λ q t. (t.heap q).event_handling ≡ (s.heap q).event_handling)
        (Epoll.change_interest K i p s) (λ q. epoll_change-handling K i p q s))

  epoll_removed :
      (P : EpollPoller K → Type 0) (p : ℕ) (s : EpollPoller K)
      → Returns (Epoll.remove K p s) P
      → Returns (Epoll.remove K p s) (λ t.
        P t
        × (((q : ℕ) → (t.heap q).event_handling ≡ (s.heap q).event_handling)
            × ((t.heap p).added_to_loop ≡ false)))
  epoll_removed P p s r = Returns-OnOk P _ (Epoll.remove K p s) r (
      OnOk-both _ _ (Epoll.remove K p s)
        (OnOk-all (λ q t. (t.heap q).event_handling ≡ (s.heap q).event_handling)
          (Epoll.remove K p s) (λ q. epoll_remove-handling K p q s))
        (epoll_remove-off K p s))

  unfoldable pub epoll_keeping : Keeping (epoll_backend K)
  unfolding epoll_changed epoll_removed epoll_fresh epoll_removable same_entries
  epoll_keeping = record {
    Sound = Mirrors K;
    Fresh = λ p s. s.channels (s.heap p).fd ≡ none;
    Removable = EpollRemovable;
    enter = λ i p s m k.
        Returns-map _ _ (Epoll.change_interest K i p s)
          (epoll_changed _ i p s (EpollUpdate.change_interest-Watches K i p s m (inl k)))
          (λ t (w, h).
            (w.mirrors, w.entered, w.same_fd, h, λ q ne l. epoll_fresh s t p q _ w ne l));
    disable = λ p s m k.
        Returns-map _ _ (Epoll.change_interest K disable_all p s)
          (epoll_changed _ disable_all p s
            (EpollUpdate.change_interest-Watches K disable_all p s m (inr k)))
          (λ t (w, h). (
            w.mirrors,
            epoll_removable s t p k w,
            same_entries s.channels t.channels _ p k w.entered,
            w.same_fd,
            h,
          ));
    leave = λ p s m r.
        Returns-map _ _ (Epoll.remove K p s)
          (epoll_removed _ p s (EpollRemove.remove_lem K p s m r.0 r.1))
          (λ t (h, (b, off)). (h.mirrors, h.left, h.same_fd, b, off));
  }

abbrev PollRemovable : ℕ → PollPoller → Type 0
PollRemovable p s =
    (s.channels (s.heap p).fd ≡ some p)
    × (is_none_event (s.heap p).events ≡ true)
    × ((x : PollFd) → Lists s.pollfds x → x.fd ≢ pos (s.heap p).fd)

abbrev PollFresh : ℕ → PollPoller → Type 0
PollFresh p s = (s.channels (s.heap p).fd ≡ none) × ((s.heap p).index ≡ negsuc 0)

poll_removable :
    (s t : PollPoller) (p : ℕ)
    → s.channels (s.heap p).fd ≡ some p
    → PollUpdate.Watches s p (apply_interest disable_all (s.heap p)).events t
    → PollRemovable p t
unfolding apply_interest
poll_removable s t p k w = (
  ap t.channels (w.same_fd p) ∙ w.present,
  ground (arith, w.asked p),
  λ x l e. w.quiet refl k x l (e ∙ ap pos (w.same_fd p)),
)

poll_fresh :
    (s t : PollPoller) (p q : ℕ) (e : Events)
    → PollUpdate.Watches s p e t
    → ((r : ℕ) → r ≢ p → (t.heap r).index ≡ (s.heap r).index)
    → (s.heap p).fd ≢ (s.heap q).fd
    → PollFresh q s
    → PollFresh q t
poll_fresh s t p q e w same ne (k, n) = (
  ground (arith, w.entered (t.heap q).fd, w.same_fd q),
  same q (λ x. ne (ap (λ r. (s.heap r).fd) (sym x))) ∙ n,
)

poll_changed :
    (P : PollPoller → Type 0) (i : Interest) (p : ℕ) (s : PollPoller)
    → Returns (PollPoller.change_interest i p s) P
    → Returns
        (PollPoller.change_interest i p s)
        (λ t. P t × ((q : ℕ) → (t.heap q).event_handling ≡ (s.heap q).event_handling))
poll_changed P i p s r = Returns-OnOk P _ (PollPoller.change_interest i p s) r (
    OnOk-all (λ q t. (t.heap q).event_handling ≡ (s.heap q).event_handling)
      (PollPoller.change_interest i p s) (λ q. poll_change-handling i p q s))

poll_removed :
    (P : PollPoller → Type 0) (p : ℕ) (s : PollPoller)
    → Returns (PollPoller.remove p s) P
    → Returns (PollPoller.remove p s) (λ t.
      P t
      × (((q : ℕ) → (t.heap q).event_handling ≡ (s.heap q).event_handling)
          × ((t.heap p).added_to_loop ≡ false)))
poll_removed P p s r = Returns-OnOk P _ (PollPoller.remove p s) r (
    OnOk-both _ _ (PollPoller.remove p s)
      (OnOk-all (λ q t. (t.heap q).event_handling ≡ (s.heap q).event_handling)
        (PollPoller.remove p s) (λ q. poll_remove-handling p q s))
      (poll_remove-off p s))

unfoldable pub poll_keeping : Keeping poll_backend
unfolding poll_changed poll_removed poll_fresh poll_removable same_entries change_index
poll_keeping = record {
  Sound = Agrees;
  Fresh = PollFresh;
  Removable = PollRemovable;
  enter = λ i p s m k.
      Returns-map _ _ (PollPoller.change_interest i p s)
        (poll_changed _ i p s (
          Returns-OnOk _ _ (PollPoller.change_interest i p s)
            (PollUpdate.change_interest-Lists i p s m (inl k))
            (OnOk-all (λ r t. r ≢ p → (t.heap r).index ≡ (s.heap r).index)
              (PollPoller.change_interest i p s) (change_index i p s))))
        (λ t ((w, n), h).
          (w.agrees, w.entered, w.same_fd, h, λ q ne l. poll_fresh s t p q _ w n ne l));
  disable = λ p s m k.
      Returns-map _ _ (PollPoller.change_interest disable_all p s)
        (poll_changed _ disable_all p s
          (PollUpdate.change_interest-Lists disable_all p s m (inr k)))
        (λ t (w, h). (
          w.agrees,
          poll_removable s t p k w,
          same_entries s.channels t.channels _ p k w.entered,
          w.same_fd,
          h,
        ));
  leave = λ p s m r.
      Returns-map _ _ (PollPoller.remove p s)
        (poll_removed _ p s (PollRemove.remove_parked p s m r.0 r.1 r.2))
        (λ t (h, (b, off)). (h.agrees, h.left, h.same_fd, b, off));
}
