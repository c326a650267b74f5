-- ===== src/Epoll/Remove.antt =====
-- net/poller/epollpoller.cpp: `removeChannel`.
use kaycc.Prelude.{
  ◌≢◌, ◌==◌, if◌then◌else◌, false, ap, ==_refl, ℕ, ◌≡◌, refl, inl, inr, true, none, some, arith,
  Returns,
}
use kaycc.Channel.{Channel, is_none_event, detach}
use kaycc.Epoll.{Kernel, new_index, EpollPoller, remove_channel, remove}
use kaycc.Epoll.Mirror.{Mirrors, Changed, Changed-Mirrors}

module _ (K : Kernel) where
  open K use {interest}

  -- The channel at `p` is out of the map and out of the kernel's list, and may be added again.
  pub record Removed (s : EpollPoller K) (p : ℕ) (t : EpollPoller K) : Type 0 where
    pub mirrors : Mirrors K t
    pub no_failure : t.failures ≡ s.failures
    pub absent : t.channels (s.heap p).fd ≡ none
    pub unwatched : interest t.kernel (s.heap p).fd ≡ none
    pub is_new : (t.heap p).index ≡ new_index
    pub others : (f : ℕ) → (s.heap p).fd ≢ f → interest t.kernel f ≡ interest s.kernel f
    pub same_fd : (q : ℕ) → (t.heap q).fd ≡ (s.heap q).fd
    pub same_events : (q : ℕ) → (t.heap q).events ≡ (s.heap q).events
    pub left : (f : ℕ) → t.channels f ≡ (if (s.heap p).fd == f then none else s.channels f)

  Changed-Removed :
      (s t : EpollPoller K) (p : ℕ) (c : Channel)
      → Mirrors K s
      → Changed K s t p (s.heap p).fd c none none
      → c.fd ≡ (s.heap p).fd
      → c.index ≡ new_index
      → c.events ≡ (s.heap p).events
      → s.channels (s.heap p).fd ≡ some p
      → Removed s p t
  Changed-Removed s t p c m ch here new same e = record {
    mirrors =
        Changed-Mirrors K s t p (s.heap p).fd c none none m ch refl here (λ q h. cc)
          (inr (new, refl, refl));
    no_failure = ch.failures_eq;
    absent = ground (arith, ch.channels_eq (s.heap p).fd);
    unwatched = ground (arith, ch.interest_eq (s.heap p).fd);
    is_new = ground (arith, ch.heap_eq p);
    others = λ f ne. ground (arith, ch.interest_eq f);
    same_fd = λ q. ground (arith, ch.heap_eq q);
    same_events = λ q. ground (arith, ch.heap_eq q);
    left = ch.channels_eq;
  }

  -- Over a kernel with the documented behaviour of `epoll_ctl`: in a poller whose map, channels
  -- and interest list agree, a channel in the map that waits for nothing can be removed. No
  -- assertion and no `epoll_ctl` fails, the three agree again, the channel's descriptor is in
  -- neither the map nor the interest list, and its index is that of a new channel.
  pub remove_lem :
      (p : ℕ) (s : EpollPoller K)
      → Mirrors K s
      → s.channels (s.heap p).fd ≡ some p
      → is_none_event (s.heap p).events ≡ true
      → Returns (remove K p s) (Removed s p)
  unfolding remove remove_channel detach
  remove_lem p s m e idle = elim (m.settled (s.heap p).fd p e).1 [
    | inl (a, w) ↦
        let (fine, watch) = K.del_old s.kernel (s.heap p).fd (s.heap p).events p _ w in
        simp (==_refl p, e, idle, a, fine)
          (Changed-Removed s _ p (record (s.heap p) { index = new_index; added_to_loop = false }) m
            (record {
              heap_eq = λ q. ground arith;
              channels_eq = λ f. refl;
              interest_eq = λ f. ap (λ g. g f) watch;
              failures_eq = refl;
            })
            refl refl refl e)
    | inr (d, w) ↦
        simp (==_refl p, e, idle, d)
          (Changed-Removed s _ p (record (s.heap p) { index = new_index; added_to_loop = false }) m
            (record {
              heap_eq = λ q. ground arith;
              channels_eq = λ f. refl;
              interest_eq = λ f. ground arith;
              failures_eq = refl;
            })
            refl refl refl e)
  ]
