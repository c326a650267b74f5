-- ===== src/Epoll/Update.antt =====
-- net/poller/epollpoller.cpp: `updateChannel`, from any change of interest.
use kaycc.Prelude.{
  ap, ==_refl, ℕ, ◌≡◌, ◌≢◌, refl, ◌⊎◌, inl, inr, ◌∙◌, true, false, Option, none, some, arith, ◌==◌,
  if◌then◌else◌, Returns, Checked, update, Bool-cases,
}
use kaycc.Channel.{Events, Channel, is_none_event, Interest, apply_interest}
use kaycc.Channel.Interests.{fd-apply_interest, index-apply_interest}
use kaycc.Epoll.{
  Kernel, new_index, added_index, deleted_index, EpollPoller, update_channel, change_interest,
}
use kaycc.Epoll.Mirror.{Settled, Mirrors, Changed, Changed-Mirrors}

module _ (K : Kernel) where
  open K use {interest}

  -- What a change of interest `e` in the channel at `p` leaves behind.
  pub record Watches (s : EpollPoller K) (p : ℕ) (e : Events) (t : EpollPoller K) : Type 0 where
    pub mirrors : Mirrors K t
    pub no_failure : t.failures ≡ s.failures
    pub watched : is_none_event e ≡ false → interest t.kernel (s.heap p).fd ≡ some (e, p)
    pub others : (f : ℕ) → (s.heap p).fd ≢ f → interest t.kernel f ≡ interest s.kernel f
    -- What was not watched is added whatever it asks for, and what was is dropped if it asks for
    -- nothing.
    pub added :
        interest s.kernel (s.heap p).fd ≡ none → interest t.kernel (s.heap p).fd ≡ some (e, p)
    pub dropped :
        (w : Events × ℕ)
        → interest s.kernel (s.heap p).fd ≡ some w
        → is_none_event e ≡ true
        → interest t.kernel (s.heap p).fd ≡ none
    pub same_fd : (q : ℕ) → (t.heap q).fd ≡ (s.heap q).fd
    pub asked : (q : ℕ) → (t.heap q).events ≡ (if p == q then e else (s.heap q).events)
    pub entered : (f : ℕ) → t.channels f ≡ (if (s.heap p).fd == f then some p else s.channels f)

  Changed-Watches :
      (s t : EpollPoller K) (p : ℕ) (e : Events) (c : Channel) (watch : Option (Events × ℕ))
      → Mirrors K s
      → Changed K s t p (s.heap p).fd c (some p) watch
      → c.fd ≡ (s.heap p).fd
      → ((q : ℕ) → s.channels (s.heap p).fd ≡ some q → q ≡ p)
      → Settled K p c (some p) watch
      → (is_none_event e ≡ false → watch ≡ some (e, p))
      → c.events ≡ e
      → (interest s.kernel (s.heap p).fd ≡ none → watch ≡ some (e, p))
      → ((w : Events × ℕ)
          → interest s.kernel (s.heap p).fd ≡ some w
          → is_none_event e ≡ true
          → watch ≡ none)
      → Watches s p e t
  Changed-Watches s t p e c watch m ch here alone new seen asks add drop = record {
    mirrors = Changed-Mirrors K s t p (s.heap p).fd c (some p) watch m ch refl here alone (inl new);
    no_failure = ch.failures_eq;
    watched = λ h. ground (arith, ch.interest_eq (s.heap p).fd, seen h);
    others = λ f ne. ground (arith, ch.interest_eq f);
    added = λ h. ground (arith, ch.interest_eq (s.heap p).fd, add h);
    dropped = λ w h k. ground (arith, ch.interest_eq (s.heap p).fd, drop w h k);
    same_fd = λ q. ground (arith, ch.heap_eq q);
    asked = λ q. ground (arith, ch.heap_eq q);
    entered = ch.channels_eq;
  }

  -- The channel at `p` is now `c`, and goes to the poller.
  abbrev refresh : ℕ → Channel → EpollPoller K → Checked (EpollPoller K)
  refresh p c s = update_channel K p (record s { heap = update s.heap p c })

  refresh_new :
      (p : ℕ) (c : Channel) (s : EpollPoller K)
      → Mirrors K s
      → c.fd ≡ (s.heap p).fd
      → c.index ≡ new_index
      → s.channels (s.heap p).fd ≡ none
      → Returns (refresh p c s) (Watches s p c.events)
  unfolding update_channel
  refresh_new p c s m same n e =
      let (fine, watch) = K.add_new s.kernel (s.heap p).fd c.events p (m.unwatched _ e) in
      simp (==_refl p, n, same, e, fine)
        (Changed-Watches s _ p c.events (record c { index = added_index }) (some (c.events, p)) m
          (record {
            heap_eq = λ q. ground arith;
            channels_eq = λ f. refl;
            interest_eq = λ f. ap (λ g. g f) watch;
            failures_eq = refl;
          })
          same (λ q h. cc) (refl, inl (refl, refl)) (λ _. refl) refl (λ _. refl)
          (λ w h k. let z = m.unwatched _ e in cc))

  -- The map entry of a channel that is in the map stays as it is.
  same_entry :
      (s : EpollPoller K) (fd p : ℕ) (f : ℕ)
      → s.channels fd ≡ some p
      → s.channels f ≡ (if fd == f then some p else s.channels f)
  same_entry s fd p f e = ground arith

  refresh_deleted :
      (p : ℕ) (c : Channel) (s : EpollPoller K)
      → Mirrors K s
      → c.fd ≡ (s.heap p).fd
      → c.index ≡ deleted_index
      → s.channels (s.heap p).fd ≡ some p
      → interest s.kernel (s.heap p).fd ≡ none
      → Returns (refresh p c s) (Watches s p c.events)
  unfolding update_channel
  refresh_deleted p c s m same n e u =
      let (fine, watch) = K.add_new s.kernel (s.heap p).fd c.events p u in
      simp (==_refl p, n, same, e, fine)
        (Changed-Watches s _ p c.events (record c { index = added_index }) (some (c.events, p)) m
          (record {
            heap_eq = λ q. ground arith;
            channels_eq = λ f. same_entry s (s.heap p).fd p f e;
            interest_eq = λ f. ap (λ g. g f) watch;
            failures_eq = refl;
          })
          same (λ q h. cc) (refl, inl (refl, refl)) (λ _. refl) refl (λ _. refl) (λ w h k. cc))

  refresh_added :
      (p : ℕ) (c : Channel) (s : EpollPoller K) (w : Events × ℕ)
      → Mirrors K s
      → c.fd ≡ (s.heap p).fd
      → c.index ≡ added_index
      → s.channels (s.heap p).fd ≡ some p
      → interest s.kernel (s.heap p).fd ≡ some w
      → is_none_event c.events ≡ false
      → Returns (refresh p c s) (Watches s p c.events)
  unfolding update_channel
  refresh_added p c s w m same n e u busy =
      let (fine, watch) = K.mod_old s.kernel (s.heap p).fd c.events p w u in
      simp (==_refl p, n, same, e, fine, busy)
        (Changed-Watches s _ p c.events c (some (c.events, p)) m
          (record {
            heap_eq = λ q. ground arith;
            channels_eq = λ f. same_entry s (s.heap p).fd p f e;
            interest_eq = λ f. ap (λ g. g f) watch;
            failures_eq = refl;
          })
          same (λ q h. cc) (refl, inl (n, refl)) (λ _. refl) refl (λ _. refl) (λ w' h k. cc))

  refresh_idle :
      (p : ℕ) (c : Channel) (s : EpollPoller K) (w : Events × ℕ)
      → Mirrors K s
      → c.fd ≡ (s.heap p).fd
      → c.index ≡ added_index
      → s.channels (s.heap p).fd ≡ some p
      → interest s.kernel (s.heap p).fd ≡ some w
      → is_none_event c.events ≡ true
      → Returns (refresh p c s) (Watches s p c.events)
  unfolding update_channel
  refresh_idle p c s w m same n e u idle =
      let (fine, watch) = K.del_old s.kernel (s.heap p).fd c.events p w u in
      simp (==_refl p, n, same, e, fine, idle)
        (Changed-Watches s _ p c.events (record c { index = deleted_index }) none m
          (record {
            heap_eq = λ q. ground arith;
            channels_eq = λ f. same_entry s (s.heap p).fd p f e;
            interest_eq = λ f. ap (λ g. g f) watch;
            failures_eq = refl;
          })
          same (λ q h. cc) (refl, inr (refl, refl)) (λ h. cc) refl (λ h. cc) (λ w' h k. refl))

  refresh_old :
      (p : ℕ) (c : Channel) (s : EpollPoller K)
      → Mirrors K s
      → c.fd ≡ (s.heap p).fd
      → c.index ≡ (s.heap p).index
      → s.channels (s.heap p).fd ≡ some p
      → Returns (refresh p c s) (Watches s p c.events)
  refresh_old p c s m same n e = elim (m.settled (s.heap p).fd p e).1 [
    | inl (a, w) ↦ elim (Bool-cases (is_none_event c.events)) [
      | inl idle ↦ refresh_idle p c s _ m same (n ∙ a) e w idle
      | inr busy ↦ refresh_added p c s _ m same (n ∙ a) e w busy
    ]
    | inr (d, w) ↦ refresh_deleted p c s m same (n ∙ d) e w
  ]

  -- Over a kernel with the documented behaviour of `epoll_ctl`: in a poller whose map, channels
  -- and interest list agree, whatever interest a channel changes, if no other channel is in the
  -- map under its descriptor, `updateChannel` returns. No assertion and no `epoll_ctl` fails, the
  -- three agree again, the kernel watches exactly what the channel now asks for if it asks for
  -- anything, and it watches every other descriptor as before.
  pub change_interest-Watches :
      (i : Interest) (p : ℕ) (s : EpollPoller K)
      → Mirrors K s
      → (s.channels (s.heap p).fd ≡ none) ⊎ (s.channels (s.heap p).fd ≡ some p)
      → Returns (change_interest K i p s) (Watches s p (apply_interest i (s.heap p)).events)
  unfolding change_interest
  change_interest-Watches i p s m (inl e) =
      refresh_new p _ s m (fd-apply_interest i (s.heap p))
        (index-apply_interest i (s.heap p) ∙ m.outside p (λ h. cc)) e
  change_interest-Watches i p s m (inr e) =
      refresh_old p _ s m (fd-apply_interest i (s.heap p)) (index-apply_interest i (s.heap p)) e
