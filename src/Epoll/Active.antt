-- ===== src/Epoll/Active.antt =====
-- net/poller/epollpoller.cpp: `poll` and `fillActiveChannels`.
use kaycc.Prelude.{
  ℕ, ◌*◌, ◌≤◌, ◌≡◌, refl, sym, ap, ◌∙◌, inl, inr, true, Option-cases, some, List, [], ◌∷◌, ◌++◌,
  append-nil, append_assoc, map, length, leb, ◌==◌, ==_refl, Bool-cases, if◌then◌else◌, All,
  All-map, Returns, Returns-map, Returns-bind, update, holds, arith,
}
use kaycc.Channel.{Events}
use kaycc.Epoll.{Kernel, EpollPoller, fill_active_channels, poll}
use kaycc.Epoll.Mirror.{Mirrors}

-- The last events that are reported for the channel at `q`, or else those that it has.
pub revents_for : List (Events × ℕ) → ℕ → Events → Events
revents_for [] q r = r
revents_for ((e, p) ∷ rest) q r = revents_for rest q (if p == q then e else r)

module _ (K : Kernel) where
  open K use {interest}

  abbrev Known : EpollPoller K → ℕ → Type 0
  Known s p = s.channels (s.heap p).fd ≡ some p

  -- What `fillActiveChannels` makes of `s` and of a list that begins with `active`.
  record Filled (events : List (Events × ℕ)) (s : EpollPoller K) (active : List ℕ)
      (r : List ℕ × EpollPoller K) : Type 0 where
    listed : r.0 ≡ active ++ map (λ x. x.1) events
    sound : Mirrors K r.1
    noted : (q : ℕ) → (r.1.heap q).revents ≡ revents_for events q (s.heap q).revents
    watching : r.1.kernel ≡ s.kernel
    room : r.1.capacity ≡ s.capacity

  abbrev noting : Events → ℕ → EpollPoller K → EpollPoller K
  noting e p s = record s { heap = update s.heap p (record (s.heap p) { revents = e }) }

  noting-Mirrors : (e : Events) (p : ℕ) (s : EpollPoller K) → Mirrors K s → Mirrors K (noting e p s)
  noting-Mirrors e p s m = record {
    keyed = λ fd q k. ground (arith, m.keyed fd q);
    settled = λ fd q k. ground (arith, m.settled fd q k);
    outside = λ q ne. ground (arith, m.outside q);
    unwatched = m.unwatched;
  }

  noting-Known :
      (e : Events) (p : ℕ) (s : EpollPoller K) (q : ℕ) → Known s q → Known (noting e p s) q
  noting-Known e p s q k = ground arith

  fill-Filled :
      (events : List (Events × ℕ)) (s : EpollPoller K) (active : List ℕ)
      → Mirrors K s
      → All (λ x. Known s x.1) events
      → Returns (fill_active_channels K events s active) (Filled events s active)
  unfolding fill_active_channels revents_for
  fill-Filled [] s active m k = record {
    listed = sym (append-nil active);
    sound = m;
    noted = λ q. refl;
    watching = refl;
    room = refl;
  }
  fill-Filled ((e, p) ∷ rest) s active m k =
      rw (k.0, holds)
        (rw (==_refl p) (
          Returns-map (Filled rest (noting e p s) (active ++ p ∷ [])) _
            (fill_active_channels K rest (noting e p s) (active ++ p ∷ []))
            (fill-Filled rest (noting e p s) (active ++ p ∷ []) (noting-Mirrors e p s m)
              (All-map _ _ rest (λ x. noting-Known e p s x.1) k.1))
            (λ r f. record {
              listed = f.listed ∙ append_assoc active (p ∷ []) (map (λ x. x.1) rest);
              sound = f.sound;
              noted = λ q. f.noted q ∙ ap (revents_for rest q) (ground arith);
              watching = f.watching;
              room = f.room;
            })))

  wider-Mirrors : (n : ℕ) (s : EpollPoller K) → Mirrors K s → Mirrors K (record s { capacity = n })
  wider-Mirrors n s m = record {
    keyed = m.keyed;
    settled = m.settled;
    outside = m.outside;
    unwatched = m.unwatched;
  }

  -- The kernel only reports what it watches.
  abbrev pub Watched : EpollPoller K → ℕ → Type 0
  Watched s p = (fd : ℕ) × (w : Events) × (interest s.kernel fd ≡ some (w, p))

  Watched-Known : (s : EpollPoller K) (p : ℕ) → Mirrors K s → Watched s p → Known s p
  Watched-Known s p m (fd, w, h) = elim (Option-cases (s.channels fd)) [
    | inl gap ↦ let z = m.unwatched fd gap in cc
    | inr (q, k) ↦
        let same : q ≡ p = ground (arith, m.settled fd q k) in
        let key : (s.heap p).fd ≡ fd = ap (λ x. (s.heap x).fd) (sym same) ∙ m.keyed fd q k in
        ap s.channels key ∙ k ∙ ap some same
  ]

  -- What `poll` returns and leaves behind.
  pub record Polled (events : List (Events × ℕ)) (s : EpollPoller K) (r : List ℕ × EpollPoller K)
      : Type 0 where
    pub active : r.0 ≡ map (λ x. x.1) events
    pub mirrors : Mirrors K r.1
    pub noted : (q : ℕ) → (r.1.heap q).revents ≡ revents_for events q (s.heap q).revents
    pub kernel_eq : r.1.kernel ≡ s.kernel
    pub grown : r.1.capacity ≡ (if length events == s.capacity then s.capacity * 2 else s.capacity)

  -- In a poller whose map, channels and interest list agree, if `epoll_wait` reports no more events
  -- than there is room for, each with a pointer that the kernel watches a descriptor for: `poll`
  -- returns, and no assertion fails. The active channels are those of the events, in order; each has
  -- the last events reported for it in `revents_`, and every other channel what it had before; the
  -- map, the channels and the interest list agree as before; and the room is doubled exactly when it
  -- was filled.
  pub poll-Polled :
      (events : List (Events × ℕ)) (s : EpollPoller K)
      → Mirrors K s
      → length events ≤ s.capacity
      → All (λ x. Watched s x.1) events
      → Returns (poll K (some events) s) (Polled events s)
  unfolding poll
  poll-Polled events s m fits w =
      let room : leb (length events) s.capacity ≡ true = ground arith in
      rw room (
        Returns-bind (Filled events s []) (Polled events s) (fill_active_channels K events s []) _
          (fill-Filled events s [] m (All-map _ _ events (λ x. Watched-Known s x.1 m) w))
          (λ r f. elim (Bool-cases (length events == s.capacity)) [
            | inl full ↦ rw full (record {
              active = f.listed;
              mirrors = wider-Mirrors (s.capacity * 2) r.1 f.sound;
              noted = f.noted;
              kernel_eq = f.watching;
              grown = rw full refl;
            })
            | inr spare ↦ rw spare (record {
              active = f.listed;
              mirrors = f.sound;
              noted = f.noted;
              kernel_eq = f.watching;
              grown = rw spare f.room;
            })
          ]))
