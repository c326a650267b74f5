-- ===== src/Epoll/Mirror.antt =====
-- net/poller/epollpoller.cpp: the kernel's interest list mirrors the channels, and no `epoll_ctl`
-- fails.
use kaycc.Prelude.{ℕ, ◌≡◌, ◌≢◌, ◌⊎◌, Option, none, some, arith, ◌==◌, if◌then◌else◌}
use kaycc.Channel.{Events, Channel}
use kaycc.Epoll.{Kernel, new_index, added_index, deleted_index, EpollPoller}

module _ (K : Kernel) where
  open K use {interest}

  -- What the map and the kernel hold at the descriptor of `c`, by the channel's index.
  abbrev pub Settled : ℕ → Channel → Option ℕ → Option (Events × ℕ) → Type 0
  Settled p c entry watch =
      (entry ≡ some p)
      × (((c.index ≡ added_index) × (watch ≡ some (c.events, p)))
          ⊎ ((c.index ≡ deleted_index) × (watch ≡ none)))

  -- Each channel in the map is settled, is found under its own descriptor, and a channel outside the
  -- map has never been added or has been removed; nothing else is watched.
  pub record Mirrors (s : EpollPoller K) : Type 0 where
    pub keyed : (fd p : ℕ) → s.channels fd ≡ some p → (s.heap p).fd ≡ fd
    pub settled :
        (fd p : ℕ)
        → s.channels fd ≡ some p
        → Settled p (s.heap p) (s.channels fd) (interest s.kernel fd)
    pub outside : (p : ℕ) → s.channels (s.heap p).fd ≢ some p → (s.heap p).index ≡ new_index
    pub unwatched : (fd : ℕ) → s.channels fd ≡ none → interest s.kernel fd ≡ none

  -- `t` is `s` but for the channel at `p`, which is now `c`, and what is held at `fd`.
  pub record Changed (s t : EpollPoller K) (p fd : ℕ) (c : Channel) (entry : Option ℕ)
      (watch : Option (Events × ℕ)) : Type 0 where
    pub heap_eq : (q : ℕ) → t.heap q ≡ (if p == q then c else s.heap q)
    pub channels_eq : (f : ℕ) → t.channels f ≡ (if fd == f then entry else s.channels f)
    pub interest_eq :
        (f : ℕ) → interest t.kernel f ≡ (if fd == f then watch else interest s.kernel f)
    pub failures_eq : t.failures ≡ s.failures

  pub Changed-Mirrors :
      (s t : EpollPoller K) (p fd : ℕ) (c : Channel) (entry : Option ℕ)
      (watch : Option (Events × ℕ))
      → Mirrors s
      → Changed s t p fd c entry watch
      → (s.heap p).fd ≡ fd
      → c.fd ≡ fd
      → ((q : ℕ) → s.channels fd ≡ some q → q ≡ p)
      → Settled p c entry watch ⊎ ((c.index ≡ new_index) × (entry ≡ none) × (watch ≡ none))
      → Mirrors t
  Changed-Mirrors s t p fd c entry watch m ch old here alone new = record {
    keyed =
        λ f q e. ground (arith, ch.heap_eq q, ch.channels_eq f, m.keyed f q, m.keyed f p, alone q);
    settled = λ f q e. ground (
      arith,
      ch.heap_eq q,
      ch.channels_eq f,
      ch.interest_eq f,
      m.settled f q,
      m.keyed f p,
      alone q,
    );
    outside =
        λ q e. ground (arith, ch.heap_eq q, ch.channels_eq (t.heap q).fd, m.outside q, alone q);
    unwatched = λ f e. ground (arith, ch.channels_eq f, ch.interest_eq f, m.unwatched f);
  }
