-- ===== src/Poller/Alike.antt =====
-- net/poller.h: what the two pollers watch after a change of one channel, and elsewhere.
use kaycc.Prelude.{
  ap, ap₂, ◌==◌, Bool-cases, ==_iff, ◌∙◌, ℕ, ◌≡◌, ◌≢◌, ◌↔◌, ◌⊎◌, inl, inr, refl, sym, subst, true,
  false, Option, none, some, pos, arith,
}
use kaycc.Channel.{Events, none_event, is_none_event}
use kaycc.Epoll.{Kernel, EpollPoller}
use kaycc.Epoll.Update as EpollUpdate
use kaycc.PollPoller.{PollFd, PollPoller, real_fd}
use kaycc.PollPoller.Agree.{Agrees, Lists}
use kaycc.PollPoller.Update as PollUpdate
use kaycc.Poller.{Asks, Same}

pub ==-ne : (a b : ℕ) → (a == b) ≡ false → a ≢ b
==-ne a b h e = ground arith

-- The events of an entry are those of its channel.
entry_events :
    (s : PollPoller) (fd p : ℕ) (ev : Events)
    → Agrees s
    → s.channels fd ≡ some p
    → Asks s.pollfds fd ev
    → ev ≡ (s.heap p).events
entry_events s fd p ev m k (r, (j, a)) = (m.fits fd p j _ k (m.owned j p _ a k) a).0

-- A descriptor that both watch for `ev`, on behalf of `p`.
both_watch :
    (w : Option (Events × ℕ)) (s : PollPoller) (fd p : ℕ) (ev : Events) (q : ℕ) (ev' : Events)
    → Agrees s
    → s.channels fd ≡ some p
    → (s.heap p).events ≡ ev
    → w ≡ some (ev, p)
    → Asks s.pollfds fd ev
    → (w ≡ some (ev', q)) ↔ ((s.channels fd ≡ some q) × Asks s.pollfds fd ev')
both_watch w s fd p ev q ev' m k e h asks = (
  λ x.
      let pair : ◌≡◌ {A = Option (Events × ℕ)} (some (ev, p)) (some (ev', q)) = sym h ∙ x in
      let same_ev : ev ≡ ev' = cc in
      let same_p : p ≡ q = cc in
      (k ∙ ap some same_p, subst (λ y. Asks s.pollfds fd y) same_ev asks),
  λ x.
      let same_p : p ≡ q = cc in
      let same_ev : ev' ≡ ev =
        entry_events s fd q ev' m x.0 x.1 ∙ ap (λ y. (s.heap y).events) (sym same_p) ∙ e in
      h ∙ ap₂ (λ y z. some (y, z)) (sym same_ev) same_p,
)

-- A descriptor that neither watches.
neither_watches :
    (w : Option (Events × ℕ)) (s : PollPoller) (fd q : ℕ) (ev : Events)
    → w ≡ none
    → ((x : PollFd) → Lists s.pollfds x → x.fd ≢ pos fd)
    → (w ≡ some (ev, q)) ↔ ((s.channels fd ≡ some q) × Asks s.pollfds fd ev)
neither_watches w s fd q ev h quiet = (λ x. cc, λ x. absurd (quiet _ x.1.1 refl))

module _ (K : Kernel) where
  open K use {interest}

  -- Descriptors that the step does not touch.
  pub alike_elsewhere :
      (e e' : EpollPoller K) (s s' : PollPoller) (fd q : ℕ) (ev : Events)
      → Same K e s
      → interest e'.kernel fd ≡ interest e.kernel fd
      → s'.channels fd ≡ s.channels fd
      → ((x : PollFd)
          → real_fd x.fd ≡ fd
          → (Lists s.pollfds x → Lists s'.pollfds x) × (Lists s'.pollfds x → Lists s.pollfds x))
      → (interest e'.kernel fd ≡ some (ev, q)) ↔ ((s'.channels fd ≡ some q) × Asks s'.pollfds fd ev)
  alike_elsewhere e e' s s' fd q ev same hw hc hl = (
    λ x. let (k, (r, l)) = (same.alike fd q ev).0 (sym hw ∙ x) in (hc ∙ k, (r, (hl _ refl).0 l)),
    λ x. let (k, (r, l)) = x in hw ∙ (same.alike fd q ev).1 (sym hc ∙ k, (r, (hl _ refl).1 l)),
  )

  module _ (e e' : EpollPoller K) (s s' : PollPoller) (p : ℕ) (ev : Events) (same : Same K e s)
      (w : EpollUpdate.Watches K e p ev e') (w' : PollUpdate.Watches s p ev s') where
    abbrev pub AlikeAt : ℕ → Type 0
    AlikeAt fd =
        (q : ℕ) (ev' : Events)
        → (interest e'.kernel fd ≡ some (ev', q))
          ↔ ((s'.channels fd ≡ some q) × Asks s'.pollfds fd ev')

    at_fd :
        (x : Option (Events × ℕ))
        → interest e'.kernel (e.heap p).fd ≡ x
        → interest e'.kernel (s.heap p).fd ≡ x
    at_fd x h = sym (ap (interest e'.kernel) (same.fd_eq p)) ∙ h

    asked_here : (s'.heap p).events ≡ ev
    asked_here = ground (arith, w'.asked p)

    fresh_here : s.channels (s.heap p).fd ≡ none → AlikeAt (s.heap p).fd
    fresh_here k q ev' =
        both_watch _ s' (s.heap p).fd p ev q ev' w'.agrees w'.present asked_here
          (at_fd _ (
            w.added
              (same.mirrors.unwatched _ (same.channels_eq _ ∙ ap s.channels (same.fd_eq p) ∙ k))))
          (none_event, w'.added k)

    busy_here : is_none_event ev ≡ false → AlikeAt (s.heap p).fd
    busy_here b q ev' =
        both_watch _ s' (s.heap p).fd p ev q ev' w'.agrees w'.present asked_here
          (at_fd _ (w.watched b)) (none_event, subst (Lists s'.pollfds) (rw b refl) (w'.watched b))

    idle_here :
        (x : Events × ℕ)
        → s.channels (s.heap p).fd ≡ some p
        → interest e.kernel (s.heap p).fd ≡ some x
        → is_none_event ev ≡ true
        → AlikeAt (s.heap p).fd
    idle_here x k watched idle q ev' =
        neither_watches _ s' (s.heap p).fd q ev'
          (at_fd _ (w.dropped x (ap (interest e.kernel) (same.fd_eq p) ∙ watched) idle))
          (w'.quiet idle k)

    pub changed_here :
        ((s.channels (s.heap p).fd ≡ none))
          ⊎ ((s.channels (s.heap p).fd ≡ some p)
              × (((x : Events × ℕ) × (interest e.kernel (s.heap p).fd ≡ some x))
                  ⊎ (is_none_event ev ≡ false)))
        → AlikeAt (s.heap p).fd
    changed_here (inl k) = fresh_here k
    changed_here (inr (k, inr b)) = busy_here b
    changed_here (inr (k, inl (x, watched))) = elim (Bool-cases (is_none_event ev)) [
      | inl idle ↦ idle_here x k watched idle
      | inr b ↦ busy_here b
    ]

    changed_there : (fd : ℕ) → (s.heap p).fd ≢ fd → AlikeAt fd
    changed_there fd ne q ev' =
        alike_elsewhere e e' s s' fd q ev' same (w.others fd (λ y. ne (sym (same.fd_eq p) ∙ y)))
          (ground (arith, w'.entered fd)) (λ x y. w'.others x (λ z. ne (sym z ∙ y)))

    pub changed-Same : AlikeAt (s.heap p).fd → Same K e' s'
    changed-Same here = record {
      mirrors = w.mirrors;
      agrees = w'.agrees;
      channels_eq =
          λ f. ground (arith, w.entered f, w'.entered f, same.fd_eq p, same.channels_eq f);
      fd_eq = λ q. w.same_fd q ∙ same.fd_eq q ∙ sym (w'.same_fd q);
      events_eq = λ q. ground (arith, w.asked q, w'.asked q, same.events_eq q);
      alike = λ fd q ev'. elim (Bool-cases ((s.heap p).fd == fd)) [
        | inl y ↦ subst AlikeAt ((==_iff _ _).0 y) here q ev'
        | inr y ↦ changed_there fd (==-ne _ _ y) q ev'
      ];
    }
