-- ===== src/Poller/Lockstep.antt =====
-- net/poller.h: whatever the owners of channels do, the two pollers do the same.
use kaycc.Prelude.{
  OnOk-all, ap, ◌==◌, Bool-cases, ==_iff, ◌∙◌, ℕ, ◌≡◌, ◌≢◌, inl, inr, refl, sym, subst, none, some,
  pos, Returns, Returns-map, Returns-OnOk, arith,
}
use kaycc.Channel.{
  Channel, is_none_event, Interest, apply_interest, enable_reading, disable_reading, enable_writing,
  disable_writing, disable_all, with_reading, without_reading, with_writing, without_writing,
}
use kaycc.Epoll.{Kernel, EpollPoller}
use kaycc.Epoll
use kaycc.Epoll.Update as EpollUpdate
use kaycc.Epoll.Remove as EpollRemove
use kaycc.PollPoller
use kaycc.PollPoller.{PollFd, PollPoller, real_fd}
use kaycc.PollPoller.Agree.{Lists}
use kaycc.PollPoller.Update as PollUpdate
use kaycc.PollPoller.Swap as PollSwap
use kaycc.PollPoller.Remove as PollRemove
use kaycc.Poller.{Op, changes, removes, Asks, Same, Legal, epoll_step, poll_step}
use kaycc.Poller.Alike.{==-ne, alike_elsewhere, changed-Same, changed_here}

module _ (K : Kernel) where
  open K use {interest}

  events_interest :
      (i : Interest) (c d : Channel)
      → c.events ≡ d.events
      → (apply_interest i c).events ≡ (apply_interest i d).events
  unfolding apply_interest
  events_interest enable_reading c d h = ap with_reading h
  events_interest disable_reading c d h = ap without_reading h
  events_interest enable_writing c d h = ap with_writing h
  events_interest disable_writing c d h = ap without_writing h
  events_interest disable_all c d h = refl

  Removed-Same :
      (e e' : EpollPoller K) (s s' : PollPoller) (p : ℕ)
      → Same K e s
      → EpollRemove.Removed K e p e'
      → PollSwap.Removed s p s'
      → ((q : ℕ) → (s'.heap q).events ≡ (s.heap q).events)
      → Same K e' s'
  Removed-Same e e' s s' p same r r' kept = record {
    mirrors = r.mirrors;
    agrees = r'.agrees;
    channels_eq = λ f. ground (arith, r.left f, r'.left f, same.fd_eq p, same.channels_eq f);
    fd_eq = λ q. r.same_fd q ∙ same.fd_eq q ∙ sym (r'.same_fd q);
    events_eq = λ q. r.same_events q ∙ same.events_eq q ∙ sym (kept q);
    alike = λ fd q ev. elim (Bool-cases ((s.heap p).fd == fd)) [
      | inl y ↦
          let here : (s.heap p).fd ≡ fd = (==_iff _ _).0 y in
          let gone : interest e'.kernel fd ≡ none =
            ap (interest e'.kernel) (sym here)
            ∙ ap (interest e'.kernel) (sym (same.fd_eq p))
            ∙ r.unwatched in
          let absent : s'.channels fd ≡ none = ap s'.channels (sym here) ∙ r'.absent in
          (λ x. cc, λ x. cc)
      | inr y ↦
          let ne = ==-ne _ _ y in
          alike_elsewhere K e e' s s' fd q ev same (r.others fd (λ z. ne (sym (same.fd_eq p) ∙ z)))
            (ground (arith, r'.left fd)) (λ x z. r'.others x (λ u. ne (sym u ∙ z)))
    ];
  }

  change-Same :
      (i : Interest) (p : ℕ) (e : EpollPoller K) (s : PollPoller)
      → Same K e s
      → Legal K (changes i p) e s
      → Returns
          (Epoll.change_interest K i p e)
          (λ e'. Returns (PollPoller.change_interest i p s) (λ s'. Same K e' s'))
  change-Same i p e s same legal =
      let ev = (apply_interest i (e.heap p)).events in
      let evs : (apply_interest i (s.heap p)).events ≡ ev =
        events_interest i (s.heap p) (e.heap p) (sym (same.events_eq p)) in
      let where_e : e.channels (e.heap p).fd ≡ s.channels (s.heap p).fd =
        same.channels_eq _ ∙ ap s.channels (same.fd_eq p) in
      Returns-map (EpollUpdate.Watches K e p ev) _ (Epoll.change_interest K i p e)
        (EpollUpdate.change_interest-Watches K i p e same.mirrors
          (elim legal [ inl f ↦ inl (where_e ∙ f.0) | inr o ↦ inr (where_e ∙ o.0) ]))
        (λ e' w.
          Returns-map (PollUpdate.Watches s p ev) _ (PollPoller.change_interest i p s)
            (subst (λ x. Returns (PollPoller.change_interest i p s) (PollUpdate.Watches s p x)) evs
              (PollUpdate.change_interest-Lists i p s same.agrees
                (elim legal [ inl f ↦ inl f | inr o ↦ inr o.0 ])))
            (λ s' w'. changed-Same K e e' s s' p ev same w w' (
              changed_here K e e' s s' p ev same w w' (elim legal [
                | inl f ↦ inl f.0
                | inr o ↦
                    inr (
                      o.0,
                      elim o.1 [ inl x ↦ inl x | inr b ↦ inr (ap is_none_event (sym evs) ∙ b) ],
                    )
              ]))))

  -- What the kernel does not watch, the array does not ask for.
  quiet :
      (p : ℕ) (e : EpollPoller K) (s : PollPoller)
      → Same K e s
      → s.channels (s.heap p).fd ≡ some p
      → interest e.kernel (s.heap p).fd ≡ none
      → (x : PollFd) → Lists s.pollfds x
      → x.fd ≢ pos (s.heap p).fd
  quiet p e s same k gone x l y =
      let asks : Asks s.pollfds (s.heap p).fd x.events = (
        x.revents,
        subst (λ n. Lists s.pollfds (record { fd = n; events = x.events; revents = x.revents })) y
            l,
      ) in
      let h = (same.alike (s.heap p).fd p x.events).1 (k, asks) in cc

  remove-Same :
      (p : ℕ) (e : EpollPoller K) (s : PollPoller)
      → Same K e s
      → Legal K (removes p) e s
      → Returns (Epoll.remove K p e) (λ e'. Returns (PollPoller.remove p s) (λ s'. Same K e' s'))
  remove-Same p e s same (k, idle, unwatched) =
      let here : e.channels (e.heap p).fd ≡ some p =
        same.channels_eq _ ∙ ap s.channels (same.fd_eq p) ∙ k in
      let gone : interest e.kernel (s.heap p).fd ≡ none = unwatched in
      Returns-map (EpollRemove.Removed K e p) _ (Epoll.remove K p e)
        (EpollRemove.remove_lem K p e same.mirrors here
          (ap is_none_event (same.events_eq p) ∙ idle))
        (λ e' r.
          Returns-map
            (λ s'. PollSwap.Removed s p s' × ((q : ℕ) → (s'.heap q).events ≡ (s.heap q).events)) _
            (PollPoller.remove p s)
            (Returns-OnOk (PollSwap.Removed s p)
              (λ s'. (q : ℕ) → (s'.heap q).events ≡ (s.heap q).events) (PollPoller.remove p s)
              (PollRemove.remove_parked p s same.agrees k idle (quiet p e s same k gone))
              (OnOk-all (λ q s'. (s'.heap q).events ≡ (s.heap q).events) (PollPoller.remove p s)
                (PollRemove.remove_events p s)))
            (λ s' r'. Removed-Same e e' s s' p same r r'.0 r'.1))

  -- Take any two pollers, one over a kernel with the documented behaviour of `epoll_ctl` and one over
  -- the array of poll(2), which have the same channels and watch the same descriptors for the same
  -- events. An operation of an owner who keeps to the rules returns from both: no assertion fails.
  -- Afterwards the two again have the same channels, are sound, and watch the same.
  pub lockstep :
      (op : Op) (e : EpollPoller K) (s : PollPoller)
      → Same K e s
      → Legal K op e s
      → Returns (epoll_step K op e) (λ e'. Returns (poll_step K op s) (λ s'. Same K e' s'))
  unfolding epoll_step poll_step
  lockstep (changes i p) e s same legal = change-Same i p e s same legal
  lockstep (removes p) e s same legal = remove-Same p e s same legal
