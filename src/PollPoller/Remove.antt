-- ===== src/PollPoller/Remove.antt =====
-- net/poller/pollpoller.cpp: `removeChannel`, which fills the gap with the last entry.
use kaycc.Prelude.{
  OnOk, ℕ, ◌-◌, ◌<◌, ◌≡◌, ◌≢◌, refl, sym, ◌∙◌, ap, inl, inr, true, false, none, some, List, [], ◌∷◌,
  ◌&&◌, length, get_elem?, arith, ◌==◌, ==_refl, ltb, lt→ltb, if◌then◌else◌, ◌++◌, length-append,
  ◌>>=◌, Returns-map, ==_iff, ok, take, Returns, Returns-bind, Checked, update, Bool-cases,
  Option-cases, pos, negsuc, eq_ℤ, err, assertion,
}
use kaycc.Channel.{Events, Channel, none_event, is_none_event, disable_all, apply_interest, detach}
use kaycc.PollPoller.{
  PollFd, PollPoller, add_entry, update_channel, real_fd, move_last, remove_entry, remove_channel,
  remove, change_interest, same_events,
}
use kaycc.PollPoller.Array.{get_elem?-length, get_elem?-total, get_elem?-pop, get_elem?-swap_out}
use kaycc.PollPoller.Agree.{Agrees, Fits, Lists}
use kaycc.PollPoller.Swap.{Removed, Popped-Removed, Swapped-Removed}
use kaycc.PollPoller.Update.{Watches, change_interest-Lists, index_of}

same_events_refl : (a : Events) → same_events a a ≡ true
same_events_refl a = ground arith

-- The assertion on the entry of a channel that is parked.
parked_entry :
    (c : Channel) (e : PollFd)
    → Fits c e
    → e.fd ≢ pos c.fd
    → (eq_ℤ e.fd (negsuc c.fd) && same_events e.events c.events) ≡ true
parked_entry c e (ev, inl y) ne = absurd (ne y)
parked_entry c e (ev, inr (y, idle)) ne =
    rw y (rw ev (rw (==_refl c.fd) (same_events_refl c.events)))

last_entry :
    (l : List PollFd) (i : ℕ) (e : PollFd)
    → get_elem? l i ≡ some e
    → (last : PollFd) × (get_elem? l (length l - 1) ≡ some last)
last_entry l i e a = get_elem?-total l (length l - 1) (omega (arith, get_elem?-length l i e a))

module _ (s : PollPoller) (p i : ℕ) (e : PollFd) (m : Agrees s)
    (here : s.channels (s.heap p).fd ≡ some p) (own : (s.heap p).index ≡ pos i)
    (a : get_elem? s.pollfds i ≡ some e) (idle : is_none_event (s.heap p).events ≡ true)
    (parked : e.fd ≢ pos (s.heap p).fd) where
  -- The poller when all assertions of `removeChannel` but those of the swap have held.
  abbrev checked : PollPoller
  checked = record s {
    channels = update s.channels (s.heap p).fd none;
    heap = update s.heap p (record (s.heap p) { added_to_loop = false });
  }

  remove-assertions : remove p s ≡ (
      if i == length s.pollfds - 1
      then ok (record checked { pollfds = take (length s.pollfds - 1) s.pollfds })
      else move_last i e checked)
  unfolding remove detach remove_channel remove_entry
  remove-assertions =
      let lt = get_elem?-length s.pollfds i e a in
      let asserted = parked_entry (s.heap p) e (m.fits (s.heap p).fd p i e here own a) parked in
      simp (==_refl p, own, here, idle, a, lt→ltb _ _ lt, asserted)

  remove_last : (i == length s.pollfds - 1) ≡ true → Returns (remove p s) (Removed s p)
  remove_last z = rw remove-assertions (
      rw z (
        let n : i ≡ length s.pollfds - 1 = (==_iff _ _).0 z in
        let lt = get_elem?-length s.pollfds i e a in
        Popped-Removed s _ p (s.heap p).fd (length s.pollfds - 1) m
          (record {
            heap_eq = λ q. ground arith;
            channels_eq = λ f. refl;
            entries_eq = λ j. get_elem?-pop s.pollfds (length s.pollfds - 1) j (omega arith);
          })
          here (own ∙ ap pos n) refl))

  module _ (last : PollFd) (below : i < length s.pollfds - 1)
      (b : get_elem? s.pollfds (length s.pollfds - 1) ≡ some last) where
    other_fd : ((s.heap p).fd == real_fd last.fd) ≡ false
    other_fd = ground (arith, m.owned (length s.pollfds - 1) p last)

    swap_last :
        (q : ℕ)
        → s.channels (real_fd last.fd) ≡ some q
        → Returns (move_last i e checked) (Removed s p)
    unfolding move_last
    swap_last q owner =
        simp (b, other_fd, owner)
          (Swapped-Removed s _ p (s.heap p).fd i (length s.pollfds - 1) q last m
            (record {
              index_eq = λ r. ground arith;
              same_heap = λ r. ground arith;
              channels_eq = λ f. refl;
              entries_eq = λ j.
                  get_elem?-swap_out s.pollfds (length s.pollfds - 1) i e last j (omega arith)
                    below;
            })
            here own below b owner refl)

  remove_other : (i == length s.pollfds - 1) ≡ false → Returns (remove p s) (Removed s p)
  remove_other z = rw remove-assertions (
      rw z (
        let lt = get_elem?-length s.pollfds i e a in
        let below : i < length s.pollfds - 1 = ground arith in
        let (last, b) = last_entry s.pollfds i e a in
        elim (Option-cases (s.channels (real_fd last.fd))) [
          | inl gap ↦ absurd (m.known _ last b gap)
          | inr (q, owner) ↦ swap_last last below b q owner
        ]))

-- In a poll(2) poller whose map, indices and array agree: a channel in the map that waits for
-- nothing, and whose descriptor no entry has, can be removed. No assertion fails, the channel of
-- the last entry that fills the gap is found, and the three agree again; the descriptor is in
-- neither the map nor the array, and the entries of other descriptors are as before.
pub remove_parked :
    (p : ℕ) (s : PollPoller)
    → Agrees s
    → s.channels (s.heap p).fd ≡ some p
    → is_none_event (s.heap p).events ≡ true
    → ((x : PollFd) → Lists s.pollfds x → x.fd ≢ pos (s.heap p).fd)
    → Returns (remove p s) (Removed s p)
remove_parked p s m k idle quiet =
    let (i, own) = index_of s (s.heap p).fd p (s.heap p).index m k refl in
    elim (Option-cases (get_elem? s.pollfds i)) [
      | inl gap ↦ absurd (m.filed (s.heap p).fd p i k own gap)
      | inr (e, a) ↦
          let parked = quiet e (i, a) in
          elim (Bool-cases (i == length s.pollfds - 1)) [
            | inl z ↦ remove_last s p i e m k own a idle parked z
            | inr z ↦ remove_other s p i e m k own a idle parked z
          ]
    ]

grows : (l : List PollFd) (x : PollFd) → ltb (length l) (length (l ++ x ∷ [])) ≡ true
grows l x = lt→ltb _ _ (omega (arith, length-append l (x ∷ [])))

newest : (l : List PollFd) (x : PollFd) → get_elem? (l ++ x ∷ []) (length l) ≡ some x
newest [] x = refl
newest (y ∷ l) x = newest l x

-- `removeChannel` leaves all events as they are.
pub remove_events :
    (p : ℕ) (s : PollPoller) (q : ℕ)
    → OnOk (remove p s) (λ t. (t.heap q).events ≡ (s.heap q).events)
unfolding remove remove_channel remove_entry move_last detach
remove_events p s q = ground arith

-- `disableAll()` and then `remove()`, as the owners of channels call them.
abbrev pub retire : ℕ → PollPoller → Checked PollPoller
retire p s = do t ← change_interest disable_all p s; remove p t

Removed-trans :
    (s t u : PollPoller) (p : ℕ) (e : Events) → Watches s p e t → Removed t p u → Removed s p u
Removed-trans s t u p e w r = record {
  agrees = r.agrees;
  left = λ f. ground (arith, w.same_fd p, w.entered f, r.left f);
  same_fd = λ q. r.same_fd q ∙ w.same_fd q;
  absent = ap u.channels (sym (w.same_fd p)) ∙ r.absent;
  unlisted = λ x l y. r.unlisted x l (y ∙ sym (w.same_fd p));
  others = λ x ne.
      let ne' : real_fd x.fd ≢ (t.heap p).fd = λ y. ne (y ∙ w.same_fd p) in
      (
        λ l. (r.others x ne').0 ((w.others x ne).0 l),
        λ l. (w.others x ne).1 ((r.others x ne').1 l),
      );
}

-- In a poll(2) poller whose map, indices and array agree: whatever a channel in the map waits for,
-- `disableAll()` and then `remove()` return. No assertion fails, the channel of the last entry that
-- fills the gap is found, and the three agree again; the channel's descriptor is in neither the map
-- nor the array, and the entries of other descriptors are as before.
pub retire-Removed :
    (p : ℕ) (s : PollPoller)
    → Agrees s
    → s.channels (s.heap p).fd ≡ some p
    → Returns (retire p s) (Removed s p)
unfolding apply_interest
retire-Removed p s m k =
    Returns-bind (Watches s p none_event) (Removed s p) (change_interest disable_all p s) (remove p)
      (change_interest-Lists disable_all p s m (inr k))
      (λ t w.
        let here : t.channels (t.heap p).fd ≡ some p = ap t.channels (w.same_fd p) ∙ w.present in
        let idle : is_none_event (t.heap p).events ≡ true =
          (let asked' : (t.heap p).events ≡ none_event = ground (arith, w.asked p) in
            ap is_none_event asked') in
        Returns-map (Removed t p) (Removed s p) (remove p t)
          (remove_parked p t w.agrees here idle
            (λ x l y. w.quiet refl k x l (y ∙ ap pos (w.same_fd p))))
          (λ u r. Removed-trans s t u p none_event w r))

-- A channel that has never been added, with a descriptor that is not in the map: `disableAll()` and
-- then `remove()` fail an assertion of the poll(2) poller, since the new entry has the descriptor
-- itself and not -fd - 1.
pub retire_fresh :
    (p n : ℕ) (s : PollPoller)
    → s.channels (s.heap p).fd ≡ none
    → (s.heap p).index ≡ negsuc n
    → retire p s ≡ err assertion
unfolding change_interest update_channel add_entry apply_interest remove remove_channel remove_entry
    detach
retire_fresh p n s k new = simp (==_refl p, new, k, ==_refl (s.heap p).fd, grows, newest)
