-- ===== src/PollPoller/Update.antt =====
-- net/poller/pollpoller.cpp: `updateChannel`, from any change of interest.
use kaycc.Prelude.{
  ap, ℕ, ◌≡◌, ◌≢◌, refl, ◌⊎◌, inl, inr, ◌∙◌, true, false, none, some, List, [], ◌∷◌, length,
  get_elem?, arith, ◌==◌, ==_refl, ltb, lt→ltb, ◌||◌, eq_ℤ, if◌then◌else◌, Returns, Checked, update,
  Option-cases, ℤ, pos, negsuc,
}
use kaycc.Channel.{Events, Channel, none_event, is_none_event, Interest, apply_interest}
use kaycc.Channel.Interests.{fd-apply_interest, index-apply_interest}
use kaycc.PollPoller.{
  PollFd, PollPoller, real_fd, add_entry, renew_entry, update_channel, change_interest,
}
use kaycc.PollPoller.Array.{get_elem?-length, get_elem?-push, get_elem?-set}
use kaycc.PollPoller.Agree.{Agrees, Fits, Lists, index_inj, real_fd-entry, real_fd-Fits}

-- The channel at `p` is now `c`, with the index `i` and the entry `e`; all else is as in `s`.
record Placed (s t : PollPoller) (p : ℕ) (c : Channel) (i : ℕ) (e : PollFd) : Type 0 where
  heap_eq : (q : ℕ) → t.heap q ≡ (if p == q then c else s.heap q)
  channels_eq : (f : ℕ) → t.channels f ≡ (if c.fd == f then some p else s.channels f)
  entries_eq : (j : ℕ) → get_elem? t.pollfds j ≡ (if i == j then some e else get_elem? s.pollfds j)
  index_eq : c.index ≡ pos i
  fd_eq : c.fd ≡ (s.heap p).fd
  fits_eq : Fits c e
  -- The place was free, or the channel's own.
  place :
      ((get_elem? s.pollfds i ≡ none) × (s.channels c.fd ≡ none))
      ⊎ ((s.channels c.fd ≡ some p) × ((s.heap p).index ≡ pos i))

Placed-Agrees :
    (s t : PollPoller) (p : ℕ) (c : Channel) (i : ℕ) (e : PollFd)
    → Agrees s
    → Placed s t p c i e
    → Agrees t
Placed-Agrees s t p c i e m h = record {
  keyed = λ f q k. ground (arith, h.heap_eq q, h.channels_eq f, m.keyed f q, m.keyed f p);
  indexed = λ f q n k. ground (arith, h.heap_eq q, h.channels_eq f, m.indexed f q n);
  filed = λ f q j k x.
      ground (arith, h.heap_eq q, h.channels_eq f, h.entries_eq j, m.filed f q j, m.keyed f q);
  fits = λ f q j e' k x a. ground (
    arith,
    h.heap_eq q,
    h.channels_eq f,
    h.entries_eq j,
    m.fits f q j e',
    m.keyed f q,
    m.filed f q j,
    index_inj s f c.fd q p j m,
  );
  known = λ j e' a. ground (arith, h.channels_eq (real_fd e'.fd), h.entries_eq j, m.known j e');
  owned = λ j q e' a k. ground (
    arith,
    h.heap_eq q,
    h.channels_eq (real_fd e'.fd),
    h.entries_eq j,
    m.owned j q e',
    m.known j e',
    m.keyed (real_fd e'.fd) q,
  );
}

-- The entry that `updateChannel` writes for a channel with these events.
abbrev pub entry_for : ℕ → Events → PollFd
entry_for fd e = record {
  fd = if is_none_event e then negsuc fd else pos fd;
  events = e;
  revents = none_event;
}

-- What a change of interest to `e` in the channel at `p` leaves behind.
pub record Watches (s : PollPoller) (p : ℕ) (e : Events) (t : PollPoller) : Type 0 where
  pub agrees : Agrees t
  pub present : t.channels (s.heap p).fd ≡ some p
  pub same_fd : (q : ℕ) → (t.heap q).fd ≡ (s.heap q).fd
  pub asked : (q : ℕ) → (t.heap q).events ≡ (if p == q then e else (s.heap q).events)
  pub entered : (f : ℕ) → t.channels f ≡ (if (s.heap p).fd == f then some p else s.channels f)
  pub watched : is_none_event e ≡ false → Lists t.pollfds (entry_for (s.heap p).fd e)
  -- A new channel is watched whatever it asks for.
  pub added :
      s.channels (s.heap p).fd ≡ none
      → Lists t.pollfds (record { fd = pos (s.heap p).fd; events = e; revents = none_event })
  pub quiet :
      is_none_event e ≡ true
      → s.channels (s.heap p).fd ≡ some p
      → (x : PollFd) → Lists t.pollfds x
      → x.fd ≢ pos (s.heap p).fd
  pub others :
      (x : PollFd)
      → real_fd x.fd ≢ (s.heap p).fd
      → (Lists s.pollfds x → Lists t.pollfds x) × (Lists t.pollfds x → Lists s.pollfds x)

-- An entry at the place that is written is the channel's own.
own_entry :
    (s : PollPoller) (p fd i : ℕ) (x : PollFd)
    → Agrees s
    → ((get_elem? s.pollfds i ≡ none) × (s.channels fd ≡ none))
      ⊎ ((s.channels fd ≡ some p) × ((s.heap p).index ≡ pos i))
    → get_elem? s.pollfds i ≡ some x
    → real_fd x.fd ≡ fd
own_entry s p fd i x m (inl (gap, _)) a = cc
own_entry s p fd i x m (inr (k, n)) a = real_fd-entry s fd p i x m k n a

module _ (s t : PollPoller) (p : ℕ) (c : Channel) (i : ℕ) (e : PollFd) (m : Agrees s)
    (h : Placed s t p c i e) where
  keep_entry : (x : PollFd) → real_fd x.fd ≢ c.fd → Lists s.pollfds x → Lists t.pollfds x
  keep_entry x ne (j, a) = (j, ground (arith, h.entries_eq j, own_entry s p c.fd i x m h.place))

  old_entry :
      (x : PollFd)
      → real_fd x.fd ≢ c.fd
      → real_fd e.fd ≡ c.fd
      → Lists t.pollfds x
      → Lists s.pollfds x
  old_entry x ne own (j, a) = (j, ground (arith, h.entries_eq j))

  only_entry :
      s.channels c.fd ≡ some p
      → e.fd ≡ negsuc c.fd
      → (x : PollFd) → Lists t.pollfds x
      → x.fd ≢ pos c.fd
  only_entry k own x (j, a) y = ground (arith, h.entries_eq j, m.owned j p x, h.place)

  Placed-Watches :
      (is_none_event c.events ≡ true → s.channels c.fd ≡ some p → e.fd ≡ negsuc c.fd)
      → (is_none_event c.events ≡ false → e ≡ entry_for c.fd c.events)
      → (s.channels c.fd ≡ none
          → e ≡ record { fd = pos c.fd; events = c.events; revents = none_event })
      → Watches s p c.events t
  Placed-Watches idle busy new = record {
    agrees = Placed-Agrees s t p c i e m h;
    present = ground (arith, h.channels_eq (s.heap p).fd);
    same_fd = λ q. ground (arith, h.heap_eq q);
    asked = λ q. ground (arith, h.heap_eq q);
    entered = λ f. ground (arith, h.channels_eq f);
    added = λ k. (i, ground (arith, h.entries_eq i, new (ap s.channels h.fd_eq ∙ k)));
    watched = λ b. (i, ground (arith, h.entries_eq i, busy b));
    quiet = λ none_asked k x l y.
        let k' : s.channels c.fd ≡ some p = cc in only_entry k' (idle none_asked k') x l (cc);
    others = λ x ne.
        let ne' : real_fd x.fd ≢ c.fd = λ y. ne (y ∙ h.fd_eq) in
        (keep_entry x ne', old_entry x ne' (real_fd-Fits c e h.fits_eq));
  }

-- The channel at `p` is now `c`, and goes to the poller.
abbrev refresh : ℕ → Channel → PollPoller → Checked PollPoller
refresh p c s = update_channel p (record s { heap = update s.heap p c })

past_end : (l : List PollFd) → get_elem? l (length l) ≡ none
past_end [] = refl
past_end (x ∷ l) = past_end l

refresh_new :
    (p n : ℕ) (c : Channel) (s : PollPoller)
    → Agrees s
    → c.fd ≡ (s.heap p).fd
    → c.index ≡ negsuc n
    → s.channels (s.heap p).fd ≡ none
    → Returns (refresh p c s) (Watches s p c.events)
unfolding update_channel add_entry
refresh_new p n c s m same new e =
    simp (==_refl p, new, same, e)
      (Placed-Watches s _ p (record c { index = pos (length s.pollfds) }) (length s.pollfds)
        (record { fd = pos c.fd; events = c.events; revents = none_event }) m
        (record {
          heap_eq = λ q. ground arith;
          channels_eq = λ f. ground arith;
          entries_eq = λ j. ground (
            arith,
            get_elem?-push s.pollfds
                (record { fd = pos (s.heap p).fd; events = c.events; revents = none_event }) j,
          );
          index_eq = refl;
          fd_eq = same;
          fits_eq = (refl, inl refl);
          place = inl (past_end s.pollfds, ground arith);
        })
        (λ idle k. ground arith) (λ busy. rw busy refl) (λ k. refl))

own_fd :
    (c : Channel) (e : PollFd) → Fits c e → (eq_ℤ e.fd (pos c.fd) || eq_ℤ e.fd (negsuc c.fd)) ≡ true
own_fd c e h = ground arith

refresh_old :
    (p i : ℕ) (c : Channel) (s : PollPoller)
    → Agrees s
    → c.fd ≡ (s.heap p).fd
    → c.index ≡ pos i
    → (s.heap p).index ≡ pos i
    → s.channels (s.heap p).fd ≡ some p
    → Returns (refresh p c s) (Watches s p c.events)
unfolding update_channel renew_entry
refresh_old p i c s m same old old' k = elim (Option-cases (get_elem? s.pollfds i)) [
  | inl gap ↦ absurd (m.filed _ p i k old' gap)
  | inr (e, a) ↦
      let lt : ltb i (length s.pollfds) ≡ true =
        lt→ltb i (length s.pollfds) (get_elem?-length s.pollfds i e a) in
      let own : (eq_ℤ e.fd (pos (s.heap p).fd) || eq_ℤ e.fd (negsuc (s.heap p).fd)) ≡ true =
        own_fd (s.heap p) e (m.fits (s.heap p).fd p i e k old' a) in
      simp (==_refl p, old, same, k, a, lt, own)
        (Placed-Watches s _ p c i (entry_for c.fd c.events) m
          (record {
            heap_eq = λ q. ground arith;
            channels_eq = λ f. ground arith;
            entries_eq = λ j. ground (
              arith,
              get_elem?-set s.pollfds i (entry_for (s.heap p).fd c.events) j,
              get_elem?-length s.pollfds i e a,
            );
            index_eq = old;
            fd_eq = same;
            fits_eq = (refl, ground arith);
            place = inr (ground arith, old');
          })
          (λ idle k. rw idle refl) (λ busy. refl) (λ gap. ground arith))
]

-- A channel in the map has an index.
pub index_of :
    (s : PollPoller) (fd p : ℕ) (k : ℤ)
    → Agrees s
    → s.channels fd ≡ some p
    → (s.heap p).index ≡ k
    → (i : ℕ) × ((s.heap p).index ≡ pos i)
index_of s fd p (pos i) m h e = (i, e)
index_of s fd p (negsuc n) m h e = absurd (m.indexed fd p n h e)

-- In a poll(2) poller whose map, indices and array agree: whatever interest a channel changes, if
-- it is in the map, or has never been there and no other channel has its descriptor,
-- `updateChannel` returns. No assertion fails, the three agree again and the map has the channel.
-- If the channel asks for anything, the array has an entry with its descriptor and just those
-- events; if a channel that was in the map asks for nothing, no entry has its descriptor any
-- more; and the entries of other descriptors are as before.
pub change_interest-Lists :
    (i : Interest) (p : ℕ) (s : PollPoller)
    → Agrees s
    → ((s.channels (s.heap p).fd ≡ none) × ((s.heap p).index ≡ negsuc 0))
      ⊎ (s.channels (s.heap p).fd ≡ some p)
    → Returns (change_interest i p s) (Watches s p (apply_interest i (s.heap p)).events)
unfolding change_interest
change_interest-Lists i p s m (inl (k, n)) =
    refresh_new p 0 _ s m (fd-apply_interest i (s.heap p)) (index-apply_interest i (s.heap p) ∙ n) k
change_interest-Lists i p s m (inr k) =
    let (j, n) = index_of s (s.heap p).fd p (s.heap p).index m k refl in
    refresh_old p j _ s m (fd-apply_interest i (s.heap p)) (index-apply_interest i (s.heap p) ∙ n) n
      k
