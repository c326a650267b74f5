-- ===== src/PollPoller/Polling.antt =====
-- net/poller/pollpoller.cpp: `poll`, on what poll(2) answers.
use kaycc.Prelude.{
  ℕ, zero, suc, ◌≡◌, ◌≢◌, refl, sym, subst, ap, ◌∙◌, inl, inr, true, false, Option, Option-cases,
  none, some, List, [], ◌∷◌, map, Bool-cases, if◌then◌else◌, All, ltb, get_elem?, Returns,
  Returns-map, ℤ, pos, negsuc, arith,
}
use kaycc.Channel.{is_none_event}
use kaycc.PollPoller.{PollFd, PollPoller, real_fd, fill_active_channels, count_events, poll}
use kaycc.PollPoller.Agree.{Agrees}
use kaycc.PollPoller.Active.{fired, revents_for, Owned, fired_idle, Filled, fill-Filled}

-- What poll(2) makes of the array: it writes `revents` only, and nothing for a negative descriptor.
unfoldable pub Reports : List PollFd → List PollFd → Type 0
Reports [] [] = Unit
Reports [] (y ∷ ys) = ⊥
Reports (x ∷ xs) [] = ⊥
Reports (x ∷ xs) (y ∷ ys) =
    (y.fd ≡ x.fd)
    × (y.events ≡ x.events)
    × ((n : ℕ) → x.fd ≡ negsuc n → is_none_event y.revents ≡ true)
    × Reports xs ys

All-get :
    {A : Type 0} (P : A → Type 0) (l : List A)
    → ((i : ℕ) (a : A) → get_elem? l i ≡ some a → P a)
    → All P l
All-get P [] h = tt
All-get P (x ∷ xs) h = (h 0 x refl, All-get P xs (λ i. h (suc i)))

-- Each entry of the answer is one of the array, but for `revents`.
record Entry (xs : List PollFd) (i : ℕ) (y : PollFd) : Type 0 where
  before : PollFd
  there : get_elem? xs i ≡ some before
  fd_eq : y.fd ≡ before.fd
  events_eq : y.events ≡ before.events
  silent : (n : ℕ) → before.fd ≡ negsuc n → is_none_event y.revents ≡ true

Reports-Entry :
    (xs ys : List PollFd) (i : ℕ) (y : PollFd)
    → Reports xs ys
    → get_elem? ys i ≡ some y
    → Entry xs i y
unfolding Reports
Reports-Entry [] [] i y h a = absurd (ground arith)
Reports-Entry [] (z ∷ zs) i y h a = absurd h
Reports-Entry (x ∷ xs) [] i y h a = absurd h
Reports-Entry (x ∷ xs) (z ∷ zs) zero y (f, e, n, h) a = record {
  before = x;
  there = refl;
  fd_eq = ground arith;
  events_eq = ground arith;
  silent = λ k b. ground (arith, n k b);
}
Reports-Entry (x ∷ xs) (z ∷ zs) (suc i) y (f, e, n, h) a =
    let r = Reports-Entry xs zs i y h a in
    record {
      before = r.before;
      there = r.there;
      fd_eq = r.fd_eq;
      events_eq = r.events_eq;
      silent = r.silent;
    }

Reports-none :
    (xs ys : List PollFd) (i : ℕ) → Reports xs ys → get_elem? ys i ≡ none → get_elem? xs i ≡ none
unfolding Reports
Reports-none [] ys i h a = ground arith
Reports-none (x ∷ xs) [] i h a = absurd h
Reports-none (x ∷ xs) (z ∷ zs) zero h a = absurd (ground arith)
Reports-none (x ∷ xs) (z ∷ zs) (suc i) (f, e, n, h) a = Reports-none xs zs i h a

answered : PollPoller → List PollFd → PollPoller
answered s after = record s { pollfds = after }

answered-Agrees :
    (s : PollPoller) (after : List PollFd)
    → Agrees s
    → Reports s.pollfds after
    → Agrees (answered s after)
unfolding answered
answered-Agrees s after m h = record {
  keyed = m.keyed;
  indexed = m.indexed;
  filed = λ fd p i k x gap. m.filed fd p i k x (Reports-none s.pollfds after i h gap);
  fits = λ fd p i y k x a.
      let e = Reports-Entry s.pollfds after i y h a in
      let fit = m.fits fd p i e.before k x e.there in ground (arith, e.fd_eq, e.events_eq, fit);
  known = λ i y a.
      let e = Reports-Entry s.pollfds after i y h a in
      subst (λ f. s.channels (real_fd f) ≢ none) (sym e.fd_eq) (m.known i e.before e.there);
  owned = λ i p y a k.
      let e = Reports-Entry s.pollfds after i y h a in
      m.owned i p e.before e.there (ap (λ f. s.channels (real_fd f)) (sym e.fd_eq) ∙ k);
}

entry-Owned :
    (s : PollPoller) (i : ℕ) (y x : PollFd) (fd : ℤ)
    → Agrees s
    → get_elem? s.pollfds i ≡ some x
    → y.fd ≡ x.fd
    → ((n : ℕ) → x.fd ≡ negsuc n → is_none_event y.revents ≡ true)
    → x.fd ≡ fd
    → Owned s y
entry-Owned s i y x (negsuc n) m a f silent e h = let z = silent n e in cc
entry-Owned s i y x (pos n) m a f silent e h = elim (Option-cases (s.channels n)) [
  | inl gap ↦ absurd (m.known i x a (ap (λ d. s.channels (real_fd d)) e ∙ gap))
  | inr (p, k) ↦ (n, p, f ∙ e, k, m.keyed n p k)
]

answered-Owned :
    (s : PollPoller) (after : List PollFd)
    → Agrees s
    → Reports s.pollfds after
    → All (Owned (answered s after)) after
unfolding answered
answered-Owned s after m h = All-get (Owned s) after (λ i y a.
    let e = Reports-Entry s.pollfds after i y h a in
    entry-Owned s i y e.before e.before.fd m e.there e.fd_eq e.silent refl)

none_fired : (c : ℕ → Option ℕ) (l : List PollFd) → ltb 0 (count_events l) ≡ false → fired c l ≡ []
unfolding count_events fired
none_fired c [] h = refl
none_fired c (e ∷ rest) h = elim (Bool-cases (is_none_event e.revents)) [
  | inl y ↦
      fired_idle c e rest y
      ∙ none_fired c rest
          (sym (ap (λ b. ltb 0 (if b then count_events rest else suc (count_events rest))) y) ∙ h)
  | inr n ↦
      let z =
        sym (ap (λ b. ltb 0 (if b then count_events rest else suc (count_events rest))) n) ∙ h in
      absurd (ground arith)
]

-- What `poll` returns and leaves behind.
pub record Answered (after : List PollFd) (s : PollPoller) (r : List ℕ × PollPoller) : Type 0 where
  pub active : r.0 ≡ map (λ x. x.1) (fired s.channels after)
  pub agrees : Agrees r.1
  pub noted :
      (q : ℕ) → (r.1.heap q).revents ≡ revents_for (fired s.channels after) q (s.heap q).revents
  pub channels_eq : r.1.channels ≡ s.channels
  pub pollfds_eq : r.1.pollfds ≡ after

-- In a poller whose map, indices and array agree, if poll(2) writes `revents` only, and leaves those of a
-- negative descriptor empty: `poll` returns, and no assertion fails. The active channels are those whose
-- entries have events, in the order of the array; each has the events of its entry in `revents_`, the last
-- ones if there were two, and every other channel what it had before; the map, the indices and the array
-- agree as before.
pub poll-Answered :
    (after : List PollFd) (s : PollPoller)
    → Agrees s
    → Reports s.pollfds after
    → Returns (poll (some after) s) (Answered after s)
unfolding poll answered revents_for
poll-Answered after s m h = elim (Bool-cases (ltb 0 (count_events after))) [
  | inl y ↦ rw y (
      Returns-map (Filled after (answered s after) []) _
        (fill_active_channels after (answered s after) [])
        (fill-Filled after (answered s after) [] (answered-Agrees s after m h)
          (answered-Owned s after m h))
        (λ r f. record {
          active = f.listed;
          agrees = f.sound;
          noted = f.noted;
          channels_eq = f.channels_eq;
          pollfds_eq = f.pollfds_eq;
        }))
  | inr n ↦
      let empty = none_fired s.channels after n in
      rw n (record {
        active = ap (map (λ x. x.1)) (sym empty);
        agrees = answered-Agrees s after m h;
        noted = λ q. ap (λ l. revents_for l q (s.heap q).revents) (sym empty);
        channels_eq = refl;
        pollfds_eq = refl;
      })
]
