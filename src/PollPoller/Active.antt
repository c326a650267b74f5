-- ===== src/PollPoller/Active.antt =====
-- net/poller/pollpoller.cpp: `poll` and `fillActiveChannels`.
use kaycc.Prelude.{
  ℕ, ◌≡◌, refl, sym, subst, ap, ◌∙◌, inl, inr, true, false, Option, none, some, List, [], ◌∷◌, ◌++◌,
  append-nil, append_assoc, map, ◌==◌, ==_refl, Bool-cases, if◌then◌else◌, All, All-map, Returns,
  Returns-map, update, ℤ, pos, negsuc, arith,
}
use kaycc.Channel.{Events, is_none_event}
use kaycc.PollPoller.{PollFd, PollPoller, fill_active_channels}
use kaycc.PollPoller.Agree.{Agrees}

abbrev pub owner : (ℕ → Option ℕ) → ℤ → Option ℕ
owner channels (pos n) = channels n
owner channels (negsuc n) = none

-- The channels whose entries have events, with those, in the order of the array.
unfoldable pub fired : (ℕ → Option ℕ) → List PollFd → List (Events × ℕ)
fired channels [] = []
fired channels (e ∷ rest) =
    let others = fired channels rest in
    if is_none_event e.revents
    then others
    else elim (owner channels e.fd) [ none ↦ others | some p ↦ (e.revents, p) ∷ others ]

-- The last events in the list for the channel at `q`, or else those that it has.
unfoldable pub revents_for : List (Events × ℕ) → ℕ → Events → Events
revents_for [] q r = r
revents_for ((e, p) ∷ rest) q r = revents_for rest q (if p == q then e else r)

-- An entry with events is that of a channel in the map.
abbrev pub Owned : PollPoller → PollFd → Type 0
Owned s e =
    is_none_event e.revents ≡ false
    → (n : ℕ) × (p : ℕ) × (e.fd ≡ pos n) × (s.channels n ≡ some p) × ((s.heap p).fd ≡ n)

abbrev noting : Events → ℕ → PollPoller → PollPoller
noting e p s = record s { heap = update s.heap p (record (s.heap p) { revents = e }) }

noting-Agrees : (e : Events) (p : ℕ) (s : PollPoller) → Agrees s → Agrees (noting e p s)
noting-Agrees e p s m = record {
  keyed = λ fd q k. ground (arith, m.keyed fd q);
  indexed = λ fd q n k. ground (arith, m.indexed fd q n);
  filed = λ fd q i k x. ground (arith, m.filed fd q i);
  fits = λ fd q i x k y a. ground (arith, m.fits fd q i x);
  known = m.known;
  owned = λ i q x a k. ground (arith, m.owned i q x);
}

noting-Owned :
    (e : Events) (p : ℕ) (s : PollPoller) (x : PollFd) → Owned s x → Owned (noting e p s) x
noting-Owned e p s x o h = let (n, q, a, k, f) = o h in (n, q, a, k, ground arith)

pub record Filled (after : List PollFd) (s : PollPoller) (active : List ℕ) (r : List ℕ × PollPoller)
    : Type 0 where
  pub listed : r.0 ≡ active ++ map (λ x. x.1) (fired s.channels after)
  pub sound : Agrees r.1
  pub noted :
      (q : ℕ) → (r.1.heap q).revents ≡ revents_for (fired s.channels after) q (s.heap q).revents
  pub channels_eq : r.1.channels ≡ s.channels
  pub pollfds_eq : r.1.pollfds ≡ s.pollfds

pub fired_idle :
    (c : ℕ → Option ℕ) (e : PollFd) (rest : List PollFd)
    → is_none_event e.revents ≡ true
    → fired c (e ∷ rest) ≡ fired c rest
unfolding fired
fired_idle c e rest h = rw h refl

fired_busy :
    (c : ℕ → Option ℕ) (e : PollFd) (rest : List PollFd) (n p : ℕ)
    → is_none_event e.revents ≡ false
    → e.fd ≡ pos n
    → c n ≡ some p
    → fired c (e ∷ rest) ≡ (e.revents, p) ∷ fired c rest
unfolding fired
fired_busy c e rest n p h f k = rw (h, f, k) refl

-- An entry without events is passed over, and one with events is noted.
skips :
    (e : PollFd) (rest : List PollFd) (s : PollPoller) (active : List ℕ)
    → is_none_event e.revents ≡ true
    → fill_active_channels (e ∷ rest) s active ≡ fill_active_channels rest s active
unfolding fill_active_channels
skips e rest s active h = rw h refl

notes :
    (e : PollFd) (rest : List PollFd) (s : PollPoller) (active : List ℕ) (n p : ℕ)
    → is_none_event e.revents ≡ false
    → e.fd ≡ pos n
    → s.channels n ≡ some p
    → (s.heap p).fd ≡ n
    → fill_active_channels (e ∷ rest) s active
      ≡ fill_active_channels rest (noting e.revents p s) (active ++ p ∷ [])
unfolding fill_active_channels
notes e rest s active n p h f k own = rw (h, f, k, own, ==_refl n) refl

pub fill-Filled :
    (after : List PollFd) (s : PollPoller) (active : List ℕ)
    → Agrees s
    → All (Owned s) after
    → Returns (fill_active_channels after s active) (Filled after s active)
unfolding fill_active_channels fired revents_for
fill-Filled [] s active m o = record {
  listed = sym (append-nil active);
  sound = m;
  noted = λ q. refl;
  channels_eq = refl;
  pollfds_eq = refl;
}
fill-Filled (e ∷ rest) s active m (o, os) = elim (Bool-cases (is_none_event e.revents)) [
  | inl h ↦
      let same = fired_idle s.channels e rest h in
      subst (λ r. Returns r (Filled (e ∷ rest) s active)) (sym (skips e rest s active h))
        (Returns-map (Filled rest s active) _ (fill_active_channels rest s active)
          (fill-Filled rest s active m os)
          (λ r f. record {
            listed = f.listed ∙ ap (λ l. active ++ map (λ x. x.1) l) (sym same);
            sound = f.sound;
            noted = λ q. f.noted q ∙ ap (λ l. revents_for l q (s.heap q).revents) (sym same);
            channels_eq = f.channels_eq;
            pollfds_eq = f.pollfds_eq;
          }))
  | inr h ↦
      let (n, p, at, k, own) = o h in
      let same = fired_busy s.channels e rest n p h at k in
      let t = noting e.revents p s in
      subst (λ r. Returns r (Filled (e ∷ rest) s active))
        (sym (notes e rest s active n p h at k own))
        (Returns-map (Filled rest t (active ++ p ∷ [])) _
          (fill_active_channels rest t (active ++ p ∷ []))
          (fill-Filled rest t (active ++ p ∷ []) (noting-Agrees e.revents p s m)
            (All-map _ _ rest (noting-Owned e.revents p s) os))
          (λ r f. record {
            listed =
                f.listed
                ∙ append_assoc active (p ∷ []) (map (λ x. x.1) (fired s.channels rest))
                ∙ ap (λ l. active ++ map (λ x. x.1) l) (sym same);
            sound = f.sound;
            noted = λ q.
                f.noted q
                ∙ ap (revents_for (fired s.channels rest) q) (ground arith)
                ∙ ap (λ l. revents_for l q (s.heap q).revents) (sym same);
            channels_eq = f.channels_eq;
            pollfds_eq = f.pollfds_eq;
          }))
]
