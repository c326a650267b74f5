-- ===== src/EventLoop/Dispatch/Removal.antt =====
-- net/eventloop.cpp: no channel is handled that the poller no longer has.
use kaycc.Prelude.{
  ℕ, ◌≡◌, ◌≢◌, refl, sym, ap, ◌∙◌, inl, inr, Bool, true, false, none, some, List, [], ◌∷◌, ◌++◌,
  append-nil, append_assoc, map, ==_refl, Bool-cases, All, All-map, Checked, ok, err, OnOk,
  OnOk-bind, OnOk-any, OnOk-both, OnOk-map, holds, arith, subst,
}
use kaycc.Channel.{Callback, handle_event}
use kaycc.Poller.{Op, changes, removes}
use kaycc.Poller.Backend.{Backend, has_channel}
use kaycc.EventLoop.Dispatch.{
  is_active, Dispatch, update_channel, remove_channel, may_remove, perform, perform_all, script_of,
  handle_channel, handle_channels, handle_events,
}

abbrev pub Distinct : List ℕ → Type 0
Distinct [] = Unit
Distinct (p ∷ ps) = All (λ q. p ≢ q) ps × Distinct ps

OnOk-All {ℓ} :
    {A : Type ℓ} (P : ℕ → A → Type 0) (xs : List ℕ) (m : Checked A)
    → All (λ x. OnOk m (P x)) xs
    → OnOk m (λ a. All (λ x. P x a) xs)
OnOk-All P xs (ok a) h = h
OnOk-All P xs (err f) h = tt

abbrev pub all_there : List ℕ → List (ℕ × Bool)
all_there ps = map (λ p. (p, true)) ps

pub is_active-All : (ps : List ℕ) → All (λ p. is_active p ps ≡ true) ps
unfolding is_active
is_active-All [] = tt
is_active-All (p ∷ ps) =
    (rw (==_refl p) refl, All-map _ _ ps (λ q h. ground (arith, h)) (is_active-All ps))

module _ (B : Backend) where
  -- A channel that is still to be handled.
  pub record Waits (s : Dispatch B) (q : ℕ) : Type 0 where
    pub handling : s.event_handling ≡ true
    pub active : is_active q s.active_channels ≡ true
    pub known : B.channels s.poller (B.heap s.poller q).fd ≡ some q

  -- One that waits while another channel is handled.
  record Kept (q : ℕ) (s : Dispatch B) : Type 0 where
    waits : Waits s q
    not_current : holds s.current_active_channel q ≡ false

  may_remove-Kept : (p q : ℕ) (s : Dispatch B) → Kept q s → may_remove B p s ≡ true → q ≢ p
  unfolding may_remove
  may_remove-Kept p q s k h e =
      let a : is_active p s.active_channels ≡ true =
        subst (λ x. is_active x s.active_channels ≡ true) e k.waits.active in
      let c : holds s.current_active_channel p ≡ false =
        subst (λ x. holds s.current_active_channel x ≡ false) e k.not_current in
      let d = k.waits.handling in absurd (ground (arith, a, c, d))

  perform-Kept : (o : Op) (q : ℕ) (s : Dispatch B) → Kept q s → OnOk (perform B o s) (Kept q)
  unfolding perform update_channel remove_channel
  perform-Kept (changes i p) q s k =
      OnOk-bind (λ t. B.channels t (B.heap t q).fd ≡ some q) (Kept q)
        (B.change_interest i p s.poller) _ (B.change-Known i p q s.poller k.waits.known)
        (λ t h. record {
          waits = record { handling = k.waits.handling; active = k.waits.active; known = h };
          not_current = k.not_current;
        })
  perform-Kept (removes p) q s k = elim (Bool-cases (may_remove B p s)) [
    | inl e ↦ rw e (
        OnOk-bind (λ t. B.channels t (B.heap t q).fd ≡ some q) (Kept q) (B.remove p s.poller) _
          (B.remove-Known p q s.poller (may_remove-Kept p q s k e) k.waits.known)
          (λ t h. record {
            waits = record { handling = k.waits.handling; active = k.waits.active; known = h };
            not_current = k.not_current;
          }))
    | inr e ↦ rw e tt
  ]

  perform_all-Kept :
      (os : List Op) (q : ℕ) (s : Dispatch B) → Kept q s → OnOk (perform_all B os s) (Kept q)
  unfolding perform_all
  perform_all-Kept [] q s k = k
  perform_all-Kept (o ∷ os) q s k =
      OnOk-bind (Kept q) (Kept q) (perform B o s) _ (perform-Kept o q s k)
        (λ t h. perform_all-Kept os q t h)

  -- What no operation changes.
  pub record Frame (s t : Dispatch B) : Type 0 where
    pub handled : t.handled ≡ s.handled
    pub current : t.current_active_channel ≡ s.current_active_channel

  pub perform-Frame : (o : Op) (s : Dispatch B) → OnOk (perform B o s) (Frame s)
  unfolding perform update_channel remove_channel
  perform-Frame (changes i p) s =
      OnOk-any (Frame s) (B.change_interest i p s.poller) _
        (λ t. record { handled = refl; current = refl })
  perform-Frame (removes p) s = OnOk-any (Frame s) _ _ (λ u.
      OnOk-any (Frame s) (B.remove p s.poller) _ (λ t. record { handled = refl; current = refl }))

  perform_all-Frame : (os : List Op) (s : Dispatch B) → OnOk (perform_all B os s) (Frame s)
  unfolding perform_all
  perform_all-Frame [] s = record { handled = refl; current = refl }
  perform_all-Frame (o ∷ os) s =
      OnOk-bind (Frame s) (Frame s) (perform B o s) _ (perform-Frame o s) (λ t h.
        OnOk-map _ _ (perform_all B os t) (perform_all-Frame os t)
          (λ u k. record { handled = k.handled ∙ h.handled; current = k.current ∙ h.current }))

  module _ (script : ℕ → Callback → List Op) (alive : ℕ → Bool) where
    abbrev pub Handled : ℕ → List ℕ → Dispatch B → Dispatch B → Type 0
    Handled p ps s t = All (Waits t) ps × (t.handled ≡ s.handled ++ (p, true) ∷ [])

    turn_keeps :
        (p : ℕ) (s : Dispatch B) (h : List (ℕ × Bool)) (ps : List ℕ)
        → All (λ q. p ≢ q) ps
        → All (Waits s) ps
        → All (λ q. Kept q (record s { current_active_channel = some p; handled = h })) ps
    turn_keeps p s h [] d w = tt
    turn_keeps p s h (q ∷ ps) d w = (
      record {
        waits = record { handling = w.0.handling; active = w.0.active; known = w.0.known };
        not_current = ground (arith, d.0);
      },
      turn_keeps p s h ps d.1 w.1,
    )

    pub handle_channel-Handled :
        (p : ℕ) (ps : List ℕ) (s : Dispatch B)
        → All (λ q. p ≢ q) ps
        → Waits s p
        → All (Waits s) ps
        → OnOk (handle_channel B script alive p s) (Handled p ps s)
    unfolding handle_channel has_channel
    handle_channel-Handled p ps s d w ws =
        let os = script_of B script alive p (handle_event (B.heap s.poller p) (alive p)) in
        let there : holds (B.channels s.poller (B.heap s.poller p).fd) p ≡ true =
          rw (w.known, ==_refl p) refl in
        let s' : Dispatch B = record s {
          current_active_channel = some p;
          handled = s.handled ++ (p, true) ∷ [];
        } in
        rw there (
          OnOk-both (λ t. All (Waits t) ps) (λ t. t.handled ≡ s.handled ++ (p, true) ∷ [])
            (perform_all B os s')
            (OnOk-map (λ t. All (λ q. Kept q t) ps) (λ t. All (Waits t) ps) (perform_all B os s')
              (OnOk-All Kept ps (perform_all B os s')
                (All-map _ _ ps (λ q k. perform_all-Kept os q s' k) (turn_keeps p s _ ps d ws)))
              (λ t h. All-map _ _ ps (λ q k. k.waits) h))
            (OnOk-map (Frame s') _ (perform_all B os s') (perform_all-Frame os s')
              (λ t f. f.handled)))

    handle_channels-Handled :
        (ps : List ℕ) (s : Dispatch B)
        → Distinct ps
        → All (Waits s) ps
        → OnOk (handle_channels B script alive ps s) (λ t. t.handled ≡ s.handled ++ all_there ps)
    unfolding handle_channels
    handle_channels-Handled [] s d w = sym (append-nil s.handled)
    handle_channels-Handled (p ∷ ps) s d w =
        OnOk-bind (Handled p ps s) (λ t. t.handled ≡ s.handled ++ all_there (p ∷ ps))
          (handle_channel B script alive p s) _ (handle_channel-Handled p ps s d.0 w.0 w.1)
          (λ t h.
            OnOk-map _ _ (handle_channels B script alive ps t)
              (handle_channels-Handled ps t d.1 h.0)
              (λ u k.
                k
                ∙ ap (λ x. x ++ all_there ps) h.1
                ∙ append_assoc s.handled ((p, true) ∷ []) (all_there ps)))

    pub Waits-All :
        (active : List ℕ) (ps : List ℕ) (s : Dispatch B)
        → All (λ p. B.channels s.poller (B.heap s.poller p).fd ≡ some p) ps
        → All (λ p. is_active p active ≡ true) ps
        → All (Waits (record s { active_channels = active; event_handling = true })) ps
    Waits-All active [] s k a = tt
    Waits-All active (p ∷ ps) s k a =
        (record { handling = refl; active = a.0; known = k.0 }, Waits-All active ps s k.1 a.1)

    -- What a round leaves behind.
    pub record Round (active : List ℕ) (s t : Dispatch B) : Type 0 where
      pub handled : t.handled ≡ s.handled ++ all_there active
      pub idle : t.event_handling ≡ false
      pub none_current : t.current_active_channel ≡ none

    -- Over either poller, whatever operations the callbacks of the channels perform on these and other
    -- channels, the removal of channels included: if `poll` has returned distinct channels that are in
    -- the map, then, unless an assertion stops the program, each of them is handled once, in order, and
    -- at its turn the poller still has it. Afterwards the loop handles no events and has no current
    -- channel.
    pub handle_events-Round :
        (active : List ℕ) (s : Dispatch B)
        → Distinct active
        → All (λ p. B.channels s.poller (B.heap s.poller p).fd ≡ some p) active
        → OnOk (handle_events B script alive active s) (Round active s)
    unfolding handle_events
    handle_events-Round active s d k =
        OnOk-bind (λ t. t.handled ≡ s.handled ++ all_there active) (Round active s)
          (handle_channels B script alive active
            (record s { active_channels = active; event_handling = true }))
          _
          (handle_channels-Handled active _ d (Waits-All active active s k (is_active-All active)))
          (λ t h. record { handled = h; idle = refl; none_current = refl })
