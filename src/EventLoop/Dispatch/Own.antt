-- ===== src/EventLoop/Dispatch/Own.antt =====
-- net/eventloop.cpp: a round in which each channel's callbacks only touch that channel, as those of
-- Acceptor, Connector and TcpConnection do, fails no assertion.
use kaycc.Prelude.{
  ℕ, ◌≡◌, Bool, refl, sym, ap, ◌∙◌, true, some, List, [], ◌∷◌, ◌++◌, append-nil, append_assoc,
  ==_refl, All, Returns, Returns-bind, Returns-map, Returns-OnOk, arith,
}
use kaycc.Channel.{Channel, Callback, Interest, disable_all, handle_event}
use kaycc.Poller.{Op, changes, removes}
use kaycc.Poller.Backend.{Backend}
use kaycc.Poller.Laws.{Laws}
use kaycc.EventLoop.Dispatch.{
  Dispatch, update_channel, remove_channel, may_remove, perform, perform_all, script_of,
  handle_channel, handle_channels, handle_events,
}
use kaycc.EventLoop.Dispatch.Removal.{
  Distinct, Waits, Frame, perform-Frame, Handled, handle_channel-Handled, all_there, Round,
  Waits-All, is_active-All,
}

-- Changes of interest in the channel at `p`, at the end of which it may be disabled and removed.
pub data Own (p : ℕ) : List Op → Type 0 where
  done : Own p []
  sets : (i : Interest) (os : List Op) → Own p os → Own p (changes i p ∷ os)
  retires : Own p (changes disable_all p ∷ removes p ∷ [])

module _ (B : Backend) (L : Laws B) where
  open L use {Sound, Removable}

  -- `perform` on the channel whose turn it is.
  change-Sound :
      (i : Interest) (p : ℕ) (s : Dispatch B)
      → Sound s.poller
      → B.channels s.poller (B.heap s.poller p).fd ≡ some p
      → Returns
          (perform B (changes i p) s)
          (λ t. Sound t.poller × (B.channels t.poller (B.heap t.poller p).fd ≡ some p))
  unfolding perform update_channel
  change-Sound i p s m k =
      Returns-bind _ _ (B.change_interest i p s.poller) _ (L.change_returns i p s.poller m k)
        (λ t h. h)

  disable-Sound :
      (p : ℕ) (s : Dispatch B)
      → Sound s.poller
      → B.channels s.poller (B.heap s.poller p).fd ≡ some p
      → Returns (perform B (changes disable_all p) s) (λ t. Sound t.poller × Removable p t.poller)
  unfolding perform update_channel
  disable-Sound p s m k =
      Returns-bind _ _ (B.change_interest disable_all p s.poller) _
        (L.disable_returns p s.poller m k) (λ t h. h)

  may_remove-current :
      (p : ℕ) (s : Dispatch B) → s.current_active_channel ≡ some p → may_remove B p s ≡ true
  unfolding may_remove
  may_remove-current p s c = ground (arith, ==_refl p)

  remove-Sound :
      (p : ℕ) (s : Dispatch B)
      → Sound s.poller
      → Removable p s.poller
      → s.current_active_channel ≡ some p
      → Returns (perform B (removes p) s) (λ t. Sound t.poller)
  unfolding perform remove_channel
  remove-Sound p s m r c =
      rw (may_remove-current p s c)
        (Returns-bind _ _ (B.remove p s.poller) _ (L.remove_returns p s.poller m r) (λ t h. h))

  perform_all-Own :
      (p : ℕ) (os : List Op) (s : Dispatch B)
      → Own p os
      → Sound s.poller
      → B.channels s.poller (B.heap s.poller p).fd ≡ some p
      → s.current_active_channel ≡ some p
      → Returns (perform_all B os s) (λ t. Sound t.poller)
  unfolding perform_all
  perform_all-Own p _ s done m k c = m
  perform_all-Own p _ s (sets i os o) m k c =
      Returns-bind _ _ (perform B (changes i p) s) _
        (Returns-OnOk _ (Frame B s) (perform B (changes i p) s) (change-Sound i p s m k)
          (perform-Frame B (changes i p) s))
        (λ t h. perform_all-Own p os t o h.0.0 h.0.1 (h.1.current ∙ c))
  perform_all-Own p _ s retires m k c =
      Returns-bind _ _ (perform B (changes disable_all p) s) _
        (Returns-OnOk _ (Frame B s) (perform B (changes disable_all p) s) (disable-Sound p s m k)
          (perform-Frame B (changes disable_all p) s))
        (λ t h.
          Returns-bind _ _ (perform B (removes p) t) _
            (remove-Sound p t h.0.0 h.0.1 (h.1.current ∙ c)) (λ u g. g))

  module _ (script : ℕ → Callback → List Op) (alive : ℕ → Bool) where
    -- Whatever events a channel has, the callbacks of its turn keep to it.
    abbrev pub Owns : ℕ → Type 0
    Owns p = (c : Channel) → Own p (script_of B script alive p (handle_event c (alive p)))

    handle_channel-Own :
        (p : ℕ) (s : Dispatch B)
        → Owns p
        → Sound s.poller
        → Waits B s p
        → Returns (handle_channel B script alive p s) (λ t. Sound t.poller)
    unfolding handle_channel
    handle_channel-Own p s o m w = perform_all-Own p _ _ (o (B.heap s.poller p)) m w.known refl

    handle_channels-Own :
        (ps : List ℕ) (s : Dispatch B)
        → Distinct ps
        → All Owns ps
        → Sound s.poller
        → All (Waits B s) ps
        → Returns
            (handle_channels B script alive ps s)
            (λ t. Sound t.poller × (t.handled ≡ s.handled ++ all_there ps))
    unfolding handle_channels
    handle_channels-Own [] s d o m w = (m, sym (append-nil s.handled))
    handle_channels-Own (p ∷ ps) s d o m w =
        Returns-bind _ _ (handle_channel B script alive p s) _
          (Returns-OnOk _ (Handled B script alive p ps s) (handle_channel B script alive p s)
            (handle_channel-Own p s o.0 m w.0)
            (handle_channel-Handled B script alive p ps s d.0 w.0 w.1))
          (λ t h.
            Returns-map _ _ (handle_channels B script alive ps t)
              (handle_channels-Own ps t d.1 o.1 h.0 h.1.0)
              (λ u k. (
                k.0,
                k.1
                    ∙ ap (λ x. x ++ all_there ps) h.1.1
                    ∙ append_assoc s.handled ((p, true) ∷ []) (all_there ps),
              )))

    -- Over either poller, or any other with its laws, if it is sound and `poll` has returned distinct
    -- channels of the map, and the callbacks of each only change what that channel waits for, and at
    -- the end may disable and remove it: the round returns, and no assertion of the loop, the channels
    -- or the poller fails. Each channel is handled once, in order, while the poller has it; the poller
    -- is sound again, and the loop handles no events and has no current channel.
    pub handle_events-Own :
        (active : List ℕ) (s : Dispatch B)
        → Distinct active
        → All Owns active
        → Sound s.poller
        → All (λ p. B.channels s.poller (B.heap s.poller p).fd ≡ some p) active
        → Returns
            (handle_events B script alive active s)
            (λ t. Sound t.poller × Round B script alive active s t)
    unfolding handle_events
    handle_events-Own active s d o m k =
        Returns-bind _ _
          (handle_channels B script alive active
            (record s { active_channels = active; event_handling = true }))
          _
          (handle_channels-Own active _ d o m
            (Waits-All B script alive active active s k (is_active-All active)))
          (λ t h. (h.0, record { handled = h.1; idle = refl; none_current = refl }))
