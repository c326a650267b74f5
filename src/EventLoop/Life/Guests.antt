-- ===== src/EventLoop/Life/Guests.antt =====
-- net/eventloop.cpp: the channels of a loop's own come into its poller and go.
use kaycc.Prelude.{
  ℕ, Bool-cases, inl, inr, assert, ◌==◌, ==_iff, ◌≡◌, refl, ap, ◌∙◌, true, false, not, holds, none,
  some, if◌then◌else◌, Checked, ok, ◌>>=◌, Returns, Returns-bind, Returns-map,
}
use kaycc.Channel
use kaycc.Channel.{Interest, disable_all}
use kaycc.Poller.Backend.{Backend, has_channel}
use kaycc.Poller.Keeping.{Keeping}
use kaycc.EventLoop.Life.{
  Loop, is_in_loop_thread, assert_in_loop_thread, update_channel, remove_channel, destruct_channel,
}

module _ (B : Backend) (K : Keeping B) (thread : ℕ) where
  open K use {Sound, Fresh, Removable}

  -- Nothing but the poller differs.
  pub record Beside (l m : Loop B) : Type 0 where
    pub thread_eq : m.thread_id ≡ l.thread_id
    pub known_eq : m.loop_in_this_thread ≡ l.loop_in_this_thread
    pub closed_eq : m.closed ≡ l.closed
    pub fd_eq : (q : ℕ) → (B.heap m.poller q).fd ≡ (B.heap l.poller q).fd
    pub busy_eq : m.event_handling ≡ l.event_handling
    pub handling_eq :
        (q : ℕ) → (B.heap m.poller q).event_handling ≡ (B.heap l.poller q).event_handling

  -- The channels have their descriptors, and whether an event of theirs is handled, as before.
  abbrev pub Alike : B.State → B.State → Type 0
  Alike s t =
      ((q : ℕ) → (B.heap t q).fd ≡ (B.heap s q).fd)
      × ((q : ℕ) → (B.heap t q).event_handling ≡ (B.heap s q).event_handling)

  -- In the loop's thread, the checks for it are passed.
  pub update-poller :
      (i : Interest) (p : ℕ) (l : Loop B) (P : B.State → Type 0)
      → l.thread_id ≡ thread
      → Returns (B.change_interest i p l.poller) (λ t. P t × Alike l.poller t)
      → Returns (update_channel B thread i p l) (λ m. P m.poller × Beside l m)
  unfolding update_channel assert_in_loop_thread is_in_loop_thread
  update-poller i p l P e h =
      let same : (l.thread_id == thread) ≡ true = (==_iff l.thread_id thread).1 e in
      rw same (
        Returns-bind _ _ (B.change_interest i p l.poller) _ h (λ t pt. (
          pt.0,
          record {
            thread_eq = refl;
            known_eq = refl;
            closed_eq = refl;
            fd_eq = pt.1.0;
            busy_eq = refl;
            handling_eq = pt.1.1;
          },
        )))

  remove-poller :
      (p : ℕ) (l : Loop B) (P : B.State → Type 0)
      → l.thread_id ≡ thread
      → l.event_handling ≡ false
      → Returns (B.remove p l.poller) (λ t. P t × Alike l.poller t)
      → Returns (remove_channel B thread p l) (λ m. P m.poller × Beside l m)
  unfolding remove_channel assert_in_loop_thread is_in_loop_thread
  remove-poller p l P e idle h =
      let same : (l.thread_id == thread) ≡ true = (==_iff l.thread_id thread).1 e in
      rw (same, idle)
        (Returns-bind _ _ (B.remove p l.poller) _ h (λ t pt. (
          pt.0,
          record {
            thread_eq = refl;
            known_eq = refl;
            closed_eq = refl;
            fd_eq = pt.1.0;
            busy_eq = refl;
            handling_eq = pt.1.1;
          },
        )))

  -- A channel of the loop's own, and its descriptor.
  abbrev pub Has : ℕ → ℕ → Loop B → Type 0
  Has p fd l = ((B.heap l.poller p).fd ≡ fd) × (B.channels l.poller fd ≡ some p)

  -- The channel at `p` is off, and all others are as before.
  pub record Off (p fd : ℕ) (l m : Loop B) : Type 0 where
    pub sound : Sound m.poller
    pub left : (f : ℕ) → B.channels m.poller f ≡ (if fd == f then none else B.channels l.poller f)
    pub beside : Beside l m
    pub unhooked : (B.heap m.poller p).added_to_loop ≡ false

  abbrev Disabled : ℕ → B.State → B.State → Type 0
  Disabled p s t = Sound t × Removable p t × ((f : ℕ) → B.channels t f ≡ B.channels s f)

  abbrev Taken : ℕ → B.State → B.State → Type 0
  Taken p s t =
      Sound t
      × ((f : ℕ) → B.channels t f ≡ (if (B.heap s p).fd == f then none else B.channels s f))
      × ((B.heap t p).added_to_loop ≡ false)

  Taken-Off :
      (p fd : ℕ) (l a b : Loop B)
      → (B.heap l.poller p).fd ≡ fd
      → Disabled p l.poller a.poller
      → Beside l a
      → Taken p a.poller b.poller
      → Beside a b
      → Off p fd l b
  Taken-Off p fd l a b own x ba y bb = record {
    sound = y.0;
    left = λ f.
        y.1 f
        ∙ ap (λ g. if g == f then none else B.channels a.poller f) (ba.fd_eq p ∙ own)
        ∙ ap (λ c. if fd == f then none else c) (x.2 f);
    beside = record {
      thread_eq = bb.thread_eq ∙ ba.thread_eq;
      known_eq = bb.known_eq ∙ ba.known_eq;
      closed_eq = bb.closed_eq ∙ ba.closed_eq;
      fd_eq = λ q. bb.fd_eq q ∙ ba.fd_eq q;
      busy_eq = bb.busy_eq ∙ ba.busy_eq;
      handling_eq = λ q. bb.handling_eq q ∙ ba.handling_eq q;
    };
    unhooked = y.2;
  }

  -- `disableAll()`, `remove()`, and what comes behind them.
  pub retire_then :
      {A : Type 0} (p fd : ℕ) (l : Loop B) (k : Loop B → Checked A) (P : A → Type 0)
      → l.thread_id ≡ thread
      → l.event_handling ≡ false
      → Sound l.poller
      → Has p fd l
      → ((m : Loop B) → Off p fd l m → Returns (k m) P)
      → Returns
          (update_channel B thread disable_all p l >>= λ a. remove_channel B thread p a >>= k)
          P
  retire_then p fd l k P e idle s (own, there) after =
      Returns-bind _ P (update_channel B thread disable_all p l) _
        (update-poller disable_all p l (Disabled p l.poller) e (
          Returns-map _ _ (B.change_interest disable_all p l.poller)
            (K.disable p l.poller s (ap (B.channels l.poller) own ∙ there))
            (λ t h. ((h.0, h.1, h.2), (h.3, h.4)))))
        (λ a (x, ba).
          Returns-bind _ P (remove_channel B thread p a) k
            (remove-poller p a (Taken p a.poller) (ba.thread_eq ∙ e) (ba.busy_eq ∙ idle) (
              Returns-map _ _ (B.remove p a.poller) (K.leave p a.poller x.0 x.1)
                (λ t h. ((h.0, h.1, h.4), (h.2, h.3)))))
            (λ b (y, bb). after b (Taken-Off p fd l a b own x ba y bb)))

  -- A channel that is off, and of which no event is handled, may be destructed.
  pub off_ok :
      (p fd : ℕ) (m : Loop B)
      → (B.heap m.poller p).fd ≡ fd
      → B.channels m.poller fd ≡ none
      → (B.heap m.poller p).event_handling ≡ false
      → (B.heap m.poller p).added_to_loop ≡ false
      → destruct_channel B thread p m ≡ ok tt
  unfolding destruct_channel is_in_loop_thread has_channel Channel.destruct
  off_ok p fd m own gone quiet unhooked =
      let absent : holds (B.channels m.poller (B.heap m.poller p).fd) p ≡ false =
        ap (λ c. holds c p) (ap (B.channels m.poller) own ∙ gone) in
      rw (quiet, unhooked, absent)
        (elim (Bool-cases (m.thread_id == thread)) [
          | inl y ↦ ap (λ b. assert (not (if b then false else false))) y
          | inr n ↦ ap (λ b. assert (not (if b then false else false))) n
        ])
