-- ===== src/Acceptor/Whole.antt =====
-- net/acceptor.cpp: the whole life of an acceptor that listens, over a loop with either poller.
use kaycc.Prelude.{
  ℕ, ℤ, negsuc, ltb, Bool-cases, inl, inr, ◌+◌, ◌≡◌, refl, ap, sym, subst, ◌∙◌, ==_refl, Bool, true,
  false, List, [], ◌∷◌, ◌==◌, if◌then◌else◌, some, none, Checked, ◌>>=◌, Returns, Returns-bind,
  Returns-map, OnOk, OnOk-map, pos, All, arith, ==_iff,
}
use kaycc.Channel.{enable_reading}
use kaycc.Poller.Backend.{Backend}
use kaycc.Poller.Keeping.{Keeping}
use kaycc.EventLoop.Life.{Loop, assert_in_loop_thread, is_in_loop_thread, update_channel}
use kaycc.EventLoop.Life.Guests.{Has, Off, Beside, update-poller, retire_then, off_ok}
use kaycc.Acceptor.{
  Errno, Accepted, accepted, refused, is_emfile, errno_after, opening, shed, hand_on, socket_accept,
  accept, handle_read, Acceptor, construct, listen, destruct, set_new_connection_callback, close,
}
use kaycc.Acceptor.Descriptors.{
  Round, IsUsual, Balanced, count, count-close, run, run-Balanced, construct-Balanced,
}

-- The acceptor keeps its channel and its socket.
Same : Acceptor → Acceptor → Type 0
Same s t = (t.channel ≡ s.channel) × (t.sockfd ≡ s.sockfd)

closing-Same : (fd : ℤ) (s : Acceptor) → Same s (close fd s)
unfolding Same
closing-Same (pos fd) s = (refl, refl)
closing-Same (negsuc n) s = (refl, refl)

opening-Same : (fd : ℤ) (s : Acceptor) → Same s (opening fd s)
unfolding Same
opening-Same (pos fd) s = (refl, refl)
opening-Same (negsuc n) s = (refl, refl)

shed-Same :
    (log : Errno → Errno) (second reopened : ℤ) (s : Acceptor) → Same s (shed log second reopened s)
unfolding shed Same
shed-Same log second reopened s =
    let a = close s.idle_fd s in
    let b = opening second a in
    let c = close second b in
    let (d1, e1) = closing-Same s.idle_fd s in
    let (d2, e2) = opening-Same second a in
    let (d3, e3) = closing-Same second b in
    let (d4, e4) = opening-Same reopened c in (d4 ∙ d3 ∙ d2 ∙ d1, e4 ∙ e3 ∙ e2 ∙ e1)

handle_read-Same :
    (log : Errno → Errno) (first : Accepted) (second reopened : ℤ) (s : Acceptor)
    → Same s (handle_read log first second reopened s)
unfolding handle_read socket_accept accept hand_on Same
handle_read-Same log (accepted fd peer) second reopened s = elim (Bool-cases (ltb 0 fd)) [
  | inl y ↦
      rw y
        (elim (Bool-cases s.has_callback) [ inl c ↦ rw c (refl, refl) | inr c ↦ rw c (refl, refl) ])
  | inr n ↦ rw n (elim (Bool-cases (is_emfile (log s.errno))) [
    | inl full ↦ rw full (shed-Same log second reopened _)
    | inr other ↦ rw other (refl, refl)
  ])
]
handle_read-Same log (refused e) second reopened s =
    elim (Bool-cases (is_emfile (log (errno_after log e)))) [
      | inl full ↦ rw full (shed-Same log second reopened _)
      | inr other ↦ rw other (refl, refl)
    ]

run-Same : (log : Errno → Errno) (rs : List Round) (s : Acceptor) → Same s (run log rs s)
unfolding run Same
run-Same log [] s = (refl, refl)
run-Same log (r ∷ rs) s =
    let t = handle_read log r.first r.second r.reopened s in
    let (c, f) = handle_read-Same log r.first r.second r.reopened s in
    let (c', f') = run-Same log rs t in (c' ∙ c, f' ∙ f)

module _ (B : Backend) (K : Keeping B) (thread : ℕ) where
  open K use {Sound, Fresh}

  -- The loop is in its thread and handles no event, its poller is sound, and the channel at `p`, of
  -- which no event is handled, is there for the descriptor.
  pub record Listening (p sockfd : ℕ) (l : Loop B) : Type 0 where
    pub in_thread : l.thread_id ≡ thread
    pub idle : l.event_handling ≡ false
    pub sound : Sound l.poller
    pub there : Has B K thread p sockfd l
    pub quiet : (B.heap l.poller p).event_handling ≡ false

  -- The channel at `p` is new to the loop.
  pub record Ready (p sockfd : ℕ) (l : Loop B) : Type 0 where
    pub in_thread : l.thread_id ≡ thread
    pub idle : l.event_handling ≡ false
    pub sound : Sound l.poller
    pub fresh : Fresh p l.poller
    pub own : (B.heap l.poller p).fd ≡ sockfd
    pub quiet : (B.heap l.poller p).event_handling ≡ false

  -- The channel is off the loop, and each descriptor was closed or handed on as often as it was given.
  pub record Ended (p sockfd : ℕ) (l : Loop B) (r : Loop B × Acceptor) : Type 0 where
    pub off : Off B K thread p sockfd l r.0
    pub even : (d : ℕ) → count d r.1.opened ≡ count d r.1.closed + count d r.1.handed

  destruct-Ended :
      (l : Loop B) (s : Acceptor)
      → Listening s.channel s.sockfd l
      → Balanced s
      → Returns (destruct B thread l s) (Ended s.channel s.sockfd l)
  unfolding destruct
  destruct-Ended l s v h =
      retire_then B K thread s.channel s.sockfd l _ (Ended s.channel s.sockfd l) v.in_thread v.idle
        v.sound v.there
        (λ b off.
          let own = off.beside.fd_eq s.channel ∙ v.there.0 in
          let gone : B.channels b.poller s.sockfd ≡ none =
            off.left s.sockfd
            ∙ ap (λ y. if y then none else B.channels l.poller s.sockfd) (==_refl s.sockfd) in
          let quiet = off.beside.handling_eq s.channel ∙ v.quiet in
          rw (off_ok B K thread s.channel s.sockfd b own gone quiet off.unhooked) (record {
            off = off;
            even = λ d. omega (
              arith,
              h d,
              count-close d s.idle_fd s,
              count-close d (pos s.sockfd) (close s.idle_fd s),
            );
          }))

  abbrev Enters : ℕ → ℕ → B.State → Type 0
  Enters p sockfd t = Sound t × (B.channels t sockfd ≡ some p)

  entry :
      (p sockfd : ℕ) (s t : B.State)
      → (B.heap s p).fd ≡ sockfd
      → B.channels t sockfd ≡ (if (B.heap s p).fd == sockfd then some p else B.channels s sockfd)
      → B.channels t sockfd ≡ some p
  entry p sockfd s t e h =
      h
      ∙ ap (λ b. if b then some p else B.channels s sockfd)
          (ap (λ n. n == sockfd) e ∙ ==_refl sockfd)

  listen-Listening :
      (l : Loop B) (s : Acceptor)
      → Ready s.channel s.sockfd l
      → Returns
          (listen B thread l s)
          (λ r. Listening s.channel s.sockfd r.0 × (r.1 ≡ record s { listenning = true }))
  unfolding listen assert_in_loop_thread is_in_loop_thread
  listen-Listening l s v =
      let same : (l.thread_id == thread) ≡ true = (==_iff l.thread_id thread).1 v.in_thread in
      rw same (
        Returns-bind (λ m. Enters s.channel s.sockfd m.poller × Beside B K thread l m) _
          (update_channel B thread enable_reading s.channel l) _
          (update-poller B K thread enable_reading s.channel l (Enters s.channel s.sockfd)
            v.in_thread
            (Returns-map _ _ (B.change_interest enable_reading s.channel l.poller)
              (K.enter enable_reading s.channel l.poller v.sound v.fresh)
              (λ t h.
                ((h.0, entry s.channel s.sockfd l.poller t v.own (h.1 s.sockfd)), (h.2, h.3)))))
          (λ m (x, b). (
            record {
              in_thread = b.thread_eq ∙ v.in_thread;
              idle = b.busy_eq ∙ v.idle;
              sound = x.0;
              there = (b.fd_eq s.channel ∙ v.own, x.1);
              quiet = b.handling_eq s.channel ∙ v.quiet;
            },
            refl,
          )))

  abbrev Opened : ℕ → ℕ → Loop B × Acceptor → Type 0
  Opened p sockfd r =
      Listening p sockfd r.0 × Balanced r.1 × (r.1.channel ≡ p) × (r.1.sockfd ≡ sockfd)

  listen-Opened :
      (l : Loop B) (s : Acceptor)
      → Ready s.channel s.sockfd l
      → Balanced s
      → Returns (listen B thread l s) (Opened s.channel s.sockfd)
  listen-Opened l s v h =
      Returns-map _ (Opened s.channel s.sockfd) (listen B thread l s) (listen-Listening l s v)
        (λ r (x, e). (x, subst Balanced (sym e) h, ap (λ a. a.channel) e, ap (λ a. a.sockfd) e))

  -- An acceptor from its constructor on, which may be given a callback and then listens.
  abbrev pub open_up : ℕ → ℕ → ℕ → Bool → Loop B → Checked (Loop B × Acceptor)
  open_up channel sockfd idle_fd callback l = do
    s ← construct channel sockfd (pos idle_fd)
    listen B thread l (if callback then set_new_connection_callback s else s)

  open_up-Opened :
      (p sockfd idle_fd : ℕ) (callback : Bool) (l : Loop B)
      → Ready p sockfd l
      → Returns (open_up p sockfd idle_fd callback l) (Opened p sockfd)
  unfolding construct set_new_connection_callback
  open_up-Opened p sockfd idle_fd true l v =
      listen-Opened l _ v (construct-Balanced p sockfd idle_fd).0
  open_up-Opened p sockfd idle_fd false l v =
      listen-Opened l _ v (construct-Balanced p sockfd idle_fd).0

  destruct-Ended_of :
      (p sockfd : ℕ) (l : Loop B) (s : Acceptor)
      → Listening p sockfd l
      → Balanced s
      → s.channel ≡ p
      → s.sockfd ≡ sockfd
      → Returns (destruct B thread l s) (Ended p sockfd l)
  destruct-Ended_of p sockfd l s v h c f =
      let w =
        subst (λ q. Listening q s.sockfd l) (sym c) (subst (λ g. Listening p g l) (sym f) v) in
      subst (λ g. Returns (destruct B thread l s) (Ended p g l)) f
        (subst (λ q. Returns (destruct B thread l s) (Ended q s.sockfd l)) c
          (destruct-Ended l s w h))

  module _ (log : Errno → Errno) where
    closed_down :
        (p sockfd : ℕ) (rounds : List Round) (l : Loop B) (s : Acceptor)
        → All (λ r. IsUsual r.first) rounds
        → Listening p sockfd l
        → Balanced s
        → s.channel ≡ p
        → s.sockfd ≡ sockfd
        → Returns (destruct B thread l (run log rounds s)) (Ended p sockfd l)
    unfolding Same
    closed_down p sockfd rounds l s u v h c f =
        let (c', f') = run-Same log rounds s in
        destruct-Ended_of p sockfd l (run log rounds s) v (run-Balanced log rounds s u h) (c' ∙ c)
          (f' ∙ f)

    -- A loop, in its thread and outside of the handling of events, with a sound poller to which the
    -- channel of the acceptor is new; the spare descriptor can be opened. An acceptor is made over it,
    -- with a callback or without, and listens; it takes any events, whatever the kernel answers to
    -- `accept4` (but for the descriptor 0), `accept` and `open`; anything may happen to the loop that,
    -- where it returns, leaves it so and the channel in its poller; and the acceptor is destructed. No
    -- assertion of the acceptor, of its channel's destructor, of the loop or of the poller fails;
    -- the channel is off the poller, and every other channel is there as before the destructor; and
    -- each descriptor that the kernel gave has been closed or handed to the callback as often as it
    -- was given.
    pub life_balanced :
        (p sockfd idle_fd : ℕ) (callback : Bool) (rounds : List Round) (l : Loop B)
        (work : Loop B → Checked (Loop B))
        → All (λ r. IsUsual r.first) rounds
        → Ready p sockfd l
        → ((m : Loop B) → Listening p sockfd m → OnOk (work m) (Listening p sockfd))
        → Returns (open_up p sockfd idle_fd callback l) (λ r.
          Listening p sockfd r.0
          × OnOk
              (work r.0)
              (λ m. Returns (destruct B thread m (run log rounds r.1)) (Ended p sockfd m)))
    life_balanced p sockfd idle_fd callback rounds l work u v keeps =
        Returns-map (Opened p sockfd) _ (open_up p sockfd idle_fd callback l)
          (open_up-Opened p sockfd idle_fd callback l v)
          (λ r o. (
            o.0,
            OnOk-map (Listening p sockfd) _ (work r.0) (keeps r.0 o.0)
                (λ m w. closed_down p sockfd rounds m r.1 u w o.1 o.2 o.3),
          ))
