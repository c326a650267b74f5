-- ===== src/EventLoop/Life/Whole.antt =====
-- net/eventloop.cpp: a loop leaves nothing of its own behind in the poller.
use kaycc.Prelude.{
  ℕ, false, ◌==◌, ==_refl, ◌≡◌, ◌≢◌, refl, sym, ap, ap₂, ◌∙◌, Option, none, some, List, [], ◌∷◌,
  ◌++◌, append_assoc, if◌then◌else◌, update, is_none, Checked, Returns, Returns-bind, Returns-map,
  OnOk, OnOk-map, arith,
}
use kaycc.Channel.{enable_reading}
use kaycc.Poller.Backend.{Backend}
use kaycc.Poller.Keeping.{Keeping}
use kaycc.EventLoop.Life.{
  Loop, update_channel, construct_timers, destruct_timers, construct, destruct,
}
use kaycc.EventLoop.Life.Guests.{Beside, Has, Off, update-poller, retire_then, off_ok}

module _ (B : Backend) (K : Keeping B) (thread : ℕ) where
  open K use {Sound, Fresh}

  module _ (timer wakeup timer_fd wakeup_fd : ℕ) (apart : timer_fd ≢ wakeup_fd) where
    -- The loop is in its thread and handles no event, neither of its channels does, and its poller is
    -- sound and has the two channels.
    pub record Made (m : Loop B) : Type 0 where
      pub in_thread : m.thread_id ≡ thread
      pub sound : Sound m.poller
      pub timers : Has B K thread timer timer_fd m
      pub wakeups : Has B K thread wakeup wakeup_fd m
      pub idle : m.event_handling ≡ false
      pub timer_quiet : (B.heap m.poller timer).event_handling ≡ false
      pub wakeup_quiet : (B.heap m.poller wakeup).event_handling ≡ false

    -- The two channels are off, the others are there, the descriptors are closed, and the thread has
    -- no loop.
    pub record Gone (m r : Loop B) : Type 0 where
      pub sound : Sound r.poller
      pub left :
          (f : ℕ)
          → B.channels r.poller f ≡ (
              if timer_fd == f
              then none
              else if wakeup_fd == f
              then none
              else B.channels m.poller f)
      pub closed_eq : r.closed ≡ m.closed ++ wakeup_fd ∷ timer_fd ∷ []
      pub no_loop : r.loop_in_this_thread thread ≡ none

    kept_entry :
        (c d : ℕ → Option ℕ)
        → ((f : ℕ) → c f ≡ (if wakeup_fd == f then none else d f))
        → (c timer_fd ≡ d timer_fd) × (c wakeup_fd ≡ none)
    kept_entry c d h = (ground (arith, h timer_fd, apart), ground (arith, h wakeup_fd))

    both_left :
        (m b d : Loop B)
        → Off B K thread wakeup wakeup_fd m b
        → ((f : ℕ)
            → B.channels d.poller f ≡ (if timer_fd == f then none else B.channels b.poller f))
        → (f : ℕ)
        → B.channels d.poller f
          ≡ (if timer_fd == f then none else if wakeup_fd == f then none else B.channels m.poller f)
    both_left m b d off h f = h f ∙ ap (λ c. if timer_fd == f then none else c) (off.left f)

    closed_both :
        (xs ys zs : List ℕ) (a b : ℕ)
        → ys ≡ xs
        → zs ≡ ys ++ a ∷ []
        → a ≡ wakeup_fd
        → b ≡ timer_fd
        → zs ++ b ∷ [] ≡ xs ++ wakeup_fd ∷ timer_fd ∷ []
    closed_both xs ys zs a b h k x y =
        ap₂ (λ l c. l ++ c ∷ []) (k ∙ ap₂ (λ l c. l ++ c ∷ []) h x) y
        ∙ append_assoc xs (wakeup_fd ∷ []) (timer_fd ∷ [])

    destruct-Gone : (m : Loop B) → Made m → Returns (destruct B thread timer wakeup m) (Gone m)
    unfolding destruct destruct_timers
    destruct-Gone m v =
        retire_then B K thread wakeup wakeup_fd m _ (Gone m) v.in_thread v.idle v.sound v.wakeups
          (λ b off.
            let (same, gone) = kept_entry (B.channels b.poller) (B.channels m.poller) off.left in
            let own : (B.heap b.poller wakeup).fd ≡ wakeup_fd =
              off.beside.fd_eq wakeup ∙ v.wakeups.0 in
            let c : Loop B = record b {
              closed = b.closed ++ (B.heap b.poller wakeup).fd ∷ [];
              loop_in_this_thread = update b.loop_in_this_thread thread none;
            } in
            let quiet : (B.heap b.poller wakeup).event_handling ≡ false =
              off.beside.handling_eq wakeup ∙ v.wakeup_quiet in
            rw (off_ok B K thread wakeup wakeup_fd c own gone quiet off.unhooked) (
              retire_then B K thread timer timer_fd c _ (Gone m)
                (off.beside.thread_eq ∙ v.in_thread) (off.beside.busy_eq ∙ v.idle) off.sound
                (off.beside.fd_eq timer ∙ v.timers.0, same ∙ v.timers.1)
                (λ d off'.
                  let own' : (B.heap d.poller timer).fd ≡ timer_fd =
                    off'.beside.fd_eq timer ∙ off.beside.fd_eq timer ∙ v.timers.0 in
                  let gone' : B.channels d.poller timer_fd ≡ none =
                    off'.left timer_fd
                    ∙ ap (λ y. if y then none else B.channels c.poller timer_fd)
                        (==_refl timer_fd) in
                  let quiet' : (B.heap d.poller timer).event_handling ≡ false =
                    off'.beside.handling_eq timer ∙ off.beside.handling_eq timer ∙ v.timer_quiet in
                  rw
                    (off_ok B K thread timer timer_fd
                      (record d { closed = d.closed ++ (B.heap d.poller timer).fd ∷ [] }) own' gone'
                      quiet' off'.unhooked)
                    (record {
                      sound = off'.sound;
                      left = both_left m b d off off'.left;
                      closed_eq =
                          closed_both m.closed b.closed d.closed _ _ off.beside.closed_eq
                            off'.beside.closed_eq own own';
                      no_loop =
                          ap (λ g. g thread) off'.beside.known_eq
                          ∙ ap (λ y. if y then none else b.loop_in_this_thread thread)
                              (==_refl thread);
                    }))))

    -- Both channels are new to the poller, with these descriptors.
    pub record New (s : B.State) : Type 0 where
      pub sound : Sound s
      pub timer_new : Fresh timer s
      pub wakeup_new : Fresh wakeup s
      pub timer_eq : (B.heap s timer).fd ≡ timer_fd
      pub wakeup_eq : (B.heap s wakeup).fd ≡ wakeup_fd
      pub timer_calm : (B.heap s timer).event_handling ≡ false
      pub wakeup_calm : (B.heap s wakeup).event_handling ≡ false

    -- What `enableReading` of the new channel at `p` leaves.
    abbrev Enters : ℕ → B.State → B.State → Type 0
    Enters p s t =
        Sound t
        × ((f : ℕ) → B.channels t f ≡ (if (B.heap s p).fd == f then some p else B.channels s f))
        × ((q : ℕ) → (B.heap s p).fd ≢ (B.heap s q).fd → Fresh q s → Fresh q t)

    enter_then :
        (p : ℕ) (l : Loop B)
        → l.thread_id ≡ thread
        → Sound l.poller
        → Fresh p l.poller
        → Returns
            (update_channel B thread enable_reading p l)
            (λ m. Enters p l.poller m.poller × Beside B K thread l m)
    enter_then p l e s n = update-poller B K thread enable_reading p l (Enters p l.poller) e (
        Returns-map _ _ (B.change_interest enable_reading p l.poller)
          (K.enter enable_reading p l.poller s n) (λ t h. ((h.0, h.1, h.4), (h.2, h.3))))

    entered :
        (c d : ℕ → Option ℕ) (b : ℕ)
        → b ≡ wakeup_fd
        → c timer_fd ≡ some timer
        → ((f : ℕ) → d f ≡ (if b == f then some wakeup else c f))
        → (d timer_fd ≡ some timer) × (d wakeup_fd ≡ some wakeup)
    entered c d b y h k = (ground (arith, k timer_fd, apart), ground (arith, k wakeup_fd))

    own_entry :
        (s a : B.State)
        → (B.heap s timer).fd ≡ timer_fd
        → B.channels a timer_fd
          ≡ (if (B.heap s timer).fd == timer_fd then some timer else B.channels s timer_fd)
        → B.channels a timer_fd ≡ some timer
    own_entry s a e h =
        h
        ∙ ap (λ b. if b then some timer else B.channels s timer_fd)
            (ap (λ n. n == timer_fd) e ∙ ==_refl timer_fd)

    construct-Made :
        (id : ℕ) (s : B.State) (known : ℕ → Option ℕ)
        → New s
        → Returns (construct B thread id timer wakeup s known) Made
    unfolding construct construct_timers
    construct-Made id s known v =
        Returns-bind _ Made (update_channel B thread enable_reading timer _) _
          (enter_then timer _ refl v.sound v.timer_new)
          (λ a (x, ba).
            let e = ba.fd_eq in
            let b : Loop B = record a {
              loop_in_this_thread =
                  if is_none (a.loop_in_this_thread thread)
                  then update a.loop_in_this_thread thread (some id)
                  else a.loop_in_this_thread;
            } in
            let ne : (B.heap s timer).fd ≢ (B.heap s wakeup).fd =
              λ y. apart (sym v.timer_eq ∙ y ∙ v.wakeup_eq) in
            Returns-map _ Made (update_channel B thread enable_reading wakeup b)
              (enter_then wakeup b ba.thread_eq x.0 (x.2 wakeup ne v.wakeup_new))
              (λ m (y, bm).
                let (t, w) =
                  entered (B.channels a.poller) (B.channels m.poller) (B.heap a.poller wakeup).fd
                    (e wakeup ∙ v.wakeup_eq) (own_entry s a.poller v.timer_eq (x.1 timer_fd)) y.1 in
                record {
                  in_thread = bm.thread_eq ∙ ba.thread_eq;
                  sound = y.0;
                  timers = (bm.fd_eq timer ∙ e timer ∙ v.timer_eq, t);
                  wakeups = (bm.fd_eq wakeup ∙ e wakeup ∙ v.wakeup_eq, w);
                  idle = bm.busy_eq ∙ ba.busy_eq;
                  timer_quiet = bm.handling_eq timer ∙ ba.handling_eq timer ∙ v.timer_calm;
                  wakeup_quiet = bm.handling_eq wakeup ∙ ba.handling_eq wakeup ∙ v.wakeup_calm;
                }))

    -- A loop is made in a thread, over a sound poller that is new to the two channels, whose descriptors are
    -- two; anything may happen then that, where it returns, leaves the poller sound and these channels
    -- in it and the loop not in the middle of handling an event; and the destructor runs in that thread.
    -- The constructor and the destructor return: no assertion of theirs, of the pollers or of the
    -- destructors of the two channels fails, and the thread is the loop's. Afterwards the two channels
    -- are no longer in the poller, every other channel is there as before the destructor, their
    -- descriptors have been closed, once each, and the thread has no loop.
    pub loop_life :
        (id : ℕ) (s : B.State) (known : ℕ → Option ℕ) (work : Loop B → Checked (Loop B))
        → New s
        → ((l : Loop B) → Made l → OnOk (work l) Made)
        → Returns
            (construct B thread id timer wakeup s known)
            (λ l. Made l × OnOk (work l) (λ m. Returns (destruct B thread timer wakeup m) (Gone m)))
    loop_life id s known work v keeps =
        Returns-map Made _ (construct B thread id timer wakeup s known)
          (construct-Made id s known v)
          (λ l made. (made, OnOk-map Made _ (work l) (keeps l made) destruct-Gone))
