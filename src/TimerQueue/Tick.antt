-- ===== src/TimerQueue/Tick.antt =====
-- net/timerqueue.cpp: `handleRead`, with callbacks that use the queue.
use kaycc.Prelude.{
  ℕ, ◌<◌, ◌≡◌, refl, ap, ◌∙◌, Bool, true, false, some, List, [], ◌∷◌, ◌++◌, ltb, if◌then◌else◌,
  Checked, ok, ◌>>=◌, Returns, Returns-bind, All, All-append, All-left, All-right, arith,
}
use kaycc.TimerQueue.{
  Timer, TimerQueue, deref, uintptr_max, get_expired, reinsert, reset, run_all, handle_read,
}
use kaycc.TimerQueue.Sets.{Entry}
use kaycc.TimerQueue.Sets.Ranges.{contains-head}
use kaycc.TimerQueue.Agree.{Away, Agree, deref-some}
use kaycc.TimerQueue.Handover.{Expired-in, Expired-Away, Expired-Distinct, Sorted-left}
use kaycc.TimerQueue.Expiry.{Expired, get_expired-Expired}
use kaycc.TimerQueue.Reset.{Distinct, Reinserted, reinsert-Reinserted}

-- What a callback may do: it keeps the agreement, and leaves alone the live timers in neither set.
abbrev pub Gentle : (ℕ → TimerQueue → Checked TimerQueue) → Type 0
Gentle run =
    (p : ℕ) (es : List Entry) (q : TimerQueue)
    → Agree q
    → All (Away q) es
    → Returns (run p q) (λ r. Agree r × All (Away r) es)

-- The timerfd is set to the first timer.
pub record Ticked (q : TimerQueue) : Type 0 where
  pub agree : Agree q
  pub armed_eq : (e : Entry) (es : List Entry) → q.timers ≡ e ∷ es → 0 < e.0 → q.armed ≡ some e.0

run_all-Away :
    (run : ℕ → TimerQueue → Checked TimerQueue)
    → Gentle run
    → (es all : List Entry) (q : TimerQueue) → Agree q
    → All (Away q) es
    → All (Away q) all
    → Returns (run_all run es q) (λ r. Agree r × All (Away r) all)
unfolding run_all
run_all-Away run g [] all q v a b = (v, b)
run_all-Away run g (e ∷ es) all q v ((t, h, out), a) b = rw (deref-some e.1 q t h) (
    Returns-bind (λ r. Agree r × All (Away r) (es ++ all)) (λ r. Agree r × All (Away r) all)
      (run e.1 q) (run_all run es) (g e.1 (es ++ all) q v (All-append (Away q) es all a b))
      λ r (w, c).
        run_all-Away run g es all r w (All-left (Away r) es all c) (All-right (Away r) es all c))

-- `reset` once the timers are back: the timerfd is set to the first.
abbrev rearm : TimerQueue → Checked TimerQueue
rearm q = elim q.timers [
  | [] ↦ ok q
  | e ∷ es ↦ (do
    t ← deref e.1 q
    ok (if ltb 0 t.expiration then record q { armed = some t.expiration } else q))
]

rearm-Ticked :
    (ts : List Entry) (q : TimerQueue)
    → Agree (record q { timers = ts })
    → Returns (rearm (record q { timers = ts })) Ticked
rearm-Ticked [] q v = record { agree = v; armed_eq = λ e es h. absurd (cc) }
rearm-Ticked (e ∷ es) q v =
    let (t, h, x, a) = v.live e.0 e.1 (contains-head e es) in
    rw (deref-some e.1 (record q { timers = e ∷ es }) t h) (armed_or (ltb 0 t.expiration) t x refl)
  where
    armed_or :
        (test : Bool) (t : Timer)
        → t.expiration ≡ e.0
        → ltb 0 t.expiration ≡ test
        → Ticked (
            if test
            then record q { timers = e ∷ es; armed = some t.expiration }
            else record q { timers = e ∷ es })
    armed_or true t x h = record {
      agree = record {
        timers_Sorted = v.timers_Sorted;
        active_Sorted = v.active_Sorted;
        size = v.size;
        live = v.live;
        active = v.active;
      };
      armed_eq = λ f fs g n. let first : e ≡ f = cc in ap some (x ∙ ap (λ w. w.0) first);
    }
    armed_or false t x h = record {
      agree = v;
      armed_eq = λ f fs g n.
          let first : e ≡ f = cc in absurd (ground (arith, h, x, n, ap (λ w. w.0) first));
    }

reset-Ticked :
    (es : List Entry) (now : ℕ) (q : TimerQueue)
    → Agree q
    → Distinct es
    → All (Away q) es
    → Returns (reset es now q) Ticked
unfolding reset
reset-Ticked es now q v d a =
    Returns-bind (Reinserted es now q) Ticked (reinsert es now q) rearm
      (reinsert-Reinserted es now q v d a) λ r i. rearm-Ticked r.timers r i.agree

-- The flag and the marks do not matter to the sets.
marked-Agree :
    (calling : Bool) (canceling : List Entry) (q : TimerQueue)
    → Agree q
    → Agree (record q { calling_expired_timers = calling; canceling_timers = canceling })
marked-Agree calling canceling q v = record {
  timers_Sorted = v.timers_Sorted;
  active_Sorted = v.active_Sorted;
  size = v.size;
  live = v.live;
  active = v.active;
}

-- In a queue whose two sets agree, in which no timer that expires at the very time given has an address
-- of 2 ^ 32 - 1 or more, and with callbacks that keep the agreement of the sets and leave the other
-- expired timers alone, `handleRead` returns: no assertion fails and no deleted timer is used. The
-- sets agree afterwards, and the timerfd is set to the first timer that is left.
pub handle_read-Ticked :
    (run : ℕ → TimerQueue → Checked TimerQueue) (now : ℕ) (q : TimerQueue)
    → Gentle run
    → Agree q
    → All (λ e. e.0 ≡ now → e.1 < uintptr_max) q.timers
    → Returns (handle_read run now q) Ticked
unfolding handle_read
handle_read-Ticked run now q g v low =
    Returns-bind (Expired now q) Ticked (get_expired now q) _ (get_expired-Expired now q v low)
      λ r x.
        let all_in = Expired-in r.0 r.1.timers q x.split in
        let away = Expired-Away now q r r.0 v x all_in x.due in
        let apart =
          Expired-Distinct q r.0 v all_in
            (Sorted-left r.0 r.1.timers (rw x.split v.timers_Sorted)) in
        let calling : TimerQueue = record r.1 {
          calling_expired_timers = true;
          canceling_timers = [];
        } in
        Returns-bind (λ u. Agree u × All (Away u) r.0) Ticked (run_all run r.0 calling) _
          (run_all-Away run g r.0 r.0 calling (marked-Agree true [] r.1 x.agree) away away)
          λ u (b, c).
            reset-Ticked r.0 now (record u { calling_expired_timers = false })
              (marked-Agree false u.canceling_timers u b) apart c
