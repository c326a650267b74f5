-- ===== src/TimerQueue/Expiry.antt =====
-- net/timerqueue.cpp: `getExpired`.
use kaycc.Prelude.{
  ℕ, ◌≤◌, ◌<◌, ◌≡◌, refl, sym, ap, ◌∙◌, true, false, List, [], ◌∷◌, ◌++◌, ltb, err, assertion,
  Returns, Returns-bind, Returns-map, All, All-map, arith, subst,
}
use kaycc.TimerQueue.{TimerQueue, same_size, uintptr_max, is_later, deactivate, get_expired}
use kaycc.TimerQueue.Sets.{Entry, less, contains, erase, before, from}
use kaycc.TimerQueue.Sets.Ranges.{
  before-from, before-All, from-All, contains-head, erase-head, from-head, All-from,
}
use kaycc.TimerQueue.Agree.{Agree, deref-some}
use kaycc.TimerQueue.Removal.{removed, removed-Agree}

-- Nothing but `activeTimers_` has changed, and the sets agree.
record Deactivated (q r : TimerQueue) : Type 0 where
  agree : Agree r
  timers_eq : r.timers ≡ q.timers
  heap_eq : r.heap ≡ q.heap

deactivate-Deactivated :
    (es : List Entry) (q : TimerQueue)
    → Agree (record q { timers = es ++ q.timers })
    → Returns (deactivate es q) (Deactivated q)
unfolding deactivate
deactivate-Deactivated [] q v = record { agree = v; timers_eq = refl; heap_eq = refl }
deactivate-Deactivated (e ∷ es) q v =
    let (t, h, x, a) = v.live e.0 e.1 (contains-head e (es ++ q.timers)) in
    let here : (t.expiration, e.1) ≡ e = ap (λ w. (w, e.1)) x in
    let w : Agree (removed e.1 t (record q { timers = (e ∷ es) ++ q.timers })) =
      removed-Agree e.1 t (record q { timers = (e ∷ es) ++ q.timers }) v h
        (subst (λ d. contains d ((e ∷ es) ++ q.timers) ≡ true) (sym here)
          (contains-head e (es ++ q.timers)))
        a in
    let gone : erase (t.expiration, e.1) ((e ∷ es) ++ q.timers) ≡ es ++ q.timers =
      ap (λ d. erase d ((e ∷ es) ++ q.timers)) here ∙ erase-head e (es ++ q.timers) in
    rw (deref-some e.1 q t h, a)
      (Returns-map
        (Deactivated (record q { active_timers = erase (e.1, t.sequence) q.active_timers }))
        (Deactivated q) _
        (deactivate-Deactivated es
          (record q { active_timers = erase (e.1, t.sequence) q.active_timers })
          (subst
            (λ ts.
              Agree
                (record q { timers = ts; active_timers = erase (e.1, t.sequence) q.active_timers }))
            gone w))
        λ r d. record { agree = d.agree; timers_eq = d.timers_eq; heap_eq = d.heap_eq })

-- What `getExpired` returns: the entries up to now, the first ones of `timers_`, while the later ones
-- stay; no timer is deleted.
pub record Expired (now : ℕ) (q : TimerQueue) (r : List Entry × TimerQueue) : Type 0 where
  pub agree : Agree r.1
  pub split : r.0 ++ r.1.timers ≡ q.timers
  pub due : All (λ e. e.0 ≤ now) r.0
  pub later : All (λ e. now < e.0) r.1.timers
  pub heap_eq : r.1.heap ≡ q.heap

due_entry : (now : ℕ) (e : Entry) → less e (now, uintptr_max) ≡ true → e.0 ≤ now
unfolding less
due_entry now e h = ground arith

later_entry :
    (now : ℕ) (e : Entry)
    → less e (now, uintptr_max) ≡ false
    → (e.0 ≡ now → e.1 < uintptr_max)
    → now < e.0
unfolding less
later_entry now e h k = ground arith

is_later-All : (now : ℕ) (es : List Entry) → All (λ e. now < e.0) es → is_later now es ≡ true
is_later-All now [] h = refl
is_later-All now (e ∷ es) h = ground (arith, h.0)

All-both :
    (P Q R : Entry → Type 0) (es : List Entry)
    → ((e : Entry) → P e → Q e → R e)
    → All P es
    → All Q es
    → All R es
All-both P Q R [] f h k = tt
All-both P Q R (e ∷ es) f h k = (f e h.0 k.0, All-both P Q R es f h.1 k.1)

-- In a queue whose two sets agree, and in which no timer that expires at the very time given has an
-- address of 2 ^ 32 - 1 or more, `getExpired` returns: no assertion fails and the sets agree again. It
-- returns the timers that expire up to that time, in order, and leaves exactly those that expire
-- later; no timer is deleted.
pub get_expired-Expired :
    (now : ℕ) (q : TimerQueue)
    → Agree q
    → All (λ e. e.0 ≡ now → e.1 < uintptr_max) q.timers
    → Returns (get_expired now q) (Expired now q)
unfolding get_expired
get_expired-Expired now q v low =
    let sentry : Entry = (now, uintptr_max) in
    let later : All (λ e. now < e.0) (from sentry q.timers) =
      All-both (λ e. less e sentry ≡ false) (λ e. e.0 ≡ now → e.1 < uintptr_max) (λ e. now < e.0)
        (from sentry q.timers) (later_entry now) (from-All sentry q.timers v.timers_Sorted)
        (All-from (λ e. e.0 ≡ now → e.1 < uintptr_max) sentry q.timers low) in
    let before_eq : same_size q ≡ true = ground (arith, v.size) in
    let q' : TimerQueue = record q { timers = from sentry q.timers } in
    let whole : Agree (record q' { timers = before sentry q.timers ++ q'.timers }) =
      subst (λ ts. Agree (record q { timers = ts })) (sym (before-from sentry q.timers)) v in
    rw (before_eq, is_later-All now (from sentry q.timers) later)
      (Returns-bind (Deactivated q') (Expired now q) (deactivate (before sentry q.timers) q') _
        (deactivate-Deactivated (before sentry q.timers) q' whole)
        λ r d.
          let after_eq : same_size r ≡ true = ground (arith, d.agree.size) in
          rw after_eq (record {
            agree = d.agree;
            split =
                ap (λ ts. before sentry q.timers ++ ts) d.timers_eq ∙ before-from sentry q.timers;
            due = All-map _ _ (before sentry q.timers) (due_entry now) (before-All sentry q.timers);
            later = rw d.timers_eq later;
            heap_eq = d.heap_eq;
          }))

above_sentry : (now p : ℕ) → uintptr_max ≤ p → less (now, p) (now, uintptr_max) ≡ false
unfolding less
above_sentry now p h = ground arith

at_now :
    (now p : ℕ) (f : Entry)
    → uintptr_max ≤ p
    → less (now, p) f ≡ false
    → less f (now, uintptr_max) ≡ false
    → ltb now f.0 ≡ false
unfolding less
at_now now p f h n m = ground arith

-- In a queue whose two sets agree, if a timer expires at the very time that `getExpired` is given, and
-- its address is 2 ^ 32 - 1 or more, the assertion of `getExpired` fails.
pub get_expired-asserts :
    (now p : ℕ) (q : TimerQueue)
    → Agree q
    → contains (now, p) q.timers ≡ true
    → uintptr_max ≤ p
    → get_expired now q ≡ err assertion
unfolding get_expired
get_expired-asserts now p q v c high =
    let sentry : Entry = (now, uintptr_max) in
    let before_eq : same_size q ≡ true = ground (arith, v.size) in
    let (f, fs, e, n, m) =
      from-head sentry (now, p) q.timers v.timers_Sorted c (above_sentry now p high) in
    rw (before_eq, e, at_now now p f high n m) refl
