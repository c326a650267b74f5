-- ===== src/TimerQueue/Handover.antt =====
-- net/timerqueue.cpp: the expired timers, between `getExpired` and `reset`.
use kaycc.Prelude.{
  ℕ, ◌≤◌, ◌≡◌, ◌≢◌, refl, sym, ap, ◌∙◌, true, some, List, [], ◌∷◌, ◌++◌, All, All-map, All-left,
  arith, Bool-cases, inl, inr, subst,
}
use kaycc.TimerQueue.{TimerQueue}
use kaycc.TimerQueue.Sets.{Entry, less, contains, Sorted}
use kaycc.TimerQueue.Sets.Ranges.{contains-head, contains_cons, contains_append, later_contains}
use kaycc.TimerQueue.Agree.{Away, Agree}
use kaycc.TimerQueue.Removal.{alike}
use kaycc.TimerQueue.Expiry.{Expired}
use kaycc.TimerQueue.Reset.{Distinct}

All-contained : (xs : List Entry) → All (λ x. contains x xs ≡ true) xs
All-contained [] = tt
All-contained (x ∷ xs) =
    (contains-head x xs, All-map _ _ xs (λ y h. contains_cons y x xs h) (All-contained xs))

-- What is split off the front of `timers_` was in it.
pub Expired-in :
    (es rest : List Entry) (q : TimerQueue)
    → es ++ rest ≡ q.timers
    → All (λ e. contains e q.timers ≡ true) es
Expired-in es rest q h =
    subst (λ ts. All (λ e. contains e ts ≡ true) es) h
      (All-map _ _ es (λ x c. contains_append x es rest c) (All-contained es))

pub Sorted-left : (xs ys : List Entry) → Sorted (xs ++ ys) → Sorted xs
Sorted-left [] ys s = tt
Sorted-left (x ∷ xs) ys s = (All-left _ xs ys s.0, Sorted-left xs ys s.1)

pub Expired-Away :
    (now : ℕ) (q : TimerQueue) (r : List Entry × TimerQueue) (es : List Entry)
    → Agree q
    → Expired now q r
    → All (λ e. contains e q.timers ≡ true) es
    → All (λ e. e.0 ≤ now) es
    → All (Away r.1) es
Expired-Away now q r [] v x c d = tt
Expired-Away now q r (e ∷ es) v x c d =
    let (t, h, y, a) = v.live e.0 e.1 c.0 in
    let h' : r.1.heap e.1 ≡ some t = ap (λ m. m e.1) x.heap_eq ∙ h in
    (
      (
        t,
        h',
        λ when. elim (Bool-cases (contains (when, e.1) r.1.timers)) [
          | inl b ↦
              let (u, g, z, w) = x.agree.live when e.1 b in
              absurd (
                omega (
                  arith,
                  alike r.1 e.1 e.1 t u h' g refl,
                  y,
                  z,
                  later_contains now when e.1 r.1.timers x.later b,
                  d.0,
                ))
          | inr b ↦ b
        ],
      ),
      Expired-Away now q r es v x c.1 d.1,
    )

not_less : (a b c d : ℕ) → less (a, b) (c, d) ≡ true → a ≡ c → b ≡ d → ⊥
unfolding less
not_less a b c d h e f = absurd (ground arith)

distinct_from :
    (q : TimerQueue) (e : Entry) (es : List Entry)
    → Agree q
    → contains e q.timers ≡ true
    → All (λ f. contains f q.timers ≡ true) es
    → All (λ f. less e f ≡ true) es
    → All (λ f. e.1 ≢ f.1) es
distinct_from q e [] v c d s = tt
distinct_from q e (f ∷ fs) v c d s =
    let (t, h, y, a) = v.live e.0 e.1 c in
    let (u, g, z, b) = v.live f.0 f.1 d.0 in
    (
      λ w. not_less e.0 e.1 f.0 f.1 s.0 (sym y ∙ sym (alike q e.1 f.1 t u h g w).0 ∙ z) w,
      distinct_from q e fs v c d.1 s.1,
    )

pub Expired-Distinct :
    (q : TimerQueue) (es : List Entry)
    → Agree q
    → All (λ e. contains e q.timers ≡ true) es
    → Sorted es
    → Distinct es
Expired-Distinct q [] v c s = tt
Expired-Distinct q (e ∷ es) v c s =
    (distinct_from q e es v c.0 c.1 s.0, Expired-Distinct q es v c.1 s.1)
