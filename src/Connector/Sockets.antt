-- ===== src/Connector/Sockets.antt =====
-- net/connector.cpp: what becomes of the descriptors and of the channel over any run of a connector.
use kaycc.Prelude.{
  ℕ, ◌+◌, ◌≤◌, ◌≡◌, ◌≢◌, refl, true, false, Option, some, List, [], ◌∷◌, ◌++◌, if◌then◌else◌, ok,
  OnOk, is_none, ◌==◌, arith, Bool-cases, inl, inr,
}
use kaycc.Connector.{
  queue, close, Connector, State, disconnected, connecting, connected, Errno, Task, start_task,
  stop_task, reset_task, max_retry_delay_ms, init_retry_delay_ms, construct, retry,
  start_connecting, connect, start_in_loop, classify, proceed, try_later, give_up, Outcome,
}

abbrev pub one : ℕ → ℕ → ℕ
one fd k = if fd == k then 1 else 0

-- How often a descriptor is in the list.
pub count : ℕ → List ℕ → ℕ
count fd [] = 0
count fd (k ∷ ks) = one fd k + count fd ks

unfoldable pub resets : List Task → ℕ
resets [] = 0
resets (start_task ∷ ts) = resets ts
resets (stop_task ∷ ts) = resets ts
resets (reset_task ∷ ts) = 1 + resets ts

-- The descriptor on which the connector waits, counted.
abbrev pub waiting : ℕ → State → Option ℕ → ℕ
waiting fd connecting (some k) = one fd k
waiting fd _ _ = 0

-- A connector waits exactly while it is connecting. Outside that its channel is out of the poller,
-- and is on its way out if it is still there. Each descriptor that was opened has been closed once,
-- or handed on once, or is waited on.
pub record Inv (c : Connector) : Type 0 where
  pub busy :
      c.state ≡ connecting
      → (is_none c.channel ≡ false) × (resets c.tasks ≡ 0) × (c.registered ≡ true)
  pub idle :
      c.state ≢ connecting
      → (resets c.tasks ≡ (if is_none c.channel then 0 else 1)) × (c.registered ≡ false)
  pub accounts :
      (fd : ℕ)
      → count fd c.opened ≡ count fd c.closed + count fd c.handed + waiting fd c.state c.channel
  pub delay : (init_retry_delay_ms ≤ c.retry_delay_ms) × (c.retry_delay_ms ≤ max_retry_delay_ms)

pub count-append : (fd : ℕ) (xs ys : List ℕ) → count fd (xs ++ ys) ≡ count fd xs + count fd ys
unfolding count
count-append fd [] ys = omega arith
count-append fd (x ∷ xs) ys = omega (arith, count-append fd xs ys)

pub count_one : (fd k : ℕ) → count fd (k ∷ []) ≡ one fd k
unfolding count
count_one fd k = omega arith

pub resets-append : (xs ys : List Task) → resets (xs ++ ys) ≡ resets xs + resets ys
unfolding resets
resets-append [] ys = omega arith
resets-append (start_task ∷ xs) ys = resets-append xs ys
resets-append (stop_task ∷ xs) ys = resets-append xs ys
resets-append (reset_task ∷ xs) ys = omega (arith, resets-append xs ys)

pub construct-Inv : Inv construct
unfolding construct count resets
construct-Inv = record {
  busy = λ e. absurd (ground arith);
  idle = λ n. (refl, refl);
  accounts = λ fd. refl;
  delay = omega arith;
}

pub not_waiting : (fd : ℕ) (s : State) (ch : Option ℕ) → s ≢ connecting → waiting fd s ch ≡ 0
not_waiting fd disconnected ch n = refl
not_waiting fd connected ch n = refl
not_waiting fd connecting ch n = absurd (n refl)

-- A connector that waits for nothing, with one more descriptor open than it has accounted for.
pub record Spare (sockfd : ℕ) (c : Connector) : Type 0 where
  pub quiet : c.registered ≡ false
  pub leaving : resets c.tasks ≡ (if is_none c.channel then 0 else 1)
  pub accounts :
      (fd : ℕ) → count fd c.opened ≡ count fd c.closed + count fd c.handed + one fd sockfd
  pub delay : (init_retry_delay_ms ≤ c.retry_delay_ms) × (c.retry_delay_ms ≤ max_retry_delay_ms)

pub retry-Inv : (sockfd : ℕ) (c : Connector) → Spare sockfd c → Inv (retry sockfd c)
unfolding retry
retry-Inv sockfd c v = record {
  busy = λ e. absurd (ground arith);
  idle = λ n. ground (arith, v.quiet, v.leaving);
  accounts = λ fd.
      ground (arith, v.accounts fd, count-append fd c.closed (sockfd ∷ []), count_one fd sockfd);
  delay = ground (arith, v.delay);
}

pub close-Inv :
    (sockfd : ℕ) (c : Connector) → Spare sockfd c → c.state ≢ connecting → Inv (close sockfd c)
close-Inv sockfd c v n = record {
  busy = λ e. absurd (n e);
  idle = λ _. (v.leaving, v.quiet);
  accounts = λ fd. ground (
    arith,
    v.accounts fd,
    count-append fd c.closed (sockfd ∷ []),
    count_one fd sockfd,
    not_waiting fd c.state c.channel n,
  );
  delay = v.delay;
}

open-Spare :
    (sockfd : ℕ) (c : Connector)
    → Inv c
    → c.state ≢ connecting
    → Spare sockfd (record c { opened = c.opened ++ sockfd ∷ [] })
open-Spare sockfd c v n = record {
  quiet = (v.idle n).1;
  leaving = (v.idle n).0;
  accounts = λ fd. ground (
    arith,
    v.accounts fd,
    count-append fd c.opened (sockfd ∷ []),
    count_one fd sockfd,
    not_waiting fd c.state c.channel n,
  );
  delay = v.delay;
}

start_connecting-Inv :
    (sockfd : ℕ) (c : Connector) → Spare sockfd c → OnOk (start_connecting sockfd c) Inv
unfolding start_connecting
start_connecting-Inv sockfd c v = elim (Bool-cases (is_none c.channel)) [
  | inl e ↦ rw e (record {
    busy = λ _. (refl, ground (arith, v.leaving), refl);
    idle = λ n. absurd (n refl);
    accounts = λ fd. v.accounts fd;
    delay = v.delay;
  })
  | inr e ↦ rw e tt
]

connect-Inv :
    (sockfd : ℕ) (errno : Errno) (c : Connector)
    → Inv c
    → c.state ≢ connecting
    → OnOk (connect sockfd errno c) Inv
unfolding connect
connect-Inv sockfd errno c v n =
    let spare = open-Spare sockfd c v n in decided (classify errno) spare
  where
    decided :
        (o : Outcome)
        → Spare sockfd (record c { opened = c.opened ++ sockfd ∷ [] })
        → OnOk
            (elim o [
              | proceed ↦ start_connecting sockfd (record c { opened = c.opened ++ sockfd ∷ [] })
              | try_later ↦ ok (retry sockfd (record c { opened = c.opened ++ sockfd ∷ [] }))
              | give_up ↦ ok (close sockfd (record c { opened = c.opened ++ sockfd ∷ [] }))
            ])
            Inv
    decided proceed spare = start_connecting-Inv sockfd _ spare
    decided try_later spare = retry-Inv sockfd _ spare
    decided give_up spare = close-Inv sockfd _ spare n

pub start_in_loop-Inv :
    (sockfd : ℕ) (errno : Errno) (c : Connector) → Inv c → OnOk (start_in_loop sockfd errno c) Inv
unfolding start_in_loop
start_in_loop-Inv sockfd errno c v = ground (arith, connect-Inv sockfd errno c v)

-- What `removeAndResetChannel` leaves of a connector that waits.
pub remove-Spare :
    (sockfd : ℕ) (c : Connector)
    → Inv c
    → c.state ≡ connecting
    → c.channel ≡ some sockfd
    → Spare sockfd (queue reset_task (record c { registered = false }))
unfolding resets
remove-Spare sockfd c v e f = record {
  quiet = refl;
  leaving = ground (arith, v.busy e, resets-append c.tasks (reset_task ∷ []));
  accounts = λ fd. ground (arith, v.accounts fd);
  delay = v.delay;
}
