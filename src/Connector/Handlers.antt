-- ===== src/Connector/Handlers.antt =====
-- net/connector.cpp: each operation keeps the account of the descriptors.
use kaycc.Prelude.{
  ℕ, ◌-◌, ◌≡◌, ◌≢◌, refl, Bool, true, false, none, some, List, [], ◌∷◌, if◌then◌else◌, ok, err,
  undefined, ◌>>=◌, OnOk, OnOk-any, ◌==◌, arith, Bool-cases, Option-cases, inl, inr, assert,
}
use kaycc.Connector.{
  Connector, State, disconnected, connecting, connected, Errno, Task, start_task, stop_task,
  reset_task, same_state, retry, start, queue, settle, remove_and_reset_channel, reset_channel,
  stop_in_loop, restart, handle_write, handle_error, run_first, timer_fires,
}
use kaycc.Connector.Sockets.{
  Inv, Spare, resets, resets-append, not_waiting, count-append, count_one, retry-Inv, close-Inv,
  start_in_loop-Inv, remove-Spare,
}

pub queue-Inv : (t : Task) (c : Connector) → t ≢ reset_task → Inv c → Inv (queue t c)
unfolding resets
queue-Inv reset_task c n v = absurd (n refl)
queue-Inv start_task c n v = record {
  busy = λ e. ground (arith, v.busy e, resets-append c.tasks (start_task ∷ []));
  idle = λ e. ground (arith, v.idle e, resets-append c.tasks (start_task ∷ []));
  accounts = v.accounts;
  delay = v.delay;
}
queue-Inv stop_task c n v = record {
  busy = λ e. ground (arith, v.busy e, resets-append c.tasks (stop_task ∷ []));
  idle = λ e. ground (arith, v.idle e, resets-append c.tasks (stop_task ∷ []));
  accounts = v.accounts;
  delay = v.delay;
}

pub want-Inv : (w : Bool) (c : Connector) → Inv c → Inv (record c { wanted = w })
want-Inv w c v = record { busy = v.busy; idle = v.idle; accounts = v.accounts; delay = v.delay }

pub start-Inv :
    (in_loop : Bool) (sockfd : ℕ) (errno : Errno) (c : Connector)
    → Inv c
    → OnOk (start in_loop sockfd errno c) Inv
unfolding start
start-Inv true sockfd errno c v = start_in_loop-Inv sockfd errno _ (want-Inv true c v)
start-Inv false sockfd errno c v = queue-Inv start_task _ (λ e. ground arith) (want-Inv true c v)

pub restart-Inv :
    (sockfd : ℕ) (errno : Errno) (c : Connector)
    → c.state ≢ connecting
    → Inv c
    → OnOk (restart sockfd errno c) Inv
unfolding restart
restart-Inv sockfd errno c n v = start_in_loop-Inv sockfd errno _ (record {
  busy = λ e. absurd (ground arith);
  idle = λ _. v.idle n;
  accounts = λ fd. ground (arith, v.accounts fd, not_waiting fd c.state c.channel n);
  delay = omega arith;
})

pub timer_fires-Inv :
    (sockfd : ℕ) (errno : Errno) (c : Connector) → Inv c → OnOk (timer_fires sockfd errno c) Inv
unfolding timer_fires
timer_fires-Inv sockfd errno c v = elim (Bool-cases (c.due == 0)) [
  | inl e ↦ rw e v
  | inr e ↦ rw e (
      start_in_loop-Inv sockfd errno (record c { due = c.due - 1 })
        (record { busy = v.busy; idle = v.idle; accounts = v.accounts; delay = v.delay }))
]

same_connecting : (s : State) → same_state s connecting ≡ true → s ≡ connecting
same_connecting connecting e = refl
same_connecting disconnected e = absurd (ground arith)
same_connecting connected e = absurd (ground arith)

remove-some :
    (sockfd : ℕ) (c : Connector)
    → c.channel ≡ some sockfd
    → remove_and_reset_channel c ≡ ok (sockfd, queue reset_task (record c { registered = false }))
unfolding remove_and_reset_channel
remove-some sockfd c e = rw e refl

remove-none : (c : Connector) → c.channel ≡ none → remove_and_reset_channel c ≡ err undefined
unfolding remove_and_reset_channel
remove-none c e = rw e refl

-- The common shape of the handlers that give up the channel.
remove_then :
    (c : Connector) (after : ℕ → Connector → Connector)
    → ((sockfd : ℕ)
        → c.channel ≡ some sockfd
        → Inv (after sockfd (queue reset_task (record c { registered = false }))))
    → OnOk (remove_and_reset_channel c >>= λ r. ok (after r.0 r.1)) Inv
remove_then c after h = elim (Option-cases c.channel) [
  | inl e ↦ rw (remove-none c e) tt
  | inr (sockfd, e) ↦ rw (remove-some sockfd c e) (h sockfd e)
]

pub handle_error-Inv : (c : Connector) → Inv c → OnOk (handle_error c) Inv
unfolding handle_error
handle_error-Inv c v = elim (Bool-cases (same_state c.state connecting)) [
  | inl e ↦
      rw e (
        remove_then c retry λ k f. retry-Inv k _ (remove-Spare k c v (same_connecting c.state e) f))
  | inr e ↦ rw e v
]

either : (test : Bool) (s t : Connector) → Inv s → Inv t → Inv (if test then s else t)
either true s t v w = v
either false s t v w = w

settle-Inv :
    (so_error self_connect : Bool) (sockfd : ℕ) (c : Connector)
    → Spare sockfd c
    → Inv (settle so_error self_connect sockfd c)
unfolding settle
settle-Inv true self_connect sockfd c v = retry-Inv sockfd c v
settle-Inv false true sockfd c v = retry-Inv sockfd c v
settle-Inv false false sockfd c v =
    either c.wanted _ _
      (record {
        busy = λ f. absurd (ground arith);
        idle = λ _. (v.leaving, v.quiet);
        accounts = λ fd.
            ground
              (arith, v.accounts fd, count-append fd c.handed (sockfd ∷ []), count_one fd sockfd);
        delay = v.delay;
      })
      (close-Inv sockfd (record c { state = connected })
        (record { quiet = v.quiet; leaving = v.leaving; accounts = v.accounts; delay = v.delay })
        λ f. ground arith)

pub handle_write-Inv :
    (so_error self_connect : Bool) (c : Connector)
    → Inv c
    → OnOk (handle_write so_error self_connect c) Inv
unfolding handle_write
handle_write-Inv so_error self_connect c v = elim (Bool-cases (same_state c.state connecting)) [
  | inl e ↦ rw e (
      remove_then c (settle so_error self_connect) λ k f.
        settle-Inv so_error self_connect k _ (remove-Spare k c v (same_connecting c.state e) f))
  | inr e ↦ rw e (OnOk-any Inv (assert (same_state c.state disconnected)) (λ _. ok c) λ _. v)
]

stop_in_loop-Inv : (c : Connector) → Inv c → OnOk (stop_in_loop c) Inv
unfolding stop_in_loop
stop_in_loop-Inv c v = elim (Bool-cases (same_state c.state connecting)) [
  | inl e ↦ rw e (
      remove_then (record c { state = disconnected }) retry
        λ k f.
          let w = remove-Spare k c v (same_connecting c.state e) f in
          retry-Inv k _
            (record { quiet = refl; leaving = w.leaving; accounts = w.accounts; delay = w.delay }))
  | inr e ↦ rw e v
]

reset-Inv :
    (c : Connector) → Inv (record c { tasks = reset_task ∷ c.tasks }) → Inv (reset_channel c)
unfolding reset_channel resets
reset-Inv c v =
    let n : c.state ≢ connecting = λ e. absurd (omega (arith, (v.busy e).1)) in
    record {
      busy = λ e. absurd (n e);
      idle = λ _. (ground (arith, v.idle n), (v.idle n).1);
      accounts = λ fd.
          ground (
            arith,
            v.accounts fd,
            not_waiting fd c.state c.channel n,
            not_waiting fd c.state none n,
          );
      delay = v.delay;
    }

pub run-Inv :
    (sockfd : ℕ) (errno : Errno) (ts : List Task) (c : Connector)
    → Inv (record c { tasks = ts })
    → OnOk (run_first sockfd errno (record c { tasks = ts })) Inv
unfolding run_first resets
run-Inv sockfd errno [] c v = v
run-Inv sockfd errno (start_task ∷ ts) c v =
    start_in_loop-Inv sockfd errno (record c { tasks = ts })
      (record { busy = v.busy; idle = v.idle; accounts = v.accounts; delay = v.delay })
run-Inv sockfd errno (stop_task ∷ ts) c v =
    stop_in_loop-Inv (record c { tasks = ts })
      (record { busy = v.busy; idle = v.idle; accounts = v.accounts; delay = v.delay })
run-Inv sockfd errno (reset_task ∷ ts) c v = reset-Inv (record c { tasks = ts }) v
