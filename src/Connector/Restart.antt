-- ===== src/Connector/Restart.antt =====
-- net/connector.cpp: `stop` and `start` close to each other, before the loop has caught up.
use kaycc.Prelude.{
  ℕ, ◌+◌, ◌≡◌, refl, true, false, none, some, [], ◌∷◌, ◌++◌, ◌>>=◌, err, assertion, arith, Checked,
}
use kaycc.Connector.{
  Connector, disconnected, connecting, Errno, classify, proceed, stop, start, run_first,
  timer_fires, stop_in_loop, start_in_loop, connect, start_connecting, remove_and_reset_channel,
  retry,
}

connect-proceed :
    (sockfd : ℕ) (errno : Errno) (c : Connector)
    → classify errno ≡ proceed
    → connect sockfd errno c
      ≡ start_connecting sockfd (record c { opened = c.opened ++ sockfd ∷ [] })
unfolding connect
connect-proceed sockfd errno c e = rw (e, connect) refl

-- Another thread stops and starts a connector that is connecting, before the loop runs either call.
abbrev pub stop_start : ℕ → Errno → Connector → Checked Connector
stop_start sockfd errno c = do
  c' ← start false sockfd errno (stop c)
  stopped ← run_first sockfd errno c'
  run_first sockfd errno stopped

-- A connector that is connecting is stopped and started again by another thread before its loop runs
-- either call. Then the new attempt finds the channel of the old one, which is reset only after
-- it, and the assertion of `connecting` fails, unless the kernel refuses the attempt at once.
pub stop_start-asserts :
    (sockfd old : ℕ) (errno : Errno) (c : Connector)
    → c.state ≡ connecting
    → c.channel ≡ some old
    → c.tasks ≡ []
    → classify errno ≡ proceed
    → stop_start sockfd errno c ≡ err assertion
unfolding start stop run_first stop_in_loop start_in_loop start_connecting remove_and_reset_channel
    retry
stop_start-asserts sockfd old errno c s ch t e =
    simp (t, s, ch) (rw (connect-proceed sockfd errno _ e) refl)

-- A connector that waits for its retry timer is stopped and started again.
abbrev pub stop_start_timer : ℕ → Errno → ℕ → Errno → Connector → Checked Connector
stop_start_timer sockfd errno next_fd next_errno c = do
  stopped ← run_first sockfd errno (stop c)
  started ← start true sockfd errno stopped
  timer_fires next_fd next_errno started

-- A connector that waits for a retry is stopped, and started again before the timer runs out. `stop`
-- does not cancel the timer, so that it comes while the connector is connecting, and the assertion
-- of `startInLoop` fails, unless the kernel refuses the new attempt at once.
pub stale_timer-asserts :
    (sockfd next_fd n : ℕ) (errno next_errno : Errno) (c : Connector)
    → c.state ≡ disconnected
    → c.channel ≡ none
    → c.tasks ≡ []
    → c.due ≡ n + 1
    → classify errno ≡ proceed
    → stop_start_timer sockfd errno next_fd next_errno c ≡ err assertion
unfolding start stop run_first stop_in_loop start_in_loop start_connecting timer_fires
stale_timer-asserts sockfd next_fd n errno next_errno c s ch t d e =
    simp (t, s, ch, d) (rw (connect-proceed sockfd errno _ e) (ground arith))
