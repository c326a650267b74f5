-- ===== src/EventLoop/Life.antt =====
-- net/eventloop.cpp, net/timerqueue.cpp: how a loop is made and goes, with the two channels of its own in
-- its poller, and which loop a thread knows as its own. A thread and a loop are numbers.
pub mod Guests
pub mod Whole
mod Tests
use kaycc.Prelude.{
  ℕ, Bool, true, false, not, ◌||◌, holds, Option, none, some, is_none, List, [], ◌∷◌, ◌++◌, update,
  ◌==◌, if◌then◌else◌, Checked, ok, err, aborted, ◌>>=◌, ◌>>◌, assert,
}
use kaycc.Channel
use kaycc.EventLoop.Dispatch.{is_active}
use kaycc.Channel.{Channel, Interest, enable_reading, disable_all}
use kaycc.Poller.Backend.{Backend, has_channel}

-- `eventfd` and `timerfd_create` give a descriptor or fail.
unfoldable pub create_eventfd : Option ℕ → Checked ℕ
create_eventfd none = err aborted
create_eventfd (some fd) = ok fd

module _ (B : Backend) where
  pub record Loop : Type 0 where
    pub poller : B.State
    pub thread_id : ℕ
    -- `t_loopInThisThread` of each thread, and the descriptors that were closed.
    pub loop_in_this_thread : ℕ → Option ℕ
    pub closed : List ℕ
    pub event_handling : Bool
    pub active_channels : List ℕ
    pub current_active_channel : Option ℕ

  unfoldable pub get_event_loop_of_current_thread : ℕ → Loop → Option ℕ
  get_event_loop_of_current_thread thread l = l.loop_in_this_thread thread

  unfoldable pub is_in_loop_thread : ℕ → Loop → Bool
  is_in_loop_thread thread l = l.thread_id == thread

  -- And `abortNotInLoopThread`.
  unfoldable pub assert_in_loop_thread : ℕ → Loop → Checked (Unit {0})
  unfolding is_in_loop_thread
  assert_in_loop_thread thread l = if is_in_loop_thread thread l then ok tt else err aborted

  -- `updateChannel`, `removeChannel` and `hasChannel`.
  unfoldable pub update_channel : ℕ → Interest → ℕ → Loop → Checked Loop
  update_channel thread i p l = do
    assert_in_loop_thread thread l
    t ← B.change_interest i p l.poller
    ok (record l { poller = t })

  -- What `removeChannel` asserts while events are handled.
  abbrev pub may_remove : ℕ → Loop → Bool
  may_remove p l =
      if l.event_handling
      then holds l.current_active_channel p || not (is_active p l.active_channels)
      else true

  unfoldable pub remove_channel : ℕ → ℕ → Loop → Checked Loop
  remove_channel thread p l = do
    assert_in_loop_thread thread l
    assert (may_remove p l)
    t ← B.remove p l.poller
    ok (record l { poller = t })

  -- The destructor of a channel.
  unfoldable pub destruct_channel : ℕ → ℕ → Loop → Checked (Unit {0})
  unfolding is_in_loop_thread
  destruct_channel thread p l =
      Channel.destruct (if is_in_loop_thread thread l then has_channel B p l.poller else false)
        (B.heap l.poller p)

  -- The channel and the descriptor of a `TimerQueue`.
  unfoldable pub construct_timers : ℕ → ℕ → Loop → Checked Loop
  construct_timers thread timer l = update_channel thread enable_reading timer l

  unfoldable pub destruct_timers : ℕ → ℕ → Loop → Checked Loop
  destruct_timers thread timer l = do
    a ← update_channel thread disable_all timer l
    b ← remove_channel thread timer a
    let c : Loop = record b { closed = b.closed ++ (B.heap b.poller timer).fd ∷ [] }
    destruct_channel thread timer c
    ok c

  -- The constructor of the loop `id` in `thread`, over a poller.
  unfoldable pub construct : ℕ → ℕ → ℕ → ℕ → B.State → (ℕ → Option ℕ) → Checked Loop
  construct thread id timer wakeup poller known = do
    a ← construct_timers thread timer (record {
      poller = poller;
      thread_id = thread;
      loop_in_this_thread = known;
      closed = [];
      event_handling = false;
      active_channels = [];
      current_active_channel = none;
    })
    let b : Loop = record a {
      loop_in_this_thread =
          if is_none (a.loop_in_this_thread thread)
          then update a.loop_in_this_thread thread (some id)
          else a.loop_in_this_thread;
    }
    update_channel thread enable_reading wakeup b

  -- The destructor in `thread`, and those of the wakeup channel and the timers.
  unfoldable pub destruct : ℕ → ℕ → ℕ → Loop → Checked Loop
  destruct thread timer wakeup l = do
    a ← update_channel thread disable_all wakeup l
    b ← remove_channel thread wakeup a
    let c : Loop = record b {
      closed = b.closed ++ (B.heap b.poller wakeup).fd ∷ [];
      loop_in_this_thread = update b.loop_in_this_thread thread none;
    }
    destruct_channel thread wakeup c
    destruct_timers thread timer c
