-- ===== src/EventLoop/Dispatch.antt =====
-- net/eventloop.cpp: the channels of a loop, between the return of `poll` and the pending functors. The
-- poller is either of the two. `script p c` are the operations on channels of the callback `c` of the
-- channel at `p`; `alive p` says whether the object that this channel is tied to is still there. All
-- channels belong to the loop, and the functions run in its thread.
pub mod Removal
pub mod Own
mod Tests
use kaycc.Prelude.{
  ℕ, Bool, true, false, not, ◌||◌, Option, none, some, List, [], ◌∷◌, ◌++◌, if◌then◌else◌, ◌==◌,
  Checked, ok, ◌>>=◌, ◌>>◌, assert, holds,
}
use kaycc.Channel.{Callback, Interest, handle_event}
use kaycc.Poller.{Op, changes, removes}
use kaycc.Poller.Backend.{Backend, has_channel}

-- `std::find(activeChannels_.begin(), activeChannels_.end(), channel)` does find it.
pub is_active : ℕ → List ℕ → Bool
is_active p [] = false
is_active p (q ∷ l) = p == q || is_active p l

module _ (B : Backend) where
  pub record Dispatch : Type 0 where
    pub poller : B.State
    pub event_handling : Bool
    pub active_channels : List ℕ
    pub current_active_channel : Option ℕ
    -- The channels whose events were handled, each with whether the poller then had it.
    pub handled : List (ℕ × Bool)

  unfoldable pub update_channel : Interest → ℕ → Dispatch → Checked Dispatch
  update_channel i p s = do t ← B.change_interest i p s.poller; ok (record s { poller = t })

  -- What `removeChannel` asserts while events are handled.
  unfoldable pub may_remove : ℕ → Dispatch → Bool
  may_remove p s =
      if s.event_handling
      then holds s.current_active_channel p || not (is_active p s.active_channels)
      else true

  -- The assertions of `Channel::remove` and of the poller come before and after; all stop the program.
  unfoldable pub remove_channel : ℕ → Dispatch → Checked Dispatch
  remove_channel p s = do
    assert (may_remove p s)
    t ← B.remove p s.poller
    ok (record s { poller = t })

  unfoldable pub perform : Op → Dispatch → Checked Dispatch
  unfolding update_channel remove_channel
  perform (changes i p) s = update_channel i p s
  perform (removes p) s = remove_channel p s

  pub perform_all : List Op → Dispatch → Checked Dispatch
  perform_all [] s = ok s
  perform_all (o ∷ os) s = do t ← perform o s; perform_all os t

  module _ (script : ℕ → Callback → List Op) (alive : ℕ → Bool) where
    -- The operations of these callbacks of the channel at `p`.
    pub script_of : ℕ → List Callback → List Op
    script_of p [] = []
    script_of p (c ∷ cs) = script p c ++ script_of p cs

    -- One turn of the `for` loop.
    unfoldable pub handle_channel : ℕ → Dispatch → Checked Dispatch
    handle_channel p s =
        let callbacks = handle_event (B.heap s.poller p) (alive p) in
        perform_all (script_of p callbacks) (record s {
          current_active_channel = some p;
          handled = s.handled ++ (p, has_channel B p s.poller) ∷ [];
        })

    pub handle_channels : List ℕ → Dispatch → Checked Dispatch
    handle_channels [] s = ok s
    handle_channels (p ∷ ps) s = do t ← handle_channel p s; handle_channels ps t

    -- The part of `loop()` for the channels that `poll` has returned.
    unfoldable pub handle_events : List ℕ → Dispatch → Checked Dispatch
    handle_events active s = do
      t ← handle_channels active (record s { active_channels = active; event_handling = true })
      ok (record t { current_active_channel = none; event_handling = false })
