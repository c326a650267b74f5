-- ===== src/Epoll.antt =====
-- net/poller/epollpoller.h and epollpoller.cpp: the poller over epoll(7). `channels_` is a map from
-- descriptors to channel addresses, and the channels live in a heap. The kernel's interest list is
-- a parameter with the documented behaviour of `epoll_ctl`.
pub mod Mirror
pub mod Update
pub mod Remove
pub mod Active
pub mod Linux
pub mod Kept
mod Tests
use kaycc.Prelude.{
  ℕ, ◌+◌, ◌*◌, ◌≡◌, Bool, true, false, ◌||◌, Option, none, some, List, [], ◌∷◌, ◌++◌, length, ◌==◌,
  leb, if◌then◌else◌, Checked, ok, ◌>>=◌, ◌>>◌, assert, update, holds, is_none, ℤ, pos, negsuc,
  eq_ℤ,
}
use kaycc.Channel.{Events, Channel, is_none_event, Interest, apply_interest, detach}

pub data Op : Type 0 where
  ctl_add ctl_mod ctl_del : Op

pub record Kernel : Type 1 where
  pub State : Type 0
  -- What is watched at a descriptor: the events, and the pointer that is handed back.
  pub interest : State → ℕ → Option (Events × ℕ)
  pub ctl : Op → ℕ → Events → ℕ → State → State
  -- Whether the call returns -1.
  pub fails : Op → ℕ → State → Bool
  pub add_new :
      (s : State) (fd : ℕ) (e : Events) (p : ℕ)
      → interest s fd ≡ none
      → (fails ctl_add fd s ≡ false)
        × (interest (ctl ctl_add fd e p s) ≡ update (interest s) fd (some (e, p)))
  pub mod_old :
      (s : State) (fd : ℕ) (e : Events) (p : ℕ) (w : Events × ℕ)
      → interest s fd ≡ some w
      → (fails ctl_mod fd s ≡ false)
        × (interest (ctl ctl_mod fd e p s) ≡ update (interest s) fd (some (e, p)))
  pub del_old :
      (s : State) (fd : ℕ) (e : Events) (p : ℕ) (w : Events × ℕ)
      → interest s fd ≡ some w
      → (fails ctl_del fd s ≡ false)
        × (interest (ctl ctl_del fd e p s) ≡ update (interest s) fd none)

abbrev pub new_index : ℤ
new_index = negsuc 0

abbrev pub added_index : ℤ
added_index = pos 1

abbrev pub deleted_index : ℤ
deleted_index = pos 2

abbrev pub init_event_list_size : ℕ
init_event_list_size = 16

module _ (K : Kernel) where
  pub record EpollPoller : Type 0 where
    pub channels : ℕ → Option ℕ
    pub heap : ℕ → Channel
    pub kernel : K.State
    -- `events_.size()`
    pub capacity : ℕ
    -- Calls of `epoll_ctl` that failed; the code prints a line for each.
    pub failures : ℕ

  -- `update(operation, channel)`
  unfoldable pub update_kernel : Op → ℕ → EpollPoller → EpollPoller
  update_kernel op p s =
      let c = s.heap p in
      record s {
        kernel = K.ctl op c.fd c.events p s.kernel;
        failures = if K.fails op c.fd s.kernel then s.failures + 1 else s.failures;
      }

  abbrev set_index : ℕ → ℤ → EpollPoller → EpollPoller
  set_index p i s = record s { heap = update s.heap p (record (s.heap p) { index = i }) }

  register : ℕ → EpollPoller → Checked EpollPoller
  register p s =
      let fd = (s.heap p).fd in
      if eq_ℤ (s.heap p).index new_index
      then (do
        assert (is_none (s.channels fd))
        ok (record s { channels = update s.channels fd (some p) }))
      else do assert (holds (s.channels fd) p); ok s

  unfoldable pub update_channel : ℕ → EpollPoller → Checked EpollPoller
  unfolding register update_kernel
  update_channel p s =
      let c = s.heap p in
      if eq_ℤ c.index new_index || eq_ℤ c.index deleted_index
      then (do t ← register p s; ok (update_kernel ctl_add p (set_index p added_index t)))
      else do
        assert (holds (s.channels c.fd) p)
        assert (eq_ℤ c.index added_index)
        ok (
            if is_none_event c.events
            then set_index p deleted_index (update_kernel ctl_del p s)
            else update_kernel ctl_mod p s)

  unfoldable pub remove_channel : ℕ → EpollPoller → Checked EpollPoller
  unfolding update_kernel
  remove_channel p s = do
    let c = s.heap p
    assert (holds (s.channels c.fd) p)
    assert (is_none_event c.events)
    assert (eq_ℤ c.index added_index || eq_ℤ c.index deleted_index)
    let t : EpollPoller = record s { channels = update s.channels c.fd none }
    let u : EpollPoller = if eq_ℤ c.index added_index then update_kernel ctl_del p t else t
    ok (set_index p new_index u)

  unfoldable pub has_channel : ℕ → EpollPoller → Bool
  has_channel p s = holds (s.channels (s.heap p).fd) p

  -- `Channel::enableReading` and its kin, down to the poller.
  unfoldable pub change_interest : Interest → ℕ → EpollPoller → Checked EpollPoller
  change_interest i p s =
      update_channel p (record s { heap = update s.heap p (apply_interest i (s.heap p)) })

  -- `Channel::remove`, down to the poller.
  unfoldable pub remove : ℕ → EpollPoller → Checked EpollPoller
  remove p s = do c ← detach (s.heap p); remove_channel p (record s { heap = update s.heap p c })

  -- `fillActiveChannels`: each event that the kernel returned, with its pointer.
  pub fill_active_channels :
      List (Events × ℕ) → EpollPoller → List ℕ → Checked (List ℕ × EpollPoller)
  fill_active_channels [] s active = ok (active, s)
  fill_active_channels ((revents, p) ∷ events) s active = do
    assert (holds (s.channels (s.heap p).fd) p)
    let t : EpollPoller = record s {
      heap = update s.heap p (record (s.heap p) { revents = revents });
    }
    fill_active_channels events t (active ++ p ∷ [])

  -- `poll`: `epoll_wait` fails, or returns at most `events_.size()` events. A full list is doubled.
  pub poll : Option (List (Events × ℕ)) → EpollPoller → Checked (List ℕ × EpollPoller)
  poll none s = ok ([], s)
  poll (some events) s = do
    assert (leb (length events) s.capacity)
    (active, t) ← fill_active_channels events s []
    ok (active, if length events == s.capacity then record t { capacity = s.capacity * 2 } else t)
