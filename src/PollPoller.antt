-- ===== src/PollPoller.antt =====
-- net/poller/pollpoller.h and pollpoller.cpp: the poller over poll(2). `pollfds_` is an array; a
-- channel's index is its place there, and an entry whose channel waits for nothing has the descriptor
-- -fd - 1. The array has one entry for each descriptor, so that an `int` holds its size.
pub mod Array
pub mod Agree
pub mod Update
pub mod Swap
pub mod Remove
pub mod Kept
pub mod Active
pub mod Polling
mod Tests
use kaycc.Prelude.{
  ℕ, suc, ◌-◌, Bool, true, false, not, ◌&&◌, ◌||◌, Option, none, some, List, [], ◌∷◌, ◌++◌, length,
  get_elem?, set, take, ltb, ◌==◌, if◌then◌else◌, Checked, ok, err, assertion, Fault, undefined,
  ◌>>=◌, ◌>>◌, assert, update, holds, is_none, ℤ, pos, negsuc, eq_ℤ,
}
use kaycc.Channel.{Events, Channel, none_event, is_none_event, Interest, apply_interest, detach}

pub record PollFd : Type 0 where
  pub fd : ℤ
  pub events : Events
  pub revents : Events

pub record PollPoller : Type 0 where
  pub channels : ℕ → Option ℕ
  pub heap : ℕ → Channel
  pub pollfds : List PollFd

-- `PollPoller(loop)`, given the channels that the program has.
unfoldable pub construct : (ℕ → Channel) → PollPoller
construct heap = record { channels = λ fd. none; heap = heap; pollfds = [] }

abbrev same_bit : Bool → Bool → Bool
same_bit true b = b
same_bit false b = not b

-- Equality of two `short`s of poll(2) bits.
abbrev pub same_events : Events → Events → Bool
same_events a b =
    same_bit a.pollin b.pollin
    && (same_bit a.pollpri b.pollpri
        && (same_bit a.pollout b.pollout
            && (same_bit a.pollerr b.pollerr
                && (same_bit a.pollhup b.pollhup
                    && (same_bit a.pollnval b.pollnval && same_bit a.pollrdhup b.pollrdhup)))))

-- The descriptor behind an entry's.
abbrev pub real_fd : ℤ → ℕ
real_fd (pos n) = n
real_fd (negsuc n) = n

-- What is there, or else a fault.
abbrev pub or_fault {ℓ} : {A : Type ℓ} → Fault → Option A → Checked A
or_fault f none = err f
or_fault f (some a) = ok a

-- `pollfds_[i]`
abbrev pub entry_at : List PollFd → ℕ → Checked PollFd
entry_at l i = or_fault undefined (get_elem? l i)

-- `updateChannel`, for a channel with no index.
unfoldable pub add_entry : ℕ → PollPoller → Checked PollPoller
add_entry p s = do
  let c = s.heap p
  assert (is_none (s.channels c.fd))
  ok (record s {
    pollfds = s.pollfds ++ record { fd = pos c.fd; events = c.events; revents = none_event } ∷ [];
    heap = update s.heap p (record c { index = pos (length s.pollfds) });
    channels = update s.channels c.fd (some p);
  })

-- `updateChannel`, for a channel with an index.
unfoldable pub renew_entry : ℕ → ℕ → PollPoller → Checked PollPoller
renew_entry i p s = do
  let c = s.heap p
  assert (not (is_none (s.channels c.fd)))
  assert (holds (s.channels c.fd) p)
  assert (ltb i (length s.pollfds))
  e ← entry_at s.pollfds i
  assert (eq_ℤ e.fd (pos c.fd) || eq_ℤ e.fd (negsuc c.fd))
  ok (record s {
    pollfds = set s.pollfds i (record {
      fd = if is_none_event c.events then negsuc c.fd else pos c.fd;
      events = c.events;
      revents = none_event;
    });
  })

-- `if (channel->index() < 0)`
abbrev pub update_at : ℤ → ℕ → PollPoller → Checked PollPoller
update_at (negsuc n) p s = add_entry p s
update_at (pos i) p s = renew_entry i p s

unfoldable pub update_channel : ℕ → PollPoller → Checked PollPoller
update_channel p s = update_at (s.heap p).index p s

-- `iter_swap` with the last entry and `pop_back`.
abbrev pub swap_out : List PollFd → ℕ → PollFd → PollFd → List PollFd
swap_out l i e last = take (length l - 1) (set (set l i last) (length l - 1) e)

-- The channel of the last entry takes the place `i`.
unfoldable pub move_last : ℕ → PollFd → PollPoller → Checked PollPoller
move_last i e s = do
  last ← entry_at s.pollfds (length s.pollfds - 1)
  q ← or_fault undefined (s.channels (real_fd last.fd))
  ok (record s {
    pollfds = swap_out s.pollfds i e last;
    heap = update s.heap q (record (s.heap q) { index = pos i });
  })

-- `removeChannel`, for a channel with an index.
unfoldable pub remove_entry : ℕ → ℕ → PollPoller → Checked PollPoller
remove_entry i p s = do
  let c = s.heap p
  assert (not (is_none (s.channels c.fd)))
  assert (holds (s.channels c.fd) p)
  assert (is_none_event c.events)
  assert (ltb i (length s.pollfds))
  e ← entry_at s.pollfds i
  assert (eq_ℤ e.fd (negsuc c.fd) && same_events e.events c.events)
  let t : PollPoller = record s { channels = update s.channels c.fd none }
  (if i == length s.pollfds - 1
      then ok (record t { pollfds = take (length s.pollfds - 1) s.pollfds })
      else move_last i e t)

-- Without one, an assertion fails: the third at the latest.
abbrev pub remove_at : ℤ → ℕ → PollPoller → Checked PollPoller
remove_at (negsuc n) p s = err assertion
remove_at (pos i) p s = remove_entry i p s

unfoldable pub remove_channel : ℕ → PollPoller → Checked PollPoller
remove_channel p s = remove_at (s.heap p).index p s

-- `Channel::enableReading` and its kin, down to the poller.
unfoldable pub change_interest : Interest → ℕ → PollPoller → Checked PollPoller
change_interest i p s =
    update_channel p (record s { heap = update s.heap p (apply_interest i (s.heap p)) })

-- `Channel::remove`, down to the poller.
unfoldable pub remove : ℕ → PollPoller → Checked PollPoller
remove p s = do c ← detach (s.heap p); remove_channel p (record s { heap = update s.heap p c })

-- `channels_.find(fd)`, which has no negative descriptor.
abbrev pub find : ℤ → PollPoller → Option ℕ
find (pos fd) s = s.channels fd
find (negsuc n) s = none

-- `fillActiveChannels`: the channels of the entries with `revents > 0`, in order.
pub fill_active_channels : List PollFd → PollPoller → List ℕ → Checked (List ℕ × PollPoller)
fill_active_channels [] s active = ok (active, s)
fill_active_channels (e ∷ rest) s active =
    let skip = fill_active_channels rest s active in
    if is_none_event e.revents then skip else do
      p ← or_fault assertion (find e.fd s)
      assert (eq_ℤ (pos (s.heap p).fd) e.fd)
      let t : PollPoller = record s {
        heap = update s.heap p (record (s.heap p) { revents = e.revents });
      }
      fill_active_channels rest t (active ++ p ∷ [])

-- `poll`: what the kernel makes of the array, or its failure; without an event nothing is filled.
pub count_events : List PollFd → ℕ
count_events [] = 0
count_events (e ∷ rest) =
    if is_none_event e.revents then count_events rest else suc (count_events rest)

unfoldable pub poll : Option (List PollFd) → PollPoller → Checked (List ℕ × PollPoller)
poll none s = ok ([], s)
poll (some after) s =
    let t : PollPoller = record s { pollfds = after } in
    if ltb 0 (count_events after) then fill_active_channels after t [] else ok ([], t)
