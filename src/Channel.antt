-- ===== src/Channel.antt =====
-- net/channel.h and net/channel.cpp: what one file descriptor waits for, and which callbacks an event
-- runs. An `int` of poll(2) bits is the record of the bits that the code names.
pub mod Interests
pub mod Text
mod Tests
use kaycc.Prelude.{
  ℕ, Bool, true, false, not, ◌&&◌, ◌||◌, List, [], ◌∷◌, ◌++◌, if◌then◌else◌, Checked, ok, ◌>>◌,
  assert, ℤ, negsuc,
}

pub record Events : Type 0 where
  pub pollin : Bool
  pub pollpri : Bool
  pub pollout : Bool
  pub pollerr : Bool
  pub pollhup : Bool
  pub pollnval : Bool
  pub pollrdhup : Bool

abbrev pub none_event : Events
none_event = record {
  pollin = false;
  pollpri = false;
  pollout = false;
  pollerr = false;
  pollhup = false;
  pollnval = false;
  pollrdhup = false;
}

pub record Channel : Type 0 where
  pub fd : ℕ
  pub events : Events
  pub revents : Events
  -- Used by the poller, -1 at first.
  pub index : ℤ
  pub tied : Bool
  pub event_handling : Bool
  pub added_to_loop : Bool
  -- Whether each callback has been set.
  pub read_callback : Bool
  pub write_callback : Bool
  pub close_callback : Bool
  pub error_callback : Bool

unfoldable pub construct : ℕ → Channel
construct fd = record {
  fd = fd;
  events = none_event;
  revents = none_event;
  index = negsuc 0;
  tied = false;
  event_handling = false;
  added_to_loop = false;
  read_callback = false;
  write_callback = false;
  close_callback = false;
  error_callback = false;
}

-- `events_ |= kReadEvent` and its kin.
abbrev pub with_reading : Events → Events
with_reading e = record e { pollin = true; pollpri = true }

abbrev pub without_reading : Events → Events
without_reading e = record e { pollin = false; pollpri = false }

abbrev pub with_writing : Events → Events
with_writing e = record e { pollout = true }

abbrev pub without_writing : Events → Events
without_writing e = record e { pollout = false }

abbrev pub is_none_event : Events → Bool
is_none_event e =
    not (e.pollin || e.pollpri || e.pollout || e.pollerr || e.pollhup || e.pollnval || e.pollrdhup)

unfoldable pub is_writing : Channel → Bool
is_writing c = c.events.pollout

unfoldable pub is_reading : Channel → Bool
is_reading c = c.events.pollin || c.events.pollpri

-- The operations of a user on its channel; each then calls `update()`, which hands the channel to
-- the poller.
pub data Interest : Type 0 where
  enable_reading disable_reading enable_writing disable_writing disable_all : Interest

unfoldable pub apply_interest : Interest → Channel → Channel
apply_interest enable_reading c = record c { events = with_reading c.events; added_to_loop = true }
apply_interest disable_reading c = record c {
  events = without_reading c.events;
  added_to_loop = true;
}
apply_interest enable_writing c = record c { events = with_writing c.events; added_to_loop = true }
apply_interest disable_writing c = record c {
  events = without_writing c.events;
  added_to_loop = true;
}
apply_interest disable_all c = record c { events = none_event; added_to_loop = true }

-- The channel's own part of `remove()`.
unfoldable pub detach : Channel → Checked Channel
detach c = do assert (is_none_event c.events); ok (record c { added_to_loop = false })

unfoldable pub tie : Channel → Channel
tie c = record c { tied = true }

pub data Callback : Type 0 where
  close error read write : Callback

-- `if (test) { if (callback_) callback_(); }`
abbrev pub fire : Bool → Bool → Callback → List Callback
fire test registered callback = if test && registered then callback ∷ [] else []

-- The callbacks that run, in order. `revents_` is set by the poller only, so a callback does not
-- change the tests that follow it.
unfoldable pub handle_event_with_guard : Channel → List Callback
handle_event_with_guard c =
    let r = c.revents in
    fire (r.pollhup && not r.pollin) c.close_callback close
    ++ (fire (r.pollerr || r.pollnval) c.error_callback error
        ++ (fire (r.pollin || r.pollpri || r.pollrdhup) c.read_callback read
            ++ fire r.pollout c.write_callback write))

-- `owner` says whether the tied object is still alive.
unfoldable pub handle_event : Channel → Bool → List Callback
unfolding handle_event_with_guard
handle_event c owner =
    if c.tied then (if owner then handle_event_with_guard c else []) else handle_event_with_guard c

-- `setReadCallback` and its kin.
pub set_callback : Callback → Channel → Channel
set_callback close c = record c { close_callback = true }
set_callback error c = record c { error_callback = true }
set_callback read c = record c { read_callback = true }
set_callback write c = record c { write_callback = true }

-- The destructor; `present` says that it runs in the loop's thread and that the loop has the channel.
unfoldable pub destruct : Bool → Channel → Checked (Unit {0})
destruct present c = do
  assert (not c.event_handling)
  assert (not c.added_to_loop)
  assert (not present)
