-- ===== src/PollPoller/Agree.antt =====
-- net/poller/pollpoller.cpp: the map, the channels' indices and the array agree.
use kaycc.Prelude.{
  ℕ, ◌≡◌, sym, ◌∙◌, ◌≢◌, ◌⊎◌, inl, inr, true, Option-cases, none, some, List, get_elem?, pos,
  negsuc, arith,
}
use kaycc.Channel.{Channel, is_none_event}
use kaycc.PollPoller.{PollFd, PollPoller, real_fd}

-- The entry of a channel: its events, and its descriptor or, if it waits for nothing, perhaps
-- -fd - 1.
abbrev pub Fits : Channel → PollFd → Type 0
Fits c e =
    (e.events ≡ c.events)
    × ((e.fd ≡ pos c.fd) ⊎ ((e.fd ≡ negsuc c.fd) × (is_none_event c.events ≡ true)))

-- Each channel in the map is found under its own descriptor, has an index, and has its entry there;
-- and each entry belongs to a channel in the map, which has that index.
pub record Agrees (s : PollPoller) : Type 0 where
  pub keyed : (fd p : ℕ) → s.channels fd ≡ some p → (s.heap p).fd ≡ fd
  pub indexed : (fd p n : ℕ) → s.channels fd ≡ some p → (s.heap p).index ≢ negsuc n
  pub filed :
      (fd p i : ℕ)
      → s.channels fd ≡ some p
      → (s.heap p).index ≡ pos i
      → get_elem? s.pollfds i ≢ none
  pub fits :
      (fd p i : ℕ) (e : PollFd)
      → s.channels fd ≡ some p
      → (s.heap p).index ≡ pos i
      → get_elem? s.pollfds i ≡ some e
      → Fits (s.heap p) e
  pub known :
      (i : ℕ) (e : PollFd) → get_elem? s.pollfds i ≡ some e → s.channels (real_fd e.fd) ≢ none
  pub owned :
      (i p : ℕ) (e : PollFd)
      → get_elem? s.pollfds i ≡ some e
      → s.channels (real_fd e.fd) ≡ some p
      → (s.heap p).index ≡ pos i

-- The array has that entry.
abbrev pub Lists : List PollFd → PollFd → Type 0
Lists l e = (i : ℕ) × (get_elem? l i ≡ some e)

pub real_fd-Fits : (c : Channel) (e : PollFd) → Fits c e → real_fd e.fd ≡ c.fd
real_fd-Fits c e h = ground arith

pub real_fd-entry :
    (s : PollPoller) (fd p i : ℕ) (e : PollFd)
    → Agrees s
    → s.channels fd ≡ some p
    → (s.heap p).index ≡ pos i
    → get_elem? s.pollfds i ≡ some e
    → real_fd e.fd ≡ fd
real_fd-entry s fd p i e m k x a =
    real_fd-Fits (s.heap p) e (m.fits fd p i e k x a) ∙ m.keyed fd p k

-- No two channels in the map have one index.
pub index_inj :
    (s : PollPoller) (f g p q i : ℕ)
    → Agrees s
    → s.channels f ≡ some p
    → s.channels g ≡ some q
    → (s.heap p).index ≡ pos i
    → (s.heap q).index ≡ pos i
    → f ≡ g
index_inj s f g p q i m hp hq ip iq = elim (Option-cases (get_elem? s.pollfds i)) [
  | inl gap ↦ absurd (m.filed f p i hp ip gap)
  | inr (e, a) ↦ sym (real_fd-entry s f p i e m hp ip a) ∙ real_fd-entry s g q i e m hq iq a
]
