-- ===== src/PollPoller/Swap.antt =====
-- net/poller/pollpoller.cpp: the array without one entry, the gap filled with the last.
use kaycc.Prelude.{
  ℕ, ◌<◌, ◌≡◌, ◌≢◌, sym, ◌∙◌, inl, inr, none, some, get_elem?, arith, ◌==◌, if◌then◌else◌,
  Bool-cases, pos,
}
use kaycc.PollPoller.{PollFd, PollPoller, real_fd}
use kaycc.PollPoller.Agree.{Agrees, Lists, index_inj, real_fd-entry}

-- The channel at `p` is out of the map, and the array has no entry for its descriptor.
pub record Removed (s : PollPoller) (p : ℕ) (t : PollPoller) : Type 0 where
  pub agrees : Agrees t
  pub absent : t.channels (s.heap p).fd ≡ none
  pub left : (f : ℕ) → t.channels f ≡ (if (s.heap p).fd == f then none else s.channels f)
  pub same_fd : (q : ℕ) → (t.heap q).fd ≡ (s.heap q).fd
  pub unlisted : (x : PollFd) → Lists t.pollfds x → real_fd x.fd ≢ (s.heap p).fd
  pub others :
      (x : PollFd)
      → real_fd x.fd ≢ (s.heap p).fd
      → (Lists s.pollfds x → Lists t.pollfds x) × (Lists t.pollfds x → Lists s.pollfds x)

-- `t` is `s` without the descriptor `fd`, whose entry was the last of `suc n`.
pub record Popped (s t : PollPoller) (fd n : ℕ) : Type 0 where
  pub heap_eq :
      (q : ℕ)
      → ((t.heap q).index ≡ (s.heap q).index)
        × ((t.heap q).fd ≡ (s.heap q).fd)
        × ((t.heap q).events ≡ (s.heap q).events)
  pub channels_eq : (f : ℕ) → t.channels f ≡ (if fd == f then none else s.channels f)
  pub entries_eq :
      (j : ℕ) → get_elem? t.pollfds j ≡ (if n == j then none else get_elem? s.pollfds j)

module _ (s t : PollPoller) (p fd n : ℕ) (m : Agrees s) (h : Popped s t fd n)
    (here : s.channels fd ≡ some p) (own : (s.heap p).index ≡ pos n) where
  Popped-Agrees : Agrees t
  Popped-Agrees = record {
    keyed = λ f q k. ground (arith, h.heap_eq q, h.channels_eq f, m.keyed f q);
    indexed = λ f q j k. ground (arith, h.heap_eq q, h.channels_eq f, m.indexed f q j);
    filed = λ f q j k x. ground (
      arith,
      h.heap_eq q,
      h.channels_eq f,
      h.entries_eq j,
      m.filed f q j,
      index_inj s f fd q p j m,
    );
    fits = λ f q j e k x a.
        ground (arith, h.heap_eq q, h.channels_eq f, h.entries_eq j, m.fits f q j e);
    known = λ j e a.
        ground (arith, h.channels_eq (real_fd e.fd), h.entries_eq j, m.known j e, m.owned j p e);
    owned = λ j q e a k.
        ground (arith, h.heap_eq q, h.channels_eq (real_fd e.fd), h.entries_eq j, m.owned j q e);
  }

  pub Popped-Removed : (s.heap p).fd ≡ fd → Removed s p t
  Popped-Removed same = record {
    agrees = Popped-Agrees;
    absent = ground (arith, h.channels_eq (s.heap p).fd);
    left = λ f. ground (arith, h.channels_eq f);
    same_fd = λ q. (h.heap_eq q).1;
    unlisted = λ x (j, a) y. ground (arith, h.entries_eq j, m.owned j p x);
    others = λ x ne. (
      λ (j, a). (j, ground (arith, h.entries_eq j, real_fd-entry s fd p n x m here own)),
      λ (j, a). (j, ground (arith, h.entries_eq j)),
    );
  }

-- `t` is `s` without the descriptor `fd`, whose entry was at `i`; there stands now `last`, the entry of
-- the channel at `q`, which was the last of `suc n`.
pub record Swapped (s t : PollPoller) (fd i n q : ℕ) (last : PollFd) : Type 0 where
  pub index_eq : (r : ℕ) → (t.heap r).index ≡ (if q == r then pos i else (s.heap r).index)
  pub same_heap :
      (r : ℕ) → ((t.heap r).fd ≡ (s.heap r).fd) × ((t.heap r).events ≡ (s.heap r).events)
  pub channels_eq : (f : ℕ) → t.channels f ≡ (if fd == f then none else s.channels f)
  pub entries_eq :
      (j : ℕ)
      → get_elem? t.pollfds j
        ≡ (if n == j then none else if i == j then some last else get_elem? s.pollfds j)

module _ (s t : PollPoller) (p fd i n q : ℕ) (last : PollFd) (m : Agrees s)
    (h : Swapped s t fd i n q last) (here : s.channels fd ≡ some p) (own : (s.heap p).index ≡ pos i)
    (lt : i < n) (end : get_elem? s.pollfds n ≡ some last)
    (owner : s.channels (real_fd last.fd) ≡ some q) where
  Swapped-Agrees : Agrees t
  Swapped-Agrees = record {
    keyed = λ f r k. ground (arith, h.same_heap r, h.channels_eq f, m.keyed f r);
    indexed = λ f r j k. ground (arith, h.index_eq r, h.channels_eq f, m.indexed f r j);
    filed = λ f r j k x. ground (
      arith,
      h.index_eq r,
      h.channels_eq f,
      h.entries_eq j,
      m.filed f r j,
      m.owned n q last,
      m.keyed f r,
      m.keyed (real_fd last.fd) q,
      index_inj s f (real_fd last.fd) r q j m,
    );
    fits = λ f r j e k x a. ground (
      arith,
      h.index_eq r,
      h.same_heap r,
      h.channels_eq f,
      h.entries_eq j,
      m.fits f r j e,
      m.fits f r n e,
      m.owned n q last,
      m.keyed f r,
      m.keyed (real_fd last.fd) q,
      index_inj s f fd r p j m,
    );
    known = λ j e a. ground (
      arith,
      h.channels_eq (real_fd e.fd),
      h.entries_eq j,
      m.known j e,
      m.owned j p e,
      m.owned n p e,
    );
    owned = λ j r e a k. ground (
      arith,
      h.index_eq r,
      h.channels_eq (real_fd e.fd),
      h.entries_eq j,
      m.owned j r e,
      m.owned n r e,
      m.owned n q last,
      m.keyed (real_fd e.fd) r,
      m.keyed (real_fd last.fd) q,
    );
  }

  into : (x : PollFd) → real_fd x.fd ≢ fd → Lists s.pollfds x → Lists t.pollfds x
  into x ne (j, a) = elim (Bool-cases (n == j)) [
    | inl e ↦ (i, ground (arith, h.entries_eq i))
    | inr e ↦ (j, ground (arith, h.entries_eq j, real_fd-entry s fd p i x m here own))
  ]

  back : (x : PollFd) → Lists t.pollfds x → Lists s.pollfds x
  back x (j, a) = elim (Bool-cases (i == j)) [
    | inl e ↦ (n, ground (arith, h.entries_eq j))
    | inr e ↦ (j, ground (arith, h.entries_eq j))
  ]

  pub Swapped-Removed : (s.heap p).fd ≡ fd → Removed s p t
  Swapped-Removed same = record {
    agrees = Swapped-Agrees;
    absent = ground (arith, h.channels_eq (s.heap p).fd);
    left = λ f. ground (arith, h.channels_eq f);
    same_fd = λ r. (h.same_heap r).0;
    unlisted = λ x (j, a) y. ground (arith, h.entries_eq j, m.owned j p x, m.owned n p x);
    others = λ x ne. (into x (λ y. ne (y ∙ sym same)), back x);
  }
