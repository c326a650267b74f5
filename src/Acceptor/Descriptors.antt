-- ===== src/Acceptor/Descriptors.antt =====
-- net/acceptor.cpp: what becomes of each descriptor.
use kaycc.Prelude.{
  ℕ, ◌+◌, ◌<◌, ◌≡◌, refl, ◌∙◌, false, List, [], ◌∷◌, ◌++◌, lt→ltb, ◌==◌, if◌then◌else◌, Bool-cases,
  inl, inr, Returns, ℤ, pos, negsuc, arith, All,
}
use kaycc.InetAddress.{InetAddress}
use kaycc.Acceptor.{
  construct, set_new_connection_callback, Errno, is_emfile, is_expected, Accepted, accepted,
  refused, Acceptor, accept, socket_accept, shed, hand_on, handle_read, errno_after, opening, close,
}

-- How often `d` stands in a list.
pub count : ℕ → List ℕ → ℕ
count d [] = 0
count d (x ∷ xs) = (if x == d then 1 else 0) + count d xs

count-append : (d : ℕ) (xs ys : List ℕ) → count d (xs ++ ys) ≡ count d xs + count d ys
unfolding count
count-append d [] ys = omega arith
count-append d (x ∷ xs) ys = omega (arith, count-append d xs ys)

count-snoc :
    (d : ℕ) (xs : List ℕ) (x : ℕ) → count d (xs ++ x ∷ []) ≡ count d xs + (if x == d then 1 else 0)
unfolding count
count-snoc d xs x = omega (arith, count-append d xs (x ∷ []))

abbrev held : ℕ → ℤ → ℕ
held d (pos fd) = if fd == d then 1 else 0
held d (negsuc n) = 0

-- Each descriptor was closed or handed on, or is that of the socket or the spare one.
abbrev pub Balanced : Acceptor → Type 0
Balanced s =
    (d : ℕ)
    → count d s.opened
      ≡ count d s.closed + count d s.handed + held d (pos s.sockfd) + held d s.idle_fd

count-opening :
    (d : ℕ) (fd : ℤ) (s : Acceptor)
    → (count d (opening fd s).opened ≡ count d s.opened + held d fd)
      × (count d (opening fd s).closed ≡ count d s.closed)
      × (count d (opening fd s).handed ≡ count d s.handed)
      × (held d (pos (opening fd s).sockfd) ≡ held d (pos s.sockfd))
count-opening d (pos fd) s = (count-snoc d s.opened fd, refl, refl, refl)
count-opening d (negsuc n) s = (omega arith, refl, refl, refl)

pub count-close :
    (d : ℕ) (fd : ℤ) (s : Acceptor)
    → (count d (close fd s).opened ≡ count d s.opened)
      × (count d (close fd s).closed ≡ count d s.closed + held d fd)
      × (count d (close fd s).handed ≡ count d s.handed)
      × (held d (pos (close fd s).sockfd) ≡ held d (pos s.sockfd))
count-close d (pos fd) s = (refl, count-snoc d s.closed fd, refl, refl)
count-close d (negsuc n) s = (refl, omega arith, refl, refl)

-- One event on the listening socket: the answers of `accept4`, and of `accept` and `open`.
pub record Round : Type 0 where
  pub first : Accepted
  pub second : ℤ
  pub reopened : ℤ

-- `accept4` does not give the descriptor 0.
abbrev pub IsUsual : Accepted → Type 0
IsUsual (accepted fd peer) = 0 < fd
IsUsual (refused e) = Unit

pub construct-Balanced :
    (channel sockfd idle_fd : ℕ)
    → Returns
        (construct channel sockfd (pos idle_fd))
        (λ s. Balanced s × (s.channel ≡ channel) × (s.sockfd ≡ sockfd))
unfolding construct count
construct-Balanced channel sockfd idle_fd = (λ d. omega arith, refl, refl)

pub set_new_connection_callback-Balanced :
    (s : Acceptor) → Balanced s → Balanced (set_new_connection_callback s)
unfolding set_new_connection_callback
set_new_connection_callback-Balanced s h = h

module _ (log : Errno → Errno) where
  shed-Balanced :
      (second reopened : ℤ) (s : Acceptor) → Balanced s → Balanced (shed log second reopened s)
  unfolding shed
  shed-Balanced second reopened s h d =
      let a = close s.idle_fd s in
      let b = opening second a in
      let c = close second b in
      omega (
        arith,
        h d,
        count-close d s.idle_fd s,
        count-opening d second a,
        count-close d second b,
        count-opening d reopened c,
      )

  hand_on-Balanced :
      (fd : ℕ) (peer : InetAddress) (s : Acceptor)
      → Balanced s
      → Balanced (hand_on log (pos fd) peer (opening (pos fd) s))
  unfolding hand_on
  hand_on-Balanced fd peer s h d = elim (Bool-cases s.has_callback) [
    | inl yes' ↦ rw yes' (omega (arith, h d, count-snoc d s.opened fd, count-snoc d s.handed fd))
    | inr no' ↦ rw no' (omega (arith, h d, count-snoc d s.opened fd, count-snoc d s.closed fd))
  ]

  handle_read-Balanced :
      (first : Accepted) (second reopened : ℤ) (s : Acceptor)
      → IsUsual first
      → Balanced s
      → Balanced (handle_read log first second reopened s)
  unfolding handle_read socket_accept accept
  handle_read-Balanced (accepted fd peer) second reopened s u h =
      rw (lt→ltb 0 fd u) (hand_on-Balanced fd peer s h)
  handle_read-Balanced (refused e) second reopened s u h =
      let e' = log (if is_expected e then e else log (log e)) in
      elim (Bool-cases (is_emfile e')) [
        | inl full ↦ rw full (shed-Balanced second reopened (record s { errno = e' }) h)
        | inr other ↦ rw other h
      ]

  unfoldable pub run : List Round → Acceptor → Acceptor
  run [] s = s
  run (r ∷ rs) s = run rs (handle_read log r.first r.second r.reopened s)

  pub run-Balanced :
      (rs : List Round) (s : Acceptor)
      → All (λ r. IsUsual r.first) rs
      → Balanced s
      → Balanced (run rs s)
  unfolding run
  run-Balanced [] s u h = h
  run-Balanced (r ∷ rs) s u h =
      run-Balanced rs (handle_read log r.first r.second r.reopened s) u.1
        (handle_read-Balanced r.first r.second r.reopened s u.0 h)

  -- `accept4` gives the descriptor 0, where the standard input was closed, and `errno` does not
  -- happen to be EMFILE from before: it is neither closed nor handed on, and so is lost.
  pub zero_lost :
      (peer : InetAddress) (second reopened : ℤ) (s : Acceptor)
      → is_emfile (log s.errno) ≡ false
      → let t = handle_read log (accepted 0 peer) second reopened s in
        (t.opened ≡ s.opened ++ 0 ∷ [])
        × (t.closed ≡ s.closed)
        × (t.handed ≡ s.handed)
        × (t.idle_fd ≡ s.idle_fd)
  unfolding handle_read socket_accept accept
  zero_lost peer second reopened s h = rw h (refl, refl, refl, refl)

  errno_kept : (e : Errno) → ((x : Errno) → log x ≡ x) → log (errno_after log e) ≡ e
  errno_kept e quiet = elim (Bool-cases (is_expected e)) [
    | inl h ↦ rw h (quiet e)
    | inr h ↦ rw h (quiet _ ∙ quiet _ ∙ quiet e)
  ]

  -- If printing a line leaves `errno` alone, `accept4` fails, and the kernel has one descriptor for
  -- `accept` and then one for `open`: with EMFILE the spare descriptor is closed, the waiting
  -- connection is accepted and closed at once, and there is a spare descriptor again; with any other
  -- error nothing is closed. Nothing goes to the callback.
  pub refused_lem :
      (e : Errno) (i c r : ℕ) (s : Acceptor)
      → ((x : Errno) → log x ≡ x)
      → s.idle_fd ≡ pos i
      → let t = handle_read log (refused e) (pos c) (pos r) s in
        (t.closed ≡ (if is_emfile e then (s.closed ++ i ∷ []) ++ c ∷ [] else s.closed))
        × (t.idle_fd ≡ (if is_emfile e then pos r else pos i))
        × (t.handed ≡ s.handed)
        × (t.errno ≡ e)
  unfolding handle_read socket_accept accept shed
  refused_lem e i c r s quiet h = rw (errno_kept e quiet) (elim (Bool-cases (is_emfile e)) [
    | inl full ↦ rw full (rw h (refl, refl, refl, refl))
    | inr other ↦ rw other (refl, h, refl, refl)
  ])
