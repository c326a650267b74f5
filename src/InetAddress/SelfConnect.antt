-- ===== src/InetAddress/SelfConnect.antt =====
-- net/socketsops.cpp: `isSelfConnect`.
use kaycc.Prelude.{◌≡◌, ◌≢◌, ◌↔◌, ◌⊎◌, refl, true, false, none, some, arith}
use kaycc.Prelude.Texts.{same_bytes_iff}
use kaycc.InetAddress.{InetAddress, af_inet, af_inet6, is_self_connect}

-- Both ends have one address and one port, of the family of the local end.
abbrev pub SameEnds : InetAddress → InetAddress → Type 0
SameEnds l p =
    ((l.family ≡ af_inet) × (l.port ≡ p.port) × (l.word ≡ p.word))
    ⊎ ((l.family ≡ af_inet6) × (l.port ≡ p.port) × (l.addr6 ≡ p.addr6))

-- Of a socket whose local end has a port: `isSelfConnect` is true exactly when the kernel gives both
-- ends and they have the same port and address, compared by the family of the local end; and it is
-- false if the kernel gives one end only.
pub is_self_connect_iff :
    (l p : InetAddress)
    → l.port ≢ 0
    → ((is_self_connect (some l) (some p) ≡ true) ↔ SameEnds l p)
      × (is_self_connect (some l) none ≡ false)
      × (is_self_connect none (some p) ≡ false)
unfolding is_self_connect
is_self_connect_iff l p h = (
  (
    λ e. ground (arith, same_bytes_iff l.addr6 p.addr6),
    λ e. ground (arith, same_bytes_iff l.addr6 p.addr6),
  ),
  ground arith,
  refl,
)
