-- ===== src/InetAddress/Text.antt =====
-- net/inetaddress.cpp and net/socketsops.cpp: addresses and ports as text.
use kaycc.Prelude.{
  ℕ, some, sym, ◌-◌, ◌^◌, ◌<◌, ◌≡◌, refl, ap, ◌∙◌, Bool, true, false, List, [], ◌∷◌, ◌++◌, length,
  take_all, ltb, lt→ltb, arith, ok,
}
use kaycc.Prelude.Decimal.{decimal, read_digits, length-digits, read_digits-digits}
use kaycc.Buffer.Integers.{Host}
use kaycc.InetAddress.{
  InetAddress, zeroed, af_inet, af_inet6, Inet, IsAddr6, to_ip_into, to_ip_port_into, from_ip_port4,
  from_ip_port6, construct_ip, to_ip, to_ip_port, to_port, truncate,
}

pub data Ip : Type 0 where
  v4 : ℕ → Ip
  v6 : List ℕ → Ip

abbrev pub IsIp : Ip → Type 0
IsIp (v4 a) = a < 2 ^ 32
IsIp (v6 a) = IsAddr6 a

abbrev pub is_v6 : Ip → Bool
is_v6 (v4 a) = false
is_v6 (v6 a) = true

module _ (host : Host) (inet : Inet) where
  abbrev pub ip_text : Ip → List ℕ
  ip_text (v4 a) = inet.ntop4 a
  ip_text (v6 a) = inet.ntop6 a

  -- The text of a port and the colon take six characters.
  port_fits :
      (size port : ℕ)
      → port < 2 ^ 16
      → 6 < size
      → truncate size (b':' ∷ decimal port) ≡ b':' ∷ decimal port
  port_fits size port h lt =
      take_all (size - 1) (b':' ∷ decimal port)
        (omega (arith, length-digits 20 port 4 (omega arith)))

  fits4 : (a : ℕ) → a < 2 ^ 32 → ltb (length (inet.ntop4 a)) 64 ≡ true
  fits4 a h = lt→ltb _ _ (omega (arith, inet.length-ntop4 a h))

  fits6 : (a : List ℕ) → IsAddr6 a → ltb (length (inet.ntop6 a)) 64 ≡ true
  fits6 a h = lt→ltb _ _ (omega (arith, inet.length-ntop6 a h))

  length-ip_text : (ip : Ip) → IsIp ip → length (ip_text ip) < 46
  length-ip_text (v4 a) h = omega (arith, inet.length-ntop4 a h)
  length-ip_text (v6 a) h = inet.length-ntop6 a h

  -- Whether `inet_pton` reads this address in a text.
  abbrev pub Reads : Ip → List ℕ → Type 0
  Reads (v4 a) text = inet.pton4 text ≡ some a
  Reads (v6 a) text = inet.pton6 text ≡ some a

  Reads-ip_text : (ip : Ip) → IsIp ip → Reads ip (ip_text ip)
  Reads-ip_text (v4 a) h = inet.pton4-ntop4 a h
  Reads-ip_text (v6 a) h = inet.pton6-ntop6 a h

  -- The address that a text and a port construct, and the one that it is.
  abbrev pub address : Ip → List ℕ → ℕ → InetAddress
  address ip text port = construct_ip host inet text port (is_v6 ip)

  abbrev meant : Ip → ℕ → InetAddress
  meant (v4 a) port = record zeroed { family = af_inet; port = host.to_big 2 port; word = a }
  meant (v6 a) port = record zeroed { family = af_inet6; port = host.to_big 2 port; addr6 = a }

  address-meant :
      (ip : Ip) (text : List ℕ) (port : ℕ) → Reads ip text → address ip text port ≡ meant ip port
  unfolding construct_ip from_ip_port4 from_ip_port6
  address-meant (v4 a) text port r = rw r refl
  address-meant (v6 a) text port r = rw r refl

  to_ip_into-meant :
      (ip : Ip) (port : ℕ) → IsIp ip → to_ip_into host inet 64 (meant ip port) [] ≡ ok (ip_text ip)
  unfolding to_ip_into
  to_ip_into-meant (v4 a) port h = simp (fits4 a h)
  to_ip_into-meant (v6 a) port h = simp (fits6 a h)

  port-meant : (ip : Ip) (port : ℕ) → (meant ip port).port ≡ host.to_big 2 port
  port-meant (v4 a) port = refl
  port-meant (v6 a) port = refl

  to_port-meant : (ip : Ip) (port : ℕ) → port < 2 ^ 16 → host.from_big 2 (meant ip port).port ≡ port
  to_port-meant ip port h =
      ap (host.from_big 2) (port-meant ip port) ∙ host.from_big-to_big 2 port (omega arith)

  to_ip_port_into-meant :
      (ip : Ip) (port : ℕ)
      → IsIp ip
      → port < 2 ^ 16
      → to_ip_port_into host inet 64 (meant ip port) [] ≡ ok (ip_text ip ++ b':' ∷ decimal port)
  unfolding to_ip_port_into
  to_ip_port_into-meant ip port h hp =
      let short = length-ip_text ip h in
      rw (to_ip_into-meant ip port h) (
        rw (to_port-meant ip port hp) (
          simp (
            lt→ltb (length (ip_text ip)) 64 (omega arith),
            port_fits (64 - length (ip_text ip)) port hp (omega arith),
          )))

  -- Any text in which `inet_pton` reads an IPv4 or IPv6 address, also one that `inet_ntop` would not
  -- write, and a port below 2 ^ 16, given to `InetAddress(ip, port, ipv6)`: `toIp()` gives the text that
  -- `inet_ntop` writes for the address, `toPort()` the port, and `toIpPort()` that text, a colon and
  -- the digits of the port, which stand for it. The address that `InetAddress` makes of the text of
  -- `toIp()` and the port is the same one. No assertion fails, and the buffer of 64 characters cuts
  -- nothing off.
  pub to_ip_port-construct :
      (ip : Ip) (text : List ℕ) (port : ℕ)
      → IsIp ip
      → Reads ip text
      → port < 2 ^ 16
      → (to_ip host inet (address ip text port) ≡ ok (ip_text ip))
        × (to_port host inet (address ip text port) ≡ port)
        × (to_ip_port host inet (address ip text port) ≡ ok (ip_text ip ++ b':' ∷ decimal port))
        × (read_digits 0 (decimal port) ≡ port)
        × (address ip (ip_text ip) port ≡ address ip text port)
  unfolding to_ip to_port to_ip_port
  to_ip_port-construct ip text port h r hp =
      let same = address-meant ip text port r in
      let again = address-meant ip (ip_text ip) port (Reads-ip_text ip h) in
      (
        ap (λ a. to_ip_into host inet 64 a []) same ∙ to_ip_into-meant ip port h,
        ap (λ a. host.from_big 2 a.port) same ∙ to_port-meant ip port hp,
        ap (λ a. to_ip_port_into host inet 64 a []) same ∙ to_ip_port_into-meant ip port h hp,
        read_digits-digits 20 port (omega arith),
        again ∙ sym same,
      )
