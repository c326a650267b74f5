-- ===== src/InetAddress.antt =====
-- net/inetaddress.h and inetaddress.cpp, with the functions of net/socketsops.cpp on addresses. The
-- union of `sockaddr_in` and `sockaddr_in6` is the record of the fields of the latter: `sin_addr` lies
-- where `sin6_flowinfo` does. Ports and `word` are bit patterns in network order, and texts are lists
-- of characters. `inet_ntop` and `inet_pton` are the parameter `inet`, `htobe` and `betoh` are `host`.
pub mod Text
pub mod SelfConnect
mod Tests
use kaycc.Prelude.{
  ℕ, ◌+◌, ◌-◌, ◌^◌, ◌<◌, ◌≡◌, Bool, true, false, not, ◌&&◌, Option, none, some, List, [], ◌∷◌, ◌++◌,
  length, take, replicate, ltb, leb, ◌==◌, if◌then◌else◌, All, Checked, ok, err, undefined, ◌>>=◌,
  ◌>>◌, assert,
}
use kaycc.Prelude.Decimal.{decimal}
use kaycc.Prelude.Texts.{same_bytes}
use kaycc.Buffer.Integers.{Host}

-- The values of Linux.
abbrev pub af_unspec : ℕ
af_unspec = 0

abbrev pub af_inet : ℕ
af_inet = 2

abbrev pub af_inet6 : ℕ
af_inet6 = 10

abbrev pub inet_addrstrlen : ℕ
inet_addrstrlen = 16

abbrev pub inet6_addrstrlen : ℕ
inet6_addrstrlen = 46

pub record InetAddress : Type 0 where
  pub family : ℕ
  pub port : ℕ
  -- `sin_addr.s_addr` or `sin6_flowinfo`
  pub word : ℕ
  pub addr6 : List ℕ
  pub scope_id : ℕ

-- `bzero`
abbrev pub zeroed : InetAddress
zeroed = record { family = 0; port = 0; word = 0; addr6 = replicate 16 0; scope_id = 0 }

-- Sixteen bytes.
abbrev pub IsAddr6 : List ℕ → Type 0
IsAddr6 a = (length a ≡ 16) × All (λ b. b < 256) a

-- The documented behaviour of `inet_ntop` and `inet_pton`.
pub record Inet : Type 0 where
  pub ntop4 : ℕ → List ℕ
  pub ntop6 : List ℕ → List ℕ
  pub pton4 : List ℕ → Option ℕ
  pub pton6 : List ℕ → Option (List ℕ)
  pub length-ntop4 : (a : ℕ) → a < 2 ^ 32 → length (ntop4 a) < inet_addrstrlen
  pub length-ntop6 : (a : List ℕ) → IsAddr6 a → length (ntop6 a) < inet6_addrstrlen
  pub pton4-ntop4 : (a : ℕ) → a < 2 ^ 32 → pton4 (ntop4 a) ≡ some a
  pub pton6-ntop6 : (a : List ℕ) → IsAddr6 a → pton6 (ntop6 a) ≡ some a

-- `inet_ntop` into `size` characters: the text and its end, or nothing.
abbrev pub print_into : ℕ → List ℕ → List ℕ → List ℕ
print_into size text buf = if ltb (length text) size then text else buf

-- `snprintf` into `size` characters: as much as fits before the end.
abbrev pub truncate : ℕ → List ℕ → List ℕ
truncate size text = take (size - 1) text

abbrev pub or_keep {ℓ} : {A : Type ℓ} → A → Option A → A
or_keep a none = a
or_keep a (some b) = b

module _ (host : Host) (inet : Inet) where
  -- `sockets::toIp(buf, size, addr)`
  unfoldable pub to_ip_into : ℕ → InetAddress → List ℕ → Checked (List ℕ)
  to_ip_into size addr buf =
      if addr.family == af_inet
      then (do assert (leb inet_addrstrlen size); ok (print_into size (inet.ntop4 addr.word) buf))
      else (if addr.family == af_inet6
          then (do
            assert (leb inet6_addrstrlen size)
            ok (print_into size (inet.ntop6 addr.addr6) buf))
          else ok buf)

  -- `sockets::toIpPort(buf, size, addr)`
  unfoldable pub to_ip_port_into : ℕ → InetAddress → List ℕ → Checked (List ℕ)
  to_ip_port_into size addr buf = do
    text ← to_ip_into size addr buf
    let end = length text
    let port = host.from_big 2 addr.port
    assert (ltb end size)
    ok (text ++ truncate (size - end) (b':' ∷ decimal port))

  -- `sockets::fromIpPort` for a `sockaddr_in` and for a `sockaddr_in6`.
  unfoldable pub from_ip_port4 : List ℕ → ℕ → InetAddress → InetAddress
  from_ip_port4 ip port addr = record addr {
    family = af_inet;
    port = host.to_big 2 port;
    word = or_keep addr.word (inet.pton4 ip);
  }

  unfoldable pub from_ip_port6 : List ℕ → ℕ → InetAddress → InetAddress
  from_ip_port6 ip port addr = record addr {
    family = af_inet6;
    port = host.to_big 2 port;
    addr6 = or_keep addr.addr6 (inet.pton6 ip);
  }

  -- `InetAddress(port, loopbackOnly, ipv6)`; `INADDR_LOOPBACK` is 127.0.0.1.
  unfoldable pub construct : ℕ → Bool → Bool → InetAddress
  construct port loopback_only ipv6 =
      if ipv6
      then record zeroed {
        family = af_inet6;
        addr6 = if loopback_only then replicate 15 0 ++ 1 ∷ [] else replicate 16 0;
        port = host.to_big 2 port;
      }
      else record zeroed {
        family = af_inet;
        word = host.to_big 4 (if loopback_only then 0x7f000001 else 0);
        port = host.to_big 2 port;
      }

  -- `InetAddress(ip, port, ipv6)`
  unfoldable pub construct_ip : List ℕ → ℕ → Bool → InetAddress
  construct_ip ip port ipv6 =
      if ipv6 then from_ip_port6 ip port zeroed else from_ip_port4 ip port zeroed

  unfoldable pub to_ip : InetAddress → Checked (List ℕ)
  to_ip addr = to_ip_into 64 addr []

  unfoldable pub to_ip_port : InetAddress → Checked (List ℕ)
  to_ip_port addr = to_ip_port_into 64 addr []

  unfoldable pub to_port : InetAddress → ℕ
  to_port addr = host.from_big 2 addr.port

unfoldable pub ip_net_endian : InetAddress → Checked ℕ
ip_net_endian addr = do assert (addr.family == af_inet); ok addr.word

-- What `gethostbyname_r` leaves in `he`: the type, the length and the first address.
pub record HostEnt : Type 0 where
  pub h_addrtype : ℕ
  pub h_length : ℕ
  pub h_addr : ℕ

-- `resolve(hostname, out)`, given the result; `none` is a failure or a null pointer.
pub resolve : Option HostEnt → InetAddress → Checked (Bool × InetAddress)
resolve none out = ok (false, out)
resolve (some he) out = do
  assert (he.h_addrtype == af_inet && he.h_length == 4)
  ok (true, record out { word = he.h_addr })

-- `getLocalAddr` and `getPeerAddr`: what `getsockname` or `getpeername` writes, if it does not fail,
-- over zeros.
abbrev pub addr_or_zero : Option InetAddress → InetAddress
addr_or_zero answer = or_keep zeroed answer

unfoldable pub is_self_connect : Option InetAddress → Option InetAddress → Bool
is_self_connect local_answer peer_answer =
    let localaddr = addr_or_zero local_answer in
    let peeraddr = addr_or_zero peer_answer in
    if localaddr.family == af_inet
    then localaddr.port == peeraddr.port && localaddr.word == peeraddr.word
    else (if localaddr.family == af_inet6
        then localaddr.port == peeraddr.port && same_bytes localaddr.addr6 peeraddr.addr6
        else false)
