-- ===== src/InetAddress/Tests.antt =====
-- net/inetaddress.cpp on a host with the least significant byte first, and an `inet_ntop` that writes
-- an IPv4 address as one decimal number, and an IPv6 address as its bytes.
use kaycc.Prelude.{ℕ, List, ◌≡◌, refl, ap, some, ◌∷◌, ◌++◌, ok, arith}
use kaycc.Prelude.Decimal.{decimal, read_digits, length-digits, read_digits-digits}
use kaycc.Buffer.Integers.LittleEndian.{little_endian_host}
use kaycc.InetAddress.{InetAddress, Inet, zeroed, af_inet, to_ip, to_ip_port, to_port}
use kaycc.InetAddress.Text.{v4, address, to_ip_port-construct}

abbrev plain : Inet
plain = record {
  ntop4 = λ a. decimal a;
  ntop6 = λ a. a;
  pton4 = λ bs. some (read_digits 0 bs);
  pton6 = λ bs. some bs;
  length-ntop4 = λ a h. omega (arith, length-digits 20 a 9 (omega arith));
  length-ntop6 = λ a h. omega (arith, h.0);
  pton4-ntop4 = λ a h. ap some (read_digits-digits 20 a (omega arith));
  pton6-ntop6 = λ a h. refl;
}

-- 127.0.0.1, port 80, with a digit that `inet_ntop` does not write.
abbrev given : List ℕ
given = b'0' ∷ decimal 2130706433

abbrev local_address : InetAddress
local_address = address little_endian_host plain (v4 2130706433) given 80

given_read : read_digits 0 given ≡ 2130706433
unfolding read_digits
given_read = read_digits-digits 20 2130706433 (omega arith)

to_ip_port-construct_example :
    (to_ip little_endian_host plain local_address ≡ ok (decimal 2130706433))
    × (to_port little_endian_host plain local_address ≡ 80)
    × (to_ip_port little_endian_host plain local_address
        ≡ ok (decimal 2130706433 ++ b':' ∷ decimal 80))
    × (read_digits 0 (decimal 80) ≡ 80)
    × (address little_endian_host plain (v4 2130706433) (decimal 2130706433) 80 ≡ local_address)
to_ip_port-construct_example =
    to_ip_port-construct little_endian_host plain (v4 2130706433) given 80 (omega arith)
      (ap some given_read) (omega arith)

abbrev end : InetAddress
end = record zeroed { family = af_inet; port = 20480; word = 16777343 }
