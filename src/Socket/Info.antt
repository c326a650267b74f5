-- ===== src/Socket/Info.antt =====
-- net/socket.cpp, net/tcpconnection.cpp: the statistics of a socket as text.
use kaycc.Prelude.{
  ℕ, ◌+◌, ◌-◌, ◌^◌, ◌≤◌, ◌<◌, ◌≡◌, Bool, true, false, Option, none, some, List, [], ◌∷◌, ◌++◌,
  length, length-append, take, take_all, All, arith,
}
use kaycc.Prelude.Decimal.{decimal, length-digits}

-- What is read of `struct tcp_info`.
pub record TcpInfo : Type 0 where
  pub retransmits : ℕ
  pub rto : ℕ
  pub ato : ℕ
  pub snd_mss : ℕ
  pub rcv_mss : ℕ
  pub lost : ℕ
  pub retrans : ℕ
  pub rtt : ℕ
  pub rttvar : ℕ
  pub snd_ssthresh : ℕ
  pub snd_cwnd : ℕ
  pub total_retrans : ℕ

-- "unrecovered="
abbrev retransmits_word : List ℕ
retransmits_word =
    b'u' ∷ b'n' ∷ b'r' ∷ b'e' ∷ b'c' ∷ b'o' ∷ b'v' ∷ b'e' ∷ b'r' ∷ b'e' ∷ b'd' ∷ b'=' ∷ []

-- " rto="
abbrev rto_word : List ℕ
rto_word = b' ' ∷ b'r' ∷ b't' ∷ b'o' ∷ b'=' ∷ []

-- " ato="
abbrev ato_word : List ℕ
ato_word = b' ' ∷ b'a' ∷ b't' ∷ b'o' ∷ b'=' ∷ []

-- " snd_mss="
abbrev snd_mss_word : List ℕ
snd_mss_word = b' ' ∷ b's' ∷ b'n' ∷ b'd' ∷ b'_' ∷ b'm' ∷ b's' ∷ b's' ∷ b'=' ∷ []

-- " rcv_mss="
abbrev rcv_mss_word : List ℕ
rcv_mss_word = b' ' ∷ b'r' ∷ b'c' ∷ b'v' ∷ b'_' ∷ b'm' ∷ b's' ∷ b's' ∷ b'=' ∷ []

-- " lost="
abbrev lost_word : List ℕ
lost_word = b' ' ∷ b'l' ∷ b'o' ∷ b's' ∷ b't' ∷ b'=' ∷ []

-- " retrans="
abbrev retrans_word : List ℕ
retrans_word = b' ' ∷ b'r' ∷ b'e' ∷ b't' ∷ b'r' ∷ b'a' ∷ b'n' ∷ b's' ∷ b'=' ∷ []

-- " rtt="
abbrev rtt_word : List ℕ
rtt_word = b' ' ∷ b'r' ∷ b't' ∷ b't' ∷ b'=' ∷ []

-- " rttvar="
abbrev rttvar_word : List ℕ
rttvar_word = b' ' ∷ b'r' ∷ b't' ∷ b't' ∷ b'v' ∷ b'a' ∷ b'r' ∷ b'=' ∷ []

-- " sshthresh="
abbrev snd_ssthresh_word : List ℕ
snd_ssthresh_word = b' ' ∷ b's' ∷ b's' ∷ b'h' ∷ b't' ∷ b'h' ∷ b'r' ∷ b'e' ∷ b's' ∷ b'h' ∷ b'=' ∷ []

-- " cwnd="
abbrev snd_cwnd_word : List ℕ
snd_cwnd_word = b' ' ∷ b'c' ∷ b'w' ∷ b'n' ∷ b'd' ∷ b'=' ∷ []

-- " total_retrans="
abbrev total_retrans_word : List ℕ
total_retrans_word =
    b' ' ∷ b't' ∷ b'o' ∷ b't' ∷ b'a' ∷ b'l' ∷ b'_' ∷ b'r' ∷ b'e' ∷ b't' ∷ b'r' ∷ b'a' ∷ b'n' ∷ b's'
    ∷ b'=' ∷ []

-- The words and the numbers of the format, in order.
abbrev pub fields : TcpInfo → List (List ℕ × ℕ)
fields i =
    (retransmits_word, i.retransmits)
    ∷ (rto_word, i.rto)
    ∷ (ato_word, i.ato)
    ∷ (snd_mss_word, i.snd_mss)
    ∷ (rcv_mss_word, i.rcv_mss)
    ∷ (lost_word, i.lost)
    ∷ (retrans_word, i.retrans)
    ∷ (rtt_word, i.rtt)
    ∷ (rttvar_word, i.rttvar)
    ∷ (snd_ssthresh_word, i.snd_ssthresh)
    ∷ (snd_cwnd_word, i.snd_cwnd)
    ∷ (total_retrans_word, i.total_retrans)
    ∷ []

pub print_fields : List (List ℕ × ℕ) → List ℕ
print_fields [] = []
print_fields ((word, n) ∷ rest) = word ++ (decimal n ++ print_fields rest)

-- What `snprintf` writes into the buffer, with room for the 0 behind it.
abbrev pub print_info : ℕ → TcpInfo → List ℕ
print_info len i = take (len - 1) (print_fields (fields i))

-- `getTcpInfo`: what the kernel answers.
unfoldable pub get_tcp_info : Option TcpInfo → Bool × Option TcpInfo
get_tcp_info none = (false, none)
get_tcp_info (some i) = (true, some i)

-- `Socket::getTcpInfoString`, for a buffer with this text: the result, and the text afterwards.
unfoldable pub get_tcp_info_string : ℕ → Option TcpInfo → List ℕ → Bool × List ℕ
get_tcp_info_string len none text = (false, text)
get_tcp_info_string len (some i) text = (true, print_info len i)

-- `TcpConnection::getTcpInfoString`
unfoldable pub connection_info_string : Option TcpInfo → List ℕ
unfolding get_tcp_info_string
connection_info_string answer = (get_tcp_info_string 1024 answer []).1

-- Each number takes at most 10 bytes.
abbrev space : List (List ℕ × ℕ) → ℕ
space [] = 0
space ((word, n) ∷ rest) = length word + (10 + space rest)

length-print_fields :
    (fs : List (List ℕ × ℕ)) → All (λ f. f.1 < 2 ^ 32) fs → length (print_fields fs) ≤ space fs
unfolding print_fields
length-print_fields [] h = omega arith
length-print_fields ((word, n) ∷ rest) h = omega (
  arith,
  length-append word (decimal n ++ print_fields rest),
  length-append (decimal n) (print_fields rest),
  length-digits 20 n 9 (omega (arith, h.0)),
  length-print_fields rest h.1,
)

-- If the kernel gives statistics, which are numbers of 32 bits, the text of a connection is that of all twelve,
-- each behind its word: the buffer of 1024 bytes never cuts it off.
pub connection_info-whole :
    (i : TcpInfo)
    → All (λ f. f.1 < 2 ^ 32) (fields i)
    → connection_info_string (some i) ≡ print_fields (fields i)
unfolding connection_info_string get_tcp_info_string
connection_info-whole i h =
    take_all 1023 (print_fields (fields i)) (omega (arith, length-print_fields (fields i) h))
