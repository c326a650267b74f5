-- ===== src/TcpServer/Names.antt =====
-- net/tcpserver.cpp: the names of connections.
use kaycc.Prelude.{
  ℕ, ◌^◌, ◌≤◌, ◌<◌, ◌≡◌, sym, ap, ◌∙◌, List, [], ◌∷◌, ◌++◌, length, length-append, take_all, arith,
}
use kaycc.Prelude.Decimal.{decimal, read_digits, length-digits, read_digits-digits}
use kaycc.Prelude.Texts.{append_left_cancel}
use kaycc.TcpServer.{conn_name}

-- The text of an address takes 51 bytes at most, and a number 10: the buffer of 64 has room for both.
pub conn_name-whole :
    (name ip_port : List ℕ) (n : ℕ)
    → length ip_port ≤ 51
    → n < 2 ^ 31
    → conn_name name ip_port n ≡ name ++ (b'-' ∷ (ip_port ++ b'#' ∷ decimal n))
unfolding conn_name
conn_name-whole name ip_port n h lt =
    ap (λ l. name ++ l)
      (take_all 63 (b'-' ∷ (ip_port ++ b'#' ∷ decimal n)) (
        omega
          (arith, length-append ip_port (b'#' ∷ decimal n), length-digits 20 n 9 (omega arith))))

tail_bytes : List ℕ → List ℕ
tail_bytes [] = []
tail_bytes (x ∷ xs) = xs

-- So different numbers give different names.
pub conn_name_inj :
    (name ip_port : List ℕ) (i j : ℕ)
    → length ip_port ≤ 51
    → i < 2 ^ 31
    → j < 2 ^ 31
    → conn_name name ip_port i ≡ conn_name name ip_port j
    → i ≡ j
unfolding tail_bytes
conn_name_inj name ip_port i j h hi hj e =
    let whole : name ++ (b'-' ∷ (ip_port ++ b'#' ∷ decimal i))
        ≡ name ++ (b'-' ∷ (ip_port ++ b'#' ∷ decimal j)) =
      sym (conn_name-whole name ip_port i h hi) ∙ e ∙ conn_name-whole name ip_port j h hj in
    let rest =
      append_left_cancel (b'-' ∷ ip_port) (b'#' ∷ decimal i) (b'#' ∷ decimal j)
        (append_left_cancel name _ _ whole) in
    sym (read_digits-digits 20 i (omega arith))
    ∙ ap (λ l. read_digits 0 (tail_bytes l)) rest
    ∙ read_digits-digits 20 j (omega arith)
