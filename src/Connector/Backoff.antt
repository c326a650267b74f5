-- ===== src/Connector/Backoff.antt =====
-- net/connector.cpp: the delays between attempts.
use kaycc.Prelude.{
  ℕ, suc, ◌*◌, ◌^◌, ◌≡◌, ◌∙◌, ap, min, true, List, [], ◌∷◌, ◌++◌, arith, append-nil, append_assoc,
}
use kaycc.Connector.{Connector, retry, max_retry_delay_ms, init_retry_delay_ms}

-- The delay before attempt `n`, counted from 0.
abbrev pub backoff : ℕ → ℕ
backoff n = min (init_retry_delay_ms * 2 ^ n) max_retry_delay_ms

-- These attempts fail one after the other.
pub retries : List ℕ → Connector → Connector
retries [] c = c
retries (sockfd ∷ rest) c = retries rest (retry sockfd c)

-- The delays from attempt `n` on, one for each attempt.
abbrev pub backoffs : ℕ → List ℕ → List ℕ
backoffs n [] = []
backoffs n (sockfd ∷ rest) = backoff n ∷ backoffs (suc n) rest

double : (n : ℕ) → min (backoff n * 2) max_retry_delay_ms ≡ backoff (suc n)
double n = omega arith

retry_wanted :
    (sockfd : ℕ) (c : Connector)
    → c.wanted ≡ true
    → ((retry sockfd c).wanted ≡ true)
      × ((retry sockfd c).retry_delay_ms ≡ min (c.retry_delay_ms * 2) max_retry_delay_ms)
      × ((retry sockfd c).delays ≡ c.delays ++ c.retry_delay_ms ∷ [])
      × ((retry sockfd c).closed ≡ c.closed ++ sockfd ∷ [])
unfolding retry
retry_wanted sockfd c w = (ground arith, ground arith, ground arith, ground arith)

-- While a connection is wanted, the attempts that fail one after the other wait 500 ms, then twice as
-- long each time, and never more than 30 s; and each of their descriptors is closed.
pub retries_lem :
    (n : ℕ) (sockfds : List ℕ) (c : Connector)
    → c.wanted ≡ true
    → c.retry_delay_ms ≡ backoff n
    → ((retries sockfds c).delays ≡ c.delays ++ backoffs n sockfds)
      × ((retries sockfds c).closed ≡ c.closed ++ sockfds)
unfolding retries
retries_lem n [] c w e = (simp append-nil, simp append-nil)
retries_lem n (sockfd ∷ rest) c w e =
    let (wanted, delay, delays, closed) = retry_wanted sockfd c w in
    let (delays', closed') =
      retries_lem (suc n) rest (retry sockfd c) wanted
        (delay ∙ ap (λ d. min (d * 2) max_retry_delay_ms) e ∙ double n) in
    (delays' ∙ rw (delays, e) (simp append_assoc), closed' ∙ rw closed (simp append_assoc))
