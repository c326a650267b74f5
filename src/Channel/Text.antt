-- ===== src/Channel/Text.antt =====
-- net/channel.cpp: events as text.
use kaycc.Prelude.{
  ℕ, suc, ◌^◌, ◌<◌, ◌≡◌, ==_refl, drop-append_eq, refl, sym, ap, ◌∙◌, append-nil, Bool, true, false,
  List, [], ◌∷◌, ◌++◌, length, drop, ◌==◌, if◌then◌else◌, arith,
}
use kaycc.Prelude.Decimal.{decimal, read_digits, read_digits-digits}
use kaycc.Channel.{Events, Channel}

abbrev word : Bool → List ℕ → List ℕ
word true w = w
word false w = []

abbrev pub in_word : List ℕ
in_word = b'N' ∷ b' ' ∷ []

abbrev pub pri_word : List ℕ
pri_word = b'R' ∷ b'I' ∷ b' ' ∷ []

abbrev pub out_word : List ℕ
out_word = b'U' ∷ b'T' ∷ b' ' ∷ []

abbrev pub hup_word : List ℕ
hup_word = b'U' ∷ b'P' ∷ b' ' ∷ []

abbrev pub rdhup_word : List ℕ
rdhup_word = b'D' ∷ b'H' ∷ b'U' ∷ b'P' ∷ b' ' ∷ []

abbrev pub err_word : List ℕ
err_word = b'R' ∷ b'R' ∷ b' ' ∷ []

abbrev pub nval_word : List ℕ
nval_word = b'V' ∷ b'A' ∷ b'L' ∷ b' ' ∷ []

-- The words from that of an event on.
abbrev pub from_nval : Events → List ℕ
from_nval e = word e.pollnval (b'N' ∷ nval_word)

abbrev pub from_err : Events → List ℕ
from_err e = word e.pollerr (b'E' ∷ err_word) ++ from_nval e

abbrev pub from_rdhup : Events → List ℕ
from_rdhup e = word e.pollrdhup (b'R' ∷ rdhup_word) ++ from_err e

abbrev pub from_hup : Events → List ℕ
from_hup e = word e.pollhup (b'H' ∷ hup_word) ++ from_rdhup e

abbrev pub from_out : Events → List ℕ
from_out e = word e.pollout (b'O' ∷ out_word) ++ from_hup e

abbrev pub from_pri : Events → List ℕ
from_pri e = word e.pollpri (b'P' ∷ pri_word) ++ from_out e

-- The words of the events that are set.
pub event_words : Events → List ℕ
event_words e = word e.pollin (b'I' ∷ in_word) ++ from_pri e

-- `eventsToString(fd, ev)`
unfoldable pub events_to_string : ℕ → Events → List ℕ
events_to_string fd e = decimal fd ++ (b':' ∷ b' ' ∷ event_words e)

unfoldable pub channel_events_to_string : Channel → List ℕ
channel_events_to_string c = events_to_string c.fd c.events

unfoldable pub revents_to_string : Channel → List ℕ
revents_to_string c = events_to_string c.fd c.revents

-- A word that begins with this letter is taken off, if there is one.
abbrev starts_with : ℕ → List ℕ → Bool
starts_with c [] = false
starts_with c (x ∷ xs) = x == c

abbrev skip : ℕ → ℕ → List ℕ → List ℕ
skip c n l = if starts_with c l then drop n l else l

pub read_words : List ℕ → Events
read_words l =
    let l1 = skip b'I' 3 l in
    let l2 = skip b'P' 4 l1 in
    let l3 = skip b'O' 4 l2 in
    let l4 = skip b'H' 4 l3 in
    let l5 = skip b'R' 6 l4 in
    let l6 = skip b'E' 4 l5 in
    record {
      pollin = starts_with b'I' l;
      pollpri = starts_with b'P' l1;
      pollout = starts_with b'O' l2;
      pollhup = starts_with b'H' l3;
      pollrdhup = starts_with b'R' l4;
      pollerr = starts_with b'E' l5;
      pollnval = starts_with b'N' l6;
    }

-- A word that is there is read and skipped, and one that is not leaves the rest.
word_read :
    (b : Bool) (x : ℕ) (w rest : List ℕ)
    → starts_with x rest ≡ false
    → (starts_with x (word b (x ∷ w) ++ rest) ≡ b)
      × (skip x (suc (length w)) (word b (x ∷ w) ++ rest) ≡ rest)
word_read true x w rest h = (==_refl x, rw (==_refl x) (drop-append_eq (length w) w rest refl))
word_read false x w rest h = (h, rw h refl)

-- A word with another first letter is not taken for it.
word_other :
    (b : Bool) (x y : ℕ) (w rest : List ℕ)
    → (y == x) ≡ false
    → starts_with x rest ≡ false
    → starts_with x (word b (y ∷ w) ++ rest) ≡ false
word_other true x y w rest n h = n
word_other false x y w rest n h = h

nval_read : (b : Bool) → starts_with b'N' (word b (b'N' ∷ nval_word)) ≡ b
nval_read true = refl
nval_read false = refl

-- A letter that begins none of the words from one on does not begin the text of them.
nval_other : (e : Events) (x : ℕ) → (b'N' == x) ≡ false → starts_with x (from_nval e) ≡ false
nval_other e x n =
    ap (starts_with x) (sym (append-nil (from_nval e)))
    ∙ word_other e.pollnval x b'N' nval_word [] n refl

err_other :
    (e : Events) (x : ℕ)
    → (b'E' == x) ≡ false
    → (b'N' == x) ≡ false
    → starts_with x (from_err e) ≡ false
err_other e x m n = word_other e.pollerr x b'E' err_word (from_nval e) m (nval_other e x n)

rdhup_other :
    (e : Events) (x : ℕ)
    → (b'R' == x) ≡ false
    → (b'E' == x) ≡ false
    → (b'N' == x) ≡ false
    → starts_with x (from_rdhup e) ≡ false
rdhup_other e x r m n = word_other e.pollrdhup x b'R' rdhup_word (from_err e) r (err_other e x m n)

hup_other :
    (e : Events) (x : ℕ)
    → (b'H' == x) ≡ false
    → (b'R' == x) ≡ false
    → (b'E' == x) ≡ false
    → (b'N' == x) ≡ false
    → starts_with x (from_hup e) ≡ false
hup_other e x h r m n =
    word_other e.pollhup x b'H' hup_word (from_rdhup e) h (rdhup_other e x r m n)

out_other :
    (e : Events) (x : ℕ)
    → (b'O' == x) ≡ false
    → (b'H' == x) ≡ false
    → (b'R' == x) ≡ false
    → (b'E' == x) ≡ false
    → (b'N' == x) ≡ false
    → starts_with x (from_out e) ≡ false
out_other e x o h r m n =
    word_other e.pollout x b'O' out_word (from_hup e) o (hup_other e x h r m n)

-- The words of a text tell which events are set.
pub read_words-event_words : (e : Events) → read_words (event_words e) ≡ e
unfolding read_words event_words
read_words-event_words e =
    let no_in =
      word_other e.pollpri b'I' b'P' pri_word (from_out e) refl
        (out_other e b'I' refl refl refl refl refl) in
    let r0 = word_read e.pollin b'I' in_word (from_pri e) no_in in
    let r1 =
      word_read e.pollpri b'P' pri_word (from_out e) (out_other e b'P' refl refl refl refl refl) in
    let r2 =
      word_read e.pollout b'O' out_word (from_hup e) (hup_other e b'O' refl refl refl refl) in
    let r3 = word_read e.pollhup b'H' hup_word (from_rdhup e) (rdhup_other e b'H' refl refl refl) in
    let r4 = word_read e.pollrdhup b'R' rdhup_word (from_err e) (err_other e b'R' refl refl) in
    let r5 = word_read e.pollerr b'E' err_word (from_nval e) (nval_other e b'E' refl) in
    rw
      (r0.1, r0.0, r1.1, r1.0, r2.1, r2.0, r3.1, r3.0, r4.1, r4.0, r5.1, r5.0, nval_read e.pollnval)
      refl

-- What a text says: a number, a colon, and events.
pub record Reads (fd : ℕ) (e : Events) (text : List ℕ) : Type 0 where
  pub number : List ℕ
  pub words : List ℕ
  pub split : text ≡ number ++ (b':' ∷ b' ' ∷ words)
  pub fd_eq : read_digits 0 number ≡ fd
  pub events_eq : read_words words ≡ e

-- The text of a channel with a descriptor below 2 ^ 31 is the descriptor in decimal, a colon, and words
-- that tell exactly which events it waits for, or which it has.
pub to_string-Reads :
    (c : Channel)
    → c.fd < 2 ^ 31
    → Reads c.fd c.events (channel_events_to_string c) × Reads c.fd c.revents (revents_to_string c)
unfolding channel_events_to_string revents_to_string events_to_string
to_string-Reads c h =
    let digits_eq = read_digits-digits 20 c.fd (omega arith) in
    (
      record {
        number = decimal c.fd;
        words = event_words c.events;
        split = refl;
        fd_eq = digits_eq;
        events_eq = read_words-event_words c.events;
      },
      record {
        number = decimal c.fd;
        words = event_words c.revents;
        split = refl;
        fd_eq = digits_eq;
        events_eq = read_words-event_words c.revents;
      },
    )
