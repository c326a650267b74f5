-- ===== src/CurrentThread.antt =====
-- base/current_thread.h, and the functions of base/thread.cpp on the variables that every thread has of
-- its own. A text is a list of bytes; `kernel_tid` is what `gettid` answers.
pub mod Cache
pub mod Sleep
mod Tests
use kaycc.Prelude.{
  ℕ, zero, suc, ◌+◌, ◌-◌, ◌*◌, Bool, List, [], ◌∷◌, ◌++◌, length, take, ◌==◌, if◌then◌else◌, ℤ, pos,
  negsuc,
}
use kaycc.Prelude.Decimal.{decimal}
use kaycc.Timestamp.{neg, div_int, mod_int}

pub record CurrentThread : Type 0 where
  pub cached_tid : ℕ
  pub tid_string : List ℕ
  pub tid_string_length : ℕ
  pub thread_name : List ℕ

-- "unknown"
abbrev pub unknown : List ℕ
unknown = b'u' ∷ b'n' ∷ b'k' ∷ b'n' ∷ b'o' ∷ b'w' ∷ b'n' ∷ []

-- "main"
abbrev pub main_name : List ℕ
main_name = b'm' ∷ b'a' ∷ b'i' ∷ b'n' ∷ []

unfoldable pub construct : CurrentThread
construct = record { cached_tid = 0; tid_string = []; tid_string_length = 0; thread_name = unknown }

unfoldable pub blanks : ℕ → List ℕ
blanks zero = []
blanks (suc n) = b' ' ∷ blanks n

-- "%5d"
abbrev pub decimal5 : ℕ → List ℕ
decimal5 n = blanks (5 - length (decimal n)) ++ decimal n

unfoldable pub cache_tid : ℕ → CurrentThread → CurrentThread
cache_tid kernel_tid t =
    if t.cached_tid == 0
    then record t {
      cached_tid = kernel_tid;
      tid_string = take (32 - 1) (decimal5 kernel_tid);
      tid_string_length = length (decimal5 kernel_tid);
    }
    else t

-- The id, and the variables afterwards.
unfoldable pub tid : ℕ → CurrentThread → ℕ × CurrentThread
unfolding cache_tid
tid kernel_tid t =
    let u : CurrentThread = if t.cached_tid == 0 then cache_tid kernel_tid t else t in
    (u.cached_tid, u)

-- Given the id of the process.
unfoldable pub is_main_thread : ℕ → ℕ → CurrentThread → Bool × CurrentThread
unfolding tid
is_main_thread process kernel_tid t = let (id, u) = tid kernel_tid t in (id == process, u)

-- The handler of `pthread_atfork` in the child.
unfoldable pub after_fork : ℕ → CurrentThread → CurrentThread
unfolding tid
after_fork kernel_tid t = (tid kernel_tid (record t { cached_tid = 0; thread_name = main_name })).1

-- The constructor of `ThreadNameInitializer`, in the main thread.
unfoldable pub initialize_name : ℕ → CurrentThread → CurrentThread
unfolding tid
initialize_name kernel_tid t = (tid kernel_tid (record t { thread_name = main_name })).1

abbrev pub micro_seconds_per_second : ℕ
micro_seconds_per_second = 1000000

abbrev pub times : ℤ → ℕ → ℤ
times (pos n) k = pos (n * k)
times (negsuc n) k = neg (suc n * k)

-- The seconds and nanoseconds that go to `nanosleep`.
unfoldable pub sleep_usec : ℤ → ℤ × ℤ
sleep_usec usec =
    (div_int usec micro_seconds_per_second, times (mod_int usec micro_seconds_per_second) 1000)
