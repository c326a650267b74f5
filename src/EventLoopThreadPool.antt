-- ===== src/EventLoopThreadPool.antt =====
-- net/eventloopthreadpool.h and eventloopthreadpool.cpp: the loops among which the connections of a
-- server are shared. A loop is a number; `start` is given the loops that the threads make.
pub mod RoundRobin
mod Tests
use kaycc.Prelude.{
  ℕ, suc, ◌+◌, ◌%◌, Bool, true, false, not, ◌&&◌, Option, none, some, List, [], ◌∷◌, length,
  get_elem?, ltb, leb, ◌==◌, if◌then◌else◌, Checked, ok, err, undefined, ◌>>=◌, ◌>>◌, assert,
}

pub record EventLoopThreadPool : Type 0 where
  pub base_loop : ℕ
  pub started : Bool
  pub next : ℕ
  pub loops : List ℕ

unfoldable pub construct : ℕ → EventLoopThreadPool
construct base_loop = record { base_loop = base_loop; started = false; next = 0; loops = [] }

unfoldable pub start : List ℕ → EventLoopThreadPool → Checked EventLoopThreadPool
start loops s = do assert (not s.started); ok (record s { started = true; loops = loops })

-- `loops_[i]` of a vector: nothing is promised out of range.
abbrev pub index : List ℕ → ℕ → Checked ℕ
index loops i = elim (get_elem? loops i) [ none ↦ err undefined | some loop ↦ ok loop ]

unfoldable pub get_next_loop : EventLoopThreadPool → Checked (ℕ × EventLoopThreadPool)
get_next_loop s = do
  assert s.started
  (if length s.loops == 0 then ok (s.base_loop, s) else do
    loop ← index s.loops s.next
    let next = s.next + 1
    ok (loop, record s { next = if leb (length s.loops) next then 0 else next }))

unfoldable pub get_loop_for_hash : ℕ → EventLoopThreadPool → Checked ℕ
get_loop_for_hash hash_code s =
    let n = length s.loops in if n == 0 then ok s.base_loop else index s.loops (hash_code % n)

unfoldable pub get_all_loops : EventLoopThreadPool → Checked (List ℕ)
get_all_loops s = do
  assert s.started
  ok (if length s.loops == 0 then s.base_loop ∷ [] else s.loops)
