-- ===== src/Epoll/Linux.antt =====
-- A kernel with the documented behaviour of `epoll_ctl`, for the tests of both pollers.
use kaycc.Prelude.{ℕ, refl, Bool, not, Option, none, some, is_none, update}
use kaycc.Channel.{Events}
use kaycc.Epoll.{Kernel, Op, ctl_add, ctl_mod, ctl_del}

-- An interest list as a map.
abbrev pub InterestList : Type 0
InterestList = ℕ → Option (Events × ℕ)

abbrev pub ctl : Op → ℕ → Events → ℕ → InterestList → InterestList
ctl ctl_add fd e p s = update s fd (some (e, p))
ctl ctl_mod fd e p s = update s fd (some (e, p))
ctl ctl_del fd e p s = update s fd none

abbrev pub fails : Op → ℕ → InterestList → Bool
fails ctl_add fd s = not (is_none (s fd))
fails ctl_mod fd s = is_none (s fd)
fails ctl_del fd s = is_none (s fd)

abbrev pub linux : Kernel
linux = record {
  State = InterestList;
  interest = λ s. s;
  ctl = ctl;
  fails = fails;
  add_new = λ s fd e p h. (rw h refl, refl);
  mod_old = λ s fd e p w h. (rw h refl, refl);
  del_old = λ s fd e p w h. (rw h refl, refl);
}
