-- ===== src/Poller/Flags.antt =====
-- net/channel.h: which flags of the channels the pollers leave alone.
use kaycc.Prelude.{ℕ, ◌≡◌, false, OnOk, arith}
use kaycc.Channel.{Interest, apply_interest, detach}
use kaycc.Epoll
use kaycc.Epoll.{Kernel, EpollPoller}
use kaycc.PollPoller
use kaycc.PollPoller.{PollPoller, add_entry, renew_entry, remove_entry, move_last}

module _ (K : Kernel) where
  pub epoll_change-handling :
      (i : Interest) (p q : ℕ) (s : EpollPoller K)
      → OnOk
          (Epoll.change_interest K i p s)
          (λ t. (t.heap q).event_handling ≡ (s.heap q).event_handling)
  unfolding Epoll.change_interest Epoll.update_channel apply_interest Epoll.update_kernel
  epoll_change-handling i p q s = ground arith

  pub epoll_remove-handling :
      (p q : ℕ) (s : EpollPoller K)
      → OnOk (Epoll.remove K p s) (λ t. (t.heap q).event_handling ≡ (s.heap q).event_handling)
  unfolding Epoll.remove Epoll.remove_channel Epoll.update_kernel detach
  epoll_remove-handling p q s = ground arith

  pub epoll_remove-off :
      (p : ℕ) (s : EpollPoller K)
      → OnOk (Epoll.remove K p s) (λ t. (t.heap p).added_to_loop ≡ false)
  unfolding Epoll.remove Epoll.remove_channel Epoll.update_kernel detach
  epoll_remove-off p s = ground arith

pub poll_change-handling :
    (i : Interest) (p q : ℕ) (s : PollPoller)
    → OnOk
        (PollPoller.change_interest i p s)
        (λ t. (t.heap q).event_handling ≡ (s.heap q).event_handling)
unfolding PollPoller.change_interest PollPoller.update_channel add_entry renew_entry apply_interest
poll_change-handling i p q s = ground arith

pub poll_remove-handling :
    (p q : ℕ) (s : PollPoller)
    → OnOk (PollPoller.remove p s) (λ t. (t.heap q).event_handling ≡ (s.heap q).event_handling)
unfolding PollPoller.remove PollPoller.remove_channel remove_entry move_last detach
poll_remove-handling p q s = ground arith

pub poll_remove-off :
    (p : ℕ) (s : PollPoller) → OnOk (PollPoller.remove p s) (λ t. (t.heap p).added_to_loop ≡ false)
unfolding PollPoller.remove PollPoller.remove_channel remove_entry move_last detach
poll_remove-off p s = ground arith
