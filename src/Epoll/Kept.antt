-- ===== src/Epoll/Kept.antt =====
-- net/poller/epollpoller.cpp: the channels that an operation leaves in the map, in any state.
use kaycc.Prelude.{ℕ, ◌≡◌, ◌≢◌, some, arith, OnOk}
use kaycc.Channel.{Interest, detach}
use kaycc.Channel.Interests.{fd-apply_interest}
use kaycc.Epoll.{
  Kernel, EpollPoller, update_kernel, register, update_channel, remove_channel, change_interest,
  remove,
}

module _ (K : Kernel) where
  update_channel-Known :
      (p q : ℕ) (s : EpollPoller K)
      → s.channels (s.heap q).fd ≡ some q
      → OnOk (update_channel K p s) (λ t. t.channels (t.heap q).fd ≡ some q)
  unfolding update_channel update_kernel register
  update_channel-Known p q s k = ground arith

  pub change_interest-Known :
      (i : Interest) (p q : ℕ) (s : EpollPoller K)
      → s.channels (s.heap q).fd ≡ some q
      → OnOk (change_interest K i p s) (λ t. t.channels (t.heap q).fd ≡ some q)
  unfolding change_interest
  change_interest-Known i p q s k =
      update_channel-Known p q _ (ground (arith, fd-apply_interest i (s.heap p)))

  pub remove-Known :
      (p q : ℕ) (s : EpollPoller K)
      → q ≢ p
      → s.channels (s.heap q).fd ≡ some q
      → OnOk (remove K p s) (λ t. t.channels (t.heap q).fd ≡ some q)
  unfolding remove remove_channel update_kernel detach
  remove-Known p q s ne k = ground arith
