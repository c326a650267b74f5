-- ===== src/PollPoller/Kept.antt =====
-- net/poller/pollpoller.cpp: the channels that an operation leaves in the map, in any state.
use kaycc.Prelude.{ℕ, ◌≡◌, ◌≢◌, some, arith, OnOk}
use kaycc.Channel.{Interest, detach}
use kaycc.Channel.Interests.{fd-apply_interest}
use kaycc.PollPoller.{
  PollPoller, add_entry, renew_entry, update_channel, move_last, remove_entry, remove_channel,
  change_interest, remove,
}

update_channel-Known :
    (p q : ℕ) (s : PollPoller)
    → s.channels (s.heap q).fd ≡ some q
    → OnOk (update_channel p s) (λ t. t.channels (t.heap q).fd ≡ some q)
unfolding update_channel add_entry renew_entry
update_channel-Known p q s k = ground arith

pub change_interest-Known :
    (i : Interest) (p q : ℕ) (s : PollPoller)
    → s.channels (s.heap q).fd ≡ some q
    → OnOk (change_interest i p s) (λ t. t.channels (t.heap q).fd ≡ some q)
unfolding change_interest
change_interest-Known i p q s k =
    update_channel-Known p q _ (ground (arith, fd-apply_interest i (s.heap p)))

pub remove-Known :
    (p q : ℕ) (s : PollPoller)
    → q ≢ p
    → s.channels (s.heap q).fd ≡ some q
    → OnOk (remove p s) (λ t. t.channels (t.heap q).fd ≡ some q)
unfolding remove remove_channel remove_entry move_last detach
remove-Known p q s ne k = ground arith
