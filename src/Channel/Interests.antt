-- ===== src/Channel/Interests.antt =====
-- net/channel.h: what a change of interest leaves as it is.
use kaycc.Prelude.{◌≡◌, arith}
use kaycc.Channel.{Channel, Interest, apply_interest}

pub fd-apply_interest : (i : Interest) (c : Channel) → (apply_interest i c).fd ≡ c.fd
unfolding apply_interest
fd-apply_interest i c = ground arith

pub index-apply_interest : (i : Interest) (c : Channel) → (apply_interest i c).index ≡ c.index
unfolding apply_interest
index-apply_interest i c = ground arith
