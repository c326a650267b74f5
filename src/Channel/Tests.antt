-- ===== src/Channel/Tests.antt =====
-- net/channel.cpp: the text of a channel.
use kaycc.Prelude.{true, arith}
use kaycc.Channel
use kaycc.Channel.{Channel, none_event, with_reading, with_writing}
use kaycc.Channel.Text.{Reads, channel_events_to_string, revents_to_string, to_string-Reads}

abbrev busy : Channel
busy = record (Channel.construct 5) {
  events = with_writing (with_reading none_event);
  revents = record none_event { pollin = true; pollrdhup = true };
}

to_string-Reads_example :
    Reads busy.fd busy.events (channel_events_to_string busy)
    × Reads busy.fd busy.revents (revents_to_string busy)
unfolding Channel.construct
to_string-Reads_example = to_string-Reads busy (omega arith)
