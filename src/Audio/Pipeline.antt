-- ===== src/Audio/Pipeline.antt =====
-- app/src/stream/audio/AudioPipeline.cpp: the state of `AudioPipeline::Impl` that packets, sender
-- reports and the playback position go through, and the operations on it. Times are microseconds of
-- one clock, and each call carries its own `now`. Counters do not wrap.
pub mod Inv
pub mod Order
pub mod Delivery
mod Tests
use booster_nx.Common.{
  ℕ, zero, suc, ◌+◌, ◌-◌, ◌*◌, ◌%◌, Bool, true, false, ◌&&◌, ◌||◌, not, Option, none, some, List,
  [], ◌∷◌, ◌++◌, length, take, drop, ltb, leb, ◌==◌, if◌then◌else◌,
}
use booster_nx.Common.Int.{ℤ, pos, negsuc, ◌+ℤ◌}
use booster_nx.Common.Word.{u16_mod, u32_mod, sub16, sub32, is_negative16}
use booster_nx.Audio.Latency.{Settings}
use booster_nx.Audio.Rtp.{
  RedundantPayload, parse_first_redundant, should_reset_epoch, rtp_delta_to_us,
}

-- `kMaxPackets`
abbrev pub max_packets : ℕ
max_packets = 12

-- `kSampleRate`
abbrev pub sample_rate : ℕ
sample_rate = 48000

pub record Packet : Type 0 where
  pub payload : List ℕ
  pub timestamp : ℕ
  pub ssrc : ℕ
  pub sequence : ℕ
  pub payload_type : ℕ
  pub arrival_us : ℕ

-- `Packet packet;` with its member initializers. An empty payload asks for concealment.
abbrev pub default_packet : Packet
default_packet = record {
  payload = [];
  timestamp = 0;
  ssrc = 0;
  sequence = 0;
  payload_type = 0;
  arrival_us = 0;
}

-- What the mutex guards.
pub record Jitter : Type 0 where
  pub packets : List Packet
  pub expected_sequence : ℕ
  pub have_expected : Bool
  pub primed : Bool
  pub hold_until_us : ℕ

pub record Counters : Type 0 where
  pub packets_rx : ℕ
  pub sequence_gaps : ℕ
  pub late_drops : ℕ
  pub queue_drops : ℕ
  pub red_recoveries : ℕ

-- The media clock: the playback position in samples, and the sender report that ties it to NTP.
pub record MediaClock : Type 0 where
  pub output_ready : Bool
  pub played_samples : ℕ
  pub base_timestamp : ℕ
  pub have_base_timestamp : Bool
  pub audio_ssrc : ℕ
  pub sr_ntp_us : ℕ
  pub sr_rtp_timestamp : ℕ
  pub have_sender_report : Bool

pub record Impl : Type 0 where
  pub running : Bool
  pub reset_epoch_requested : Bool
  pub last_receive_us : ℕ
  pub settings : Settings
  pub jitter : Jitter
  pub counters : Counters
  pub clock : MediaClock

-- `PeerAudioPacket` of libpeer: `data` and `size` as the list of the bytes.
pub record PeerAudioPacket : Type 0 where
  pub payload : List ℕ
  pub timestamp : ℕ
  pub ssrc : ℕ
  pub sequence : ℕ
  pub payload_type : ℕ

-- `int16_t(a - b) < 0`: sequence number `a` comes before `b`.
abbrev pub precedes : ℕ → ℕ → Bool
precedes a b = is_negative16 (sub16 a b)

abbrev pub pop_front : List Packet → List Packet
pop_front [] = []
pop_front (p ∷ ps) = ps

-- `packets.insert(find_if(...), packet)`: before the first packet that it precedes.
pub insert_packet : Packet → List Packet → List Packet
insert_packet p [] = p ∷ []
insert_packet p (q ∷ qs) =
    if precedes p.sequence q.sequence then p ∷ q ∷ qs else q ∷ insert_packet p qs

abbrev pub new_packet : PeerAudioPacket → ℕ → Packet
new_packet source now = record {
  payload = source.payload;
  timestamp = source.timestamp;
  ssrc = source.ssrc;
  sequence = source.sequence;
  payload_type = source.payload_type;
  arrival_us = now;
}

-- The part of `submit` that locks nothing.
abbrev pub receive : Impl → PeerAudioPacket → ℕ → Impl
receive s source now = record s {
  last_receive_us = now;
  counters = record s.counters { packets_rx = s.counters.packets_rx + 1 };
  clock = record s.clock { audio_ssrc = source.ssrc };
}

abbrev pub arm_hold : Jitter → ℕ → Jitter
arm_hold j until =
    if j.hold_until_us == 0 && not j.primed then record j { hold_until_us = until } else j

abbrev pub clear_epoch : Jitter → ℕ → Jitter
clear_epoch j until = record j {
  packets = [];
  primed = false;
  have_expected = false;
  hold_until_us = until;
}

-- The epoch test of `submit`, on the state after the hold is armed.
abbrev pub starts_epoch : Impl → Packet → ℕ → Bool
starts_epoch s p now =
    should_reset_epoch s.last_receive_us now s.jitter.have_expected s.jitter.expected_sequence
      p.sequence max_packets

pub enqueue : Impl → Packet → Impl
enqueue s p =
    if s.jitter.have_expected && precedes p.sequence s.jitter.expected_sequence
    then record s { counters = record s.counters { late_drops = s.counters.late_drops + 1 } }
    else (if leb max_packets (length s.jitter.packets)
        then record s {
          jitter = record s.jitter { packets = insert_packet p (pop_front s.jitter.packets) };
          counters = record s.counters { queue_drops = s.counters.queue_drops + 1 };
        }
        else record s { jitter = record s.jitter { packets = insert_packet p s.jitter.packets } })

-- `before` is the state on entry, whose `last_receive_us` is the previous arrival.
admit : Impl → Impl → Packet → ℕ → Impl
admit before s p now =
    let j = arm_hold s.jitter (now + s.settings.initial_hold_us) in
    if starts_epoch before p now
    then enqueue
        (record s {
          jitter = clear_epoch j (now + s.settings.resync_hold_us);
          reset_epoch_requested = true;
        })
        p
    else enqueue (record s { jitter = j }) p

pub submit : Impl → PeerAudioPacket → ℕ → Impl
submit s source now =
    if not s.running || length source.payload == 0
    then s
    else admit s (receive s source now) (new_packet source now) now

-- `find_if` by sequence number, and `erase` of what it found.
pub find_sequence : ℕ → List Packet → Option Packet
find_sequence n [] = none
find_sequence n (p ∷ ps) = if p.sequence == n then some p else find_sequence n ps

pub erase_sequence : ℕ → List Packet → List Packet
erase_sequence n [] = []
erase_sequence n (p ∷ ps) = if p.sequence == n then ps else p ∷ erase_sequence n ps

pub find_red : ℕ → List Packet → Option Packet
find_red n [] = none
find_red n (p ∷ ps) = if p.sequence == n && p.payload_type == 63 then some p else find_red n ps

abbrev pub next_sequence : ℕ → ℕ
next_sequence n = (n + 1) % u16_mod

-- The packet rebuilt from the redundant block that its successor carries.
abbrev pub recovered : Packet → RedundantPayload → ℕ → Packet
recovered next r expected = record {
  payload = take r.size (drop r.start next.payload);
  timestamp = sub32 next.timestamp r.timestamp_offset;
  ssrc = next.ssrc;
  sequence = expected;
  payload_type = 111;
  arrival_us = next.arrival_us;
}

-- With no packet there is no front; `configure` sets at least three to prime with.
abbrev pub prime : Jitter → ℕ → Jitter
prime j prime_packets =
    if not j.primed && leb prime_packets (length j.packets)
    then elim j.packets [
      | [] ↦ record j { primed = true; have_expected = true; hold_until_us = 0 }
      | p ∷ _ ↦ record j {
        primed = true;
        expected_sequence = p.sequence;
        have_expected = true;
        hold_until_us = 0;
      }
    ]
    else j

abbrev pub advance : Jitter → Jitter
advance j = record j { expected_sequence = next_sequence j.expected_sequence }

abbrev pub recover_with : Impl → Packet → RedundantPayload → Impl × Option Packet
recover_with s next r = (
  record s {
    jitter = advance s.jitter;
    counters = record s.counters { red_recoveries = s.counters.red_recoveries + 1 };
  },
  some (recovered next r s.jitter.expected_sequence),
)

abbrev pub conceal : Impl → Impl × Option Packet
conceal s = (
  record s {
    jitter = advance s.jitter;
    counters = record s.counters { sequence_gaps = s.counters.sequence_gaps + 1 };
  },
  some default_packet,
)

-- The expected packet is missing.
take_missing : Impl → Impl × Option Packet
take_missing s = elim (find_red (next_sequence s.jitter.expected_sequence) s.jitter.packets) [
  | none ↦ conceal s
  | some next ↦ elim (parse_first_redundant next.payload) [
    | none ↦ conceal s
    | some r ↦ recover_with s next r
  ]
]

take_expected : Impl → Impl × Option Packet
take_expected s = elim (find_sequence s.jitter.expected_sequence s.jitter.packets) [
  | none ↦ take_missing s
  | some p ↦ (
    record s {
      jitter = record (advance s.jitter) {
        packets = erase_sequence s.jitter.expected_sequence s.jitter.packets;
      };
    },
    some p,
  )
]

-- `take_next` from where its wait ends, whether the condition came true or 12 ms have passed: the
-- code does not ask which. `none` is the result false.
pub take_next : Impl → Impl × Option Packet
take_next s =
    let t = record s { jitter = prime s.jitter s.settings.prime_packets } in
    if not s.running
    then (s, none)
    else (if not t.jitter.primed || length t.jitter.packets == 0
        then (t, none)
        else take_expected t)

-- `set_sender_report` and `playback_ntp_us`.
pub set_sender_report : Impl → ℕ → ℕ → ℕ → Impl
set_sender_report s ssrc ntp_us rtp_timestamp =
    if s.clock.audio_ssrc == 0 || not (s.clock.audio_ssrc == ssrc) then s else record s {
      clock = record s.clock {
        sr_ntp_us = ntp_us;
        sr_rtp_timestamp = rtp_timestamp;
        have_sender_report = true;
      };
    }

unfoldable pub playback_ntp_us : Impl → ℤ
playback_ntp_us s =
    if not s.clock.output_ready
      || (not s.clock.have_base_timestamp || not s.clock.have_sender_report)
    then negsuc 0
    else pos s.clock.sr_ntp_us
      +ℤ rtp_delta_to_us ((s.clock.base_timestamp + s.clock.played_samples) % u32_mod)
          s.clock.sr_rtp_timestamp sample_rate

-- The fields of this model that `start` sets; `sr_ntp_us` and `sr_rtp_timestamp` stay.
pub start : Impl → Impl
start s = if s.running then s else record s {
  running = true;
  reset_epoch_requested = false;
  last_receive_us = 0;
  jitter = record {
    packets = [];
    expected_sequence = 0;
    have_expected = false;
    primed = false;
    hold_until_us = 0;
  };
  counters = record {
    packets_rx = 0;
    sequence_gaps = 0;
    late_drops = 0;
    queue_drops = 0;
    red_recoveries = 0;
  };
  clock = record s.clock {
    played_samples = 0;
    base_timestamp = 0;
    have_base_timestamp = false;
    audio_ssrc = 0;
    have_sender_report = false;
  };
}

pub stop : Impl → Impl
stop s =
    if s.running then record s { running = false; jitter = record s.jitter { packets = [] } } else s

-- The calls that the network thread, the worker and the owner make, in the order in which they take
-- the mutex.
pub data Call : Type 0 where
  starts stops takes : Call
  submits : PeerAudioPacket → ℕ → Call

pub step : Impl → Call → Impl
step s starts = start s
step s stops = stop s
step s takes = (take_next s).0
step s (submits source now) = submit s source now

pub run : Impl → List Call → Impl
run s [] = s
run s (c ∷ cs) = run (step s c) cs
