-- ===== src/Audio/Pipeline/Tests.antt =====
-- Runs of the audio pipeline, and its theorems at states that meet their hypotheses.
use booster_nx.Common.{ℕ, ◌≡◌, refl, true, false, some, List, [], ◌∷◌, map, arith}
use booster_nx.Audio.Latency.{Settings}
use booster_nx.Audio.Rtp.{should_reset_epoch}
use booster_nx.Audio.Rtp.Encode.{Block, encode_red}
use booster_nx.Audio.Pipeline.{
  Packet, Jitter, Impl, PeerAudioPacket, submit, admit, enqueue, insert_packet, take_next,
  find_sequence, find_red, run, starts, stops, takes, submits,
}
use booster_nx.Audio.Pipeline.Inv.{IsValid, run-IsValid}
use booster_nx.Audio.Pipeline.Order.{Ordered, submit-Ordered}
use booster_nx.Audio.Pipeline.Delivery.{after_takes, take_next_in_turn, take_next_recovers}

abbrev usual : Settings
usual = record {
  volume_percent = 1200;
  prime_packets = 4;
  output_start_buffers = 4;
  output_queue_limit = 6;
  initial_hold_us = 40000;
  resync_hold_us = 30000;
}

abbrev opus : ℕ → Packet
opus n = record {
  payload = n ∷ [];
  timestamp = 480;
  ssrc = 5;
  sequence = n;
  payload_type = 111;
  arrival_us = 0;
}

abbrev buffer : List Packet → ℕ → Jitter
buffer ps n = record {
  packets = ps;
  expected_sequence = n;
  have_expected = true;
  primed = true;
  hold_until_us = 0;
}

abbrev with_jitter : Jitter → Impl
with_jitter j = record {
  running = true;
  reset_epoch_requested = false;
  last_receive_us = 1000;
  settings = usual;
  jitter = j;
  counters = record {
    packets_rx = 0;
    sequence_gaps = 0;
    late_drops = 0;
    queue_drops = 0;
    red_recoveries = 0;
  };
  clock = record {
    output_ready = true;
    played_samples = 0;
    base_timestamp = 0;
    have_base_timestamp = true;
    audio_ssrc = 5;
    sr_ntp_us = 0;
    sr_rtp_timestamp = 0;
    have_sender_report = false;
  };
}

-- Across the wrap: 65535 and 1 are there, 0 is lost.
abbrev wrapped : Impl
wrapped = with_jitter (buffer (opus 65535 ∷ opus 1 ∷ []) 65535)

abbrev arrival : PeerAudioPacket
arrival = record { payload = 0 ∷ []; timestamp = 0; ssrc = 5; sequence = 0; payload_type = 111 }

-- The late arrival goes between the two.
inserted : map (λ p. p.sequence) (submit wrapped arrival 11000).jitter.packets ≡ 65535 ∷ 0 ∷ 1 ∷ []
unfolding submit admit enqueue insert_packet should_reset_epoch
inserted = refl

run-IsValid_example :
    IsValid (run wrapped (takes ∷ submits arrival 11000 ∷ stops ∷ starts ∷ [])).jitter
run-IsValid_example =
    run-IsValid wrapped (takes ∷ submits arrival 11000 ∷ stops ∷ starts ∷ []) (omega arith)
      (record {
        bounded = omega arith;
        filled = omega arith;
        expected_in_range = omega arith;
        in_step = refl;
        not_held = λ e. refl;
      })

submit-Ordered_example : Ordered 65535 0 (submit wrapped arrival 11000).jitter.packets
submit-Ordered_example = submit-Ordered 65535 wrapped arrival 11000 (omega arith) (omega arith)

take_next_in_turn_example : (take_next (after_takes 2 wrapped)).1 ≡ some (opus 1)
unfolding find_sequence
take_next_in_turn_example =
    take_next_in_turn 2 wrapped (opus 1) (refl, refl) (omega arith) (omega arith) refl

abbrev lost_block : Block
lost_block = record { payload_type = 111; timestamp_offset = 480; content = 7 ∷ [] }

abbrev successor : Packet
successor = record {
  payload = encode_red (lost_block ∷ []) 111 (8 ∷ []);
  timestamp = 960;
  ssrc = 5;
  sequence = 11;
  payload_type = 63;
  arrival_us = 0;
}

take_next_recovers_example :
    let (t, taken) = take_next (with_jitter (buffer (successor ∷ []) 10)) in
    (taken
      ≡ some (record {
        payload = 7 ∷ [];
        timestamp = 480;
        ssrc = 5;
        sequence = 10;
        payload_type = 111;
        arrival_us = 0;
      }))
    × (t.jitter.packets ≡ successor ∷ [])
    × (t.jitter.expected_sequence ≡ 11)
unfolding find_sequence find_red
take_next_recovers_example =
    take_next_recovers (with_jitter (buffer (successor ∷ []) 10)) successor lost_block [] 111
      (8 ∷ []) (refl, refl) refl refl refl (omega arith) tt (omega arith) (omega arith)
