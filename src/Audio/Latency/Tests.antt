-- ===== src/Audio/Latency/Tests.antt =====
-- `configure` as the session calls it and at its limits.
use booster_nx.Common.{◌≡◌, refl}
use booster_nx.Common.Int.{pos, negsuc}
use booster_nx.Audio.Latency.{
  configure, clamp_target_buffer_ms, prime_packet_count, initial_jitter_hold_us,
  resync_jitter_hold_us,
}

usual : configure (pos 1200) (pos 40) ≡ record {
  volume_percent = 1200;
  prime_packets = 4;
  output_start_buffers = 4;
  output_queue_limit = 6;
  initial_hold_us = 40000;
  resync_hold_us = 30000;
}
unfolding configure prime_packet_count initial_jitter_hold_us resync_jitter_hold_us
    clamp_target_buffer_ms
usual = refl

clamped : configure (pos 9000) (negsuc 4) ≡ record {
  volume_percent = 1600;
  prime_packets = 3;
  output_start_buffers = 3;
  output_queue_limit = 5;
  initial_hold_us = 30000;
  resync_hold_us = 30000;
}
unfolding configure prime_packet_count initial_jitter_hold_us resync_jitter_hold_us
    clamp_target_buffer_ms
clamped = refl
