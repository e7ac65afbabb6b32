-- ===== src/Session/Sync/Tests.antt =====
-- Runs of the callbacks for packets and reports, and their theorems at a session that plays.
use booster_nx.Common.{ℕ, ◌+◌, ◌%◌, ◌≡◌, ◌⊎◌, refl, true, false, some, none, List, [], ◌∷◌, arith}
use booster_nx.Common.Int.{◌+ℤ◌, ◌*ℤ◌}
use booster_nx.Common.Word.{u32_mod}
use booster_nx.Audio.Rtp.{rtp_delta_to_us}
use booster_nx.Audio.Pipeline.{Impl, playback_ntp_us}
use booster_nx.Session.Decode.{Decoder}
use booster_nx.Session.Sync.{
  Media, Callback, SenderReport, video_packet, sender_report, calls, on_video_packet,
  on_rtp_sender_report, find_report, store_report, video_target_rtp_timestamp,
}
use booster_nx.Session.Sync.Reports.{latest, IsTiedBy, calls-IsTiedBy}
use booster_nx.Session.Sync.Target.{video_target-in_step}

-- One second of 48 kHz has been played since the sender report.
abbrev playing : Impl
playing = record {
  running = true;
  reset_epoch_requested = false;
  last_receive_us = 1000;
  settings = record {
    volume_percent = 1200;
    prime_packets = 4;
    output_start_buffers = 4;
    output_queue_limit = 6;
    initial_hold_us = 40000;
    resync_hold_us = 30000;
  };
  jitter = record {
    packets = [];
    expected_sequence = 0;
    have_expected = true;
    primed = true;
    hold_until_us = 0;
  };
  counters = record {
    packets_rx = 0;
    sequence_gaps = 0;
    late_drops = 0;
    queue_drops = 0;
    red_recoveries = 0;
  };
  clock = record {
    output_ready = true;
    played_samples = 48000;
    base_timestamp = 480;
    have_base_timestamp = true;
    audio_ssrc = 5;
    sr_ntp_us = 7000000;
    sr_rtp_timestamp = 480;
    have_sender_report = true;
  };
}

abbrev idle : Decoder
idle = record {
  running = false;
  fps = 30;
  hardware = none;
  queue = [];
  in_flight = none;
  pool = [];
  resync_required = false;
  reset_requested = false;
  keyframe_needed = false;
  drops = 0;
  reuses = 0;
  allocations = 0;
  high_water = 0;
  frames_decoded = 0;
  decode_errors = 0;
  last_decoded_us = 0;
  resets = 0;
}

abbrev session : Media
session = record {
  audio = some playing;
  decoder = idle;
  sender_reports = [];
  audio_ssrc = 5;
  video_ssrc = 6;
  video_sr_ntp_us = 7000000;
  video_sr_rtp_timestamp = 100;
  have_video_sender_report = true;
  packets_received = 0;
  access_unit_bytes = 0;
  last_video_packet_us = 0;
  got_video_track = false;
}

abbrev report : ℕ → ℕ → SenderReport
report ssrc ntp = record { ssrc = ssrc; ntp_us = ntp; rtp_timestamp = 33 }

-- The source of the video changes after its reports have come.
abbrev switching : List Callback
switching =
    sender_report (report 9 8000000)
    ∷ sender_report (report 6 8100000)
    ∷ sender_report (report 9 8200000)
    ∷ video_packet (record { bytes = 1 ∷ []; timestamp = 1; ssrc = 9 }) 50
    ∷ []

switched : (calls session switching).video_sr_ntp_us ≡ 8200000
unfolding calls on_video_packet on_rtp_sender_report find_report store_report
switched = refl

calls-IsTiedBy_example :
    IsTiedBy (calls session switching) (latest (calls session switching).video_ssrc switching none)
unfolding find_report
calls-IsTiedBy_example = calls-IsTiedBy session switching tt

video_target-in_step_example :
    (video_target_rtp_timestamp session ≡ some 90100)
    ⊎ ((t : ℕ) × (video_target_rtp_timestamp session ≡ some t) × ((t + 1) % u32_mod ≡ 90100))
unfolding playback_ntp_us rtp_delta_to_us ◌+ℤ◌ ◌*ℤ◌
video_target-in_step_example =
    video_target-in_step session playing 90000 refl refl (omega arith) (omega arith) refl refl
