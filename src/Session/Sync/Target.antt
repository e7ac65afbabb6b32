-- ===== src/Session/Sync/Target.antt =====
-- The video time stamp that is due, when the audio's media clock stands at that of a frame.
use booster_nx.Common.{ℕ, ◌+◌, ◌%◌, ◌<◌, ◌≡◌, ◌⊎◌, refl, ap, ◌∙◌, inl, inr, true, false, some}
use booster_nx.Common.Int.{ℤ, pos, ltb_ℤ, ◌+ℤ◌}
use booster_nx.Common.Word.{u32_mod}
use booster_nx.Audio.Rtp.{rtp_delta_to_us, rtp_timestamp_at_ntp}
use booster_nx.Audio.Rtp.Clock.{rtp_timestamp_at_ntp_ahead}
use booster_nx.Audio.Pipeline.{Impl, playback_ntp_us}
use booster_nx.Session.Sync.{Media, video_target_rtp_timestamp}

target_found :
    (m : Media) (a : Impl)
    → m.audio ≡ some a
    → m.have_video_sender_report ≡ true
    → ltb_ℤ (playback_ntp_us a) (pos 0) ≡ false
    → video_target_rtp_timestamp m
      ≡ some (
          rtp_timestamp_at_ntp m.video_sr_rtp_timestamp
            (pos m.video_sr_ntp_us)
            (playback_ntp_us a)
            90000)
unfolding video_target_rtp_timestamp
target_found m a ha have started = rw (ha, have, started) refl

-- When the audio plays what was captured at the NTP time of a video time stamp up to 2^31 ticks ahead of the
-- report's, the target is that time stamp or the tick before it.
pub video_target-in_step :
    (m : Media) (a : Impl) (ticks : ℕ)
    → m.audio ≡ some a
    → m.have_video_sender_report ≡ true
    → m.video_sr_rtp_timestamp < u32_mod
    → ticks < 2147483648
    → playback_ntp_us a
      ≡ pos m.video_sr_ntp_us
        +ℤ rtp_delta_to_us
            ((m.video_sr_rtp_timestamp + ticks) % u32_mod)
            m.video_sr_rtp_timestamp
            90000
    → ltb_ℤ (playback_ntp_us a) (pos 0) ≡ false
    → let v = (m.video_sr_rtp_timestamp + ticks) % u32_mod in
      (video_target_rtp_timestamp m ≡ some v)
      ⊎ ((t : ℕ) × (video_target_rtp_timestamp m ≡ some t) × ((t + 1) % u32_mod ≡ v))
video_target-in_step m a ticks ha have small ht at_frame started =
    elim (rtp_timestamp_at_ntp_ahead anchor ticks (pos m.video_sr_ntp_us) small ht) [
      | inl e ↦ inl (target_found m a ha have started ∙ ap some (ap back at_frame ∙ e))
      | inr e ↦ inr (
        back (playback_ntp_us a),
        target_found m a ha have started,
        ap (λ n. (back n + 1) % u32_mod) at_frame ∙ e,
      )
    ]
  where
    anchor : ℕ
    anchor = m.video_sr_rtp_timestamp

    back : ℤ → ℕ
    back n = rtp_timestamp_at_ntp anchor (pos m.video_sr_ntp_us) n 90000
