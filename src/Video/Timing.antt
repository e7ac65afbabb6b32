-- ===== src/Video/Timing.antt =====
-- app/src/stream/ffmpeg/VideoFrameTiming.hpp: whether to show, hold or drop a decoded frame, by the
-- 32-bit RTP timestamps of the frame, its successor and the media clock.
use booster_nx.Common.{ℕ, Bool, ◌&&◌, not, if◌then◌else◌}
use booster_nx.Common.Int.{ℤ, pos, ltb_ℤ}
use booster_nx.Common.Word.{sub32, signed32}

pub data FrameDecision : Type 0 where
  present hold_previous drop_superseded : FrameDecision

-- `FrameTimingPolicy::maximum_early_ticks`: the only policy that is ever used is the default one.
abbrev pub maximum_early_ticks : ℤ
maximum_early_ticks = pos 750

abbrev pub rtp_delta : ℕ → ℕ → ℤ
rtp_delta timestamp target = signed32 (sub32 timestamp target)

-- `RtpDelta(...) > maximum_early_ticks`
abbrev pub is_early : ℕ → ℕ → Bool
is_early timestamp target = ltb_ℤ maximum_early_ticks (rtp_delta timestamp target)

unfoldable pub decide_frame : ℕ → Bool → ℕ → Bool → ℕ → FrameDecision
decide_frame front has_next next has_previous target =
    if has_previous && is_early front target
    then hold_previous
    else (if has_next && not (is_early next target) then drop_superseded else present)
