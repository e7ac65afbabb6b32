-- ===== src/Audio/Rtp/Clock.antt =====
-- The RTP clock of AudioRtpUtils.hpp: differences across the wrap of the 32-bit timestamp, and the
-- way from the media clock to a timestamp and back.
use mathlib.Core.Path.{subst}
use booster_nx.Common.{
  ℕ, ◌+◌, ◌-◌, ◌*◌, ◌/◌, ◌%◌, ◌≤◌, ◌<◌, ◌≡◌, ◌⊎◌, inl, inr, Bool-cases, ltb, arith,
}
use booster_nx.Common.Int.{ℤ, pos, ◌+ℤ◌, ◌-ℤ◌, ◌*ℤ◌, sub_ℕ, int_laws}
use booster_nx.Common.Word.{u32_mod}
use booster_nx.Audio.Rtp.{rtp_delta_to_us, rtp_timestamp_at_ntp}

-- A timestamp `ticks` samples after the anchor is `ticks` samples' time after it, also where the
-- timestamp wraps round.
pub rtp_delta_to_us_forward :
    (anchor ticks clock_rate : ℕ)
    → anchor < u32_mod
    → ticks < 2147483648
    → rtp_delta_to_us ((anchor + ticks) % u32_mod) anchor clock_rate
      ≡ pos (ticks * 1000000 / clock_rate)
unfolding rtp_delta_to_us ◌*ℤ◌
rtp_delta_to_us_forward anchor ticks clock_rate ha ht = ground arith

-- A timestamp `ticks` samples before the anchor is that much time before it.
pub rtp_delta_to_us_backward :
    (anchor ticks clock_rate : ℕ)
    → anchor < u32_mod
    → 0 < ticks
    → ticks ≤ 2147483648
    → rtp_delta_to_us ((anchor + u32_mod - ticks) % u32_mod) anchor clock_rate
      ≡ sub_ℕ 0 (ticks * 1000000 / clock_rate)
unfolding rtp_delta_to_us ◌*ℤ◌
rtp_delta_to_us_backward anchor ticks clock_rate ha hp ht = ground arith

plus_minus : (a b : ℤ) → a +ℤ b -ℤ a ≡ b
plus_minus a b = omega int_laws

-- From a video timestamp ahead of the anchor to the media clock and back at 90 kHz: the way loses one
-- tick at most.
pub rtp_timestamp_at_ntp_ahead :
    (anchor ticks : ℕ) (ntp_us : ℤ)
    → anchor < u32_mod
    → ticks < 2147483648
    → let v = (anchor + ticks) % u32_mod in
      let back =
        rtp_timestamp_at_ntp anchor ntp_us (ntp_us +ℤ rtp_delta_to_us v anchor 90000) 90000 in
      (back ≡ v) ⊎ ((back + 1) % u32_mod ≡ v)
unfolding rtp_timestamp_at_ntp ◌*ℤ◌
rtp_timestamp_at_ntp_ahead anchor ticks ntp_us ha ht =
    rw
      (
        plus_minus ntp_us (rtp_delta_to_us ((anchor + ticks) % u32_mod) anchor 90000),
        rtp_delta_to_us_forward anchor ticks 90000 ha ht,
      )
      (ground arith)

-- From one behind the anchor the way gains one tick at most.
rtp_timestamp_at_ntp_behind :
    (anchor ticks : ℕ) (ntp_us : ℤ)
    → anchor < u32_mod
    → 0 < ticks
    → ticks ≤ 2147483648
    → let v = (anchor + u32_mod - ticks) % u32_mod in
      let back =
        rtp_timestamp_at_ntp anchor ntp_us (ntp_us +ℤ rtp_delta_to_us v anchor 90000) 90000 in
      (back ≡ v) ⊎ (back ≡ (v + 1) % u32_mod)
unfolding rtp_timestamp_at_ntp ◌*ℤ◌
rtp_timestamp_at_ntp_behind anchor ticks ntp_us ha hp ht =
    rw
      (
        plus_minus ntp_us (rtp_delta_to_us ((anchor + u32_mod - ticks) % u32_mod) anchor 90000),
        rtp_delta_to_us_backward anchor ticks 90000 ha hp ht,
      )
      (ground arith)

-- From any 32-bit video timestamp to the media clock and back at 90 kHz, over the wrap as well, the
-- way comes back to the timestamp or ends one tick off, towards the anchor: a timestamp that is less
-- than 2^31 ticks ahead of the anchor can lose a tick, any other is behind it and can gain one.
pub rtp_timestamp_at_ntp-rtp_delta_to_us :
    (anchor v : ℕ) (ntp_us : ℤ)
    → anchor < u32_mod
    → v < u32_mod
    → let back =
        rtp_timestamp_at_ntp anchor ntp_us (ntp_us +ℤ rtp_delta_to_us v anchor 90000) 90000 in
      let ahead = (v + u32_mod - anchor) % u32_mod in
      (back ≡ v)
      ⊎ (ahead < 2147483648) × ((back + 1) % u32_mod ≡ v)
      ⊎ (2147483648 ≤ ahead) × (back ≡ (v + 1) % u32_mod)
rtp_timestamp_at_ntp-rtp_delta_to_us anchor v ntp_us ha hv =
    elim (Bool-cases (ltb ahead 2147483648)) [
      | inl near ↦
          let is_v : (anchor + ahead) % u32_mod ≡ v = omega arith in
          elim (subst (λ w. (back w ≡ w) ⊎ ((back w + 1) % u32_mod ≡ w)) is_v
            (rtp_timestamp_at_ntp_ahead anchor ahead ntp_us ha (ground (arith, near)))) [
              | inl same ↦ inl same
              | inr lost ↦ inr (inl (ground (arith, near), lost))
            ]
      | inr far ↦
          let before = u32_mod - ahead in
          let is_v : (anchor + u32_mod - before) % u32_mod ≡ v = omega arith in
          elim (subst (λ w. (back w ≡ w) ⊎ (back w ≡ (w + 1) % u32_mod)) is_v
            (rtp_timestamp_at_ntp_behind anchor before ntp_us ha (omega arith)
              (ground (arith, far)))) [
                | inl same ↦ inl same
                | inr gained ↦ inr (inr (ground (arith, far), gained))
              ]
    ]
  where
    ahead : ℕ
    ahead = (v + u32_mod - anchor) % u32_mod

    back : ℕ → ℕ
    back w = rtp_timestamp_at_ntp anchor ntp_us (ntp_us +ℤ rtp_delta_to_us w anchor 90000) 90000
