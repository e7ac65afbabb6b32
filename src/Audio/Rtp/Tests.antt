-- ===== src/Audio/Rtp/Tests.antt =====
-- Runs of AudioRtpUtils.hpp at concrete payloads, and its theorems at inputs that meet their
-- hypotheses.
use booster_nx.Common.{
  ℕ, ◌+◌, ◌-◌, ◌%◌, ◌≤◌, ◌<◌, ◌≡◌, ◌⊎◌, refl, true, false, some, none, List, [], ◌∷◌, take, drop,
  arith,
}
use booster_nx.Common.Int.{pos, ◌+ℤ◌, ◌-ℤ◌, ◌*ℤ◌}
use booster_nx.Common.Word.{u32_mod}
use booster_nx.Audio.Rtp.{
  walk, parse_red_primary, parse_first_redundant, rtp_delta_to_us, rtp_timestamp_at_ntp,
  should_reset_epoch, audio_timeline_base,
}
use booster_nx.Audio.Rtp.Encode.{Block, encode_red}
use booster_nx.Audio.Rtp.Red.{parse_red_primary-encode_red, parse_first_redundant-encode_red}
use booster_nx.Audio.Rtp.Clock.{rtp_delta_to_us_forward, rtp_timestamp_at_ntp-rtp_delta_to_us}

abbrev lost_block : Block
lost_block = record { payload_type = 111; timestamp_offset = 480; content = 1 ∷ 2 ∷ 3 ∷ [] }

abbrev red_bytes : List ℕ
red_bytes = 239 ∷ 7 ∷ 128 ∷ 3 ∷ 111 ∷ 1 ∷ 2 ∷ 3 ∷ 8 ∷ 9 ∷ []

primary_found : parse_red_primary red_bytes 63 ≡ some (record { start = 8; size = 2; red = true })
unfolding parse_red_primary walk
primary_found = refl

redundant_found :
    parse_first_redundant red_bytes ≡ some (record { start = 5; size = 3; timestamp_offset = 480 })
unfolding parse_first_redundant walk
redundant_found = refl

cut_short : parse_red_primary (239 ∷ 7 ∷ 128 ∷ []) 63 ≡ none
unfolding parse_red_primary walk
cut_short = refl

silence_resets : should_reset_epoch 1000000 1500001 false 0 0 12 ≡ true
unfolding should_reset_epoch
silence_resets = refl

jump_resets : should_reset_epoch 1000000 1010000 true 65530 45 12 ≡ true
unfolding should_reset_epoch
jump_resets = refl

base_wraps : audio_timeline_base 100 480 ≡ 4294966916
unfolding audio_timeline_base
base_wraps = refl

parse_red_primary-encode_red_example :
    let bytes = encode_red (lost_block ∷ []) 111 (8 ∷ 9 ∷ []) in
    (parse_red_primary bytes 63 ≡ some (record { start = 8; size = 2; red = true }))
    × (take 2 (drop 8 bytes) ≡ 8 ∷ 9 ∷ [])
parse_red_primary-encode_red_example =
    parse_red_primary-encode_red (lost_block ∷ []) 111 (8 ∷ 9 ∷ []) (omega arith) (omega arith)
      (omega arith)

parse_first_redundant-encode_red_example :
    let bytes = encode_red (lost_block ∷ []) 111 (8 ∷ 9 ∷ []) in
    (parse_first_redundant bytes ≡ some (record { start = 5; size = 3; timestamp_offset = 480 }))
    × (take 3 (drop 5 bytes) ≡ 1 ∷ 2 ∷ 3 ∷ [])
parse_first_redundant-encode_red_example =
    parse_first_redundant-encode_red lost_block [] 111 (8 ∷ 9 ∷ []) (omega arith) tt (omega arith)
      (omega arith)

rtp_delta_to_us_forward_example : rtp_delta_to_us 380 4294967196 48000 ≡ pos 10000
rtp_delta_to_us_forward_example =
    rtp_delta_to_us_forward 4294967196 480 48000 (omega arith) (omega arith)

-- Behind the anchor the way back gains a tick.
gained :
    rtp_timestamp_at_ntp 1000 (pos 5000) (pos 5000 +ℤ rtp_delta_to_us 999 1000 90000) 90000 ≡ 1000
unfolding rtp_timestamp_at_ntp rtp_delta_to_us ◌+ℤ◌ ◌-ℤ◌ ◌*ℤ◌
gained = refl

rtp_timestamp_at_ntp-rtp_delta_to_us_example :
    let back =
      rtp_timestamp_at_ntp 1000 (pos 5000) (pos 5000 +ℤ rtp_delta_to_us 999 1000 90000) 90000 in
    let ahead = (999 + u32_mod - 1000) % u32_mod in
    (back ≡ 999)
    ⊎ (ahead < 2147483648) × ((back + 1) % u32_mod ≡ 999)
    ⊎ (2147483648 ≤ ahead) × (back ≡ (999 + 1) % u32_mod)
rtp_timestamp_at_ntp-rtp_delta_to_us_example =
    rtp_timestamp_at_ntp-rtp_delta_to_us 1000 999 (pos 5000) (omega arith) (omega arith)
