-- ===== src/Audio/Rtp.antt =====
-- app/src/stream/audio/AudioRtpUtils.hpp: RED payloads (RFC 2198) and RTP clock arithmetic.
-- A payload is the list of its bytes, and a pointer into it is an offset. The null pointer that the
-- code tests for comes with size 0, so the empty list stands for it.
pub mod Walk
pub mod Encode
pub mod Red
pub mod Bounds
pub mod Clock
mod Tests
use booster_nx.Common.{
  ℕ, zero, suc, ◌+◌, ◌-◌, ◌*◌, ◌/◌, ◌%◌, Bool, true, false, ◌&&◌, ◌||◌, not, Option, none, some,
  List, [], ◌∷◌, length, get_or, ltb, leb, ◌==◌, if◌then◌else◌,
}
use booster_nx.Common.Int.{ℤ, pos, ◌+ℤ◌, ◌-ℤ◌, ◌*ℤ◌, div_ℤ, ltb_ℤ}
use booster_nx.Common.Word.{u32_mod, sub16, sub32, signed16, signed32, to_u32}

pub record ParsedPayload : Type 0 where
  pub start : ℕ
  pub size : ℕ
  pub red : Bool

pub record RedundantPayload : Type 0 where
  pub start : ℕ
  pub size : ℕ
  pub timestamp_offset : ℕ

-- `(b & 0x80) != 0`: another header follows.
abbrev pub has_more : ℕ → Bool
has_more b = b / 128 % 2 == 1

-- `((c & 0x03) << 8) | d`; the fields of the bytes `c` and `d` do not overlap.
abbrev pub block_length : ℕ → ℕ → ℕ
block_length c d = c % 4 * 256 + d

-- `uint16_t((uint16_t(b) << 6) | (c >> 2))`
abbrev pub block_offset : ℕ → ℕ → ℕ
block_offset b c = (b * 64 + c / 4) % 65536

-- The loop over the four-byte headers, over the bytes not yet passed. It carries `header` and
-- `redundant_bytes`, and gives `none` where a header is cut short.
pub walk : List ℕ → ℕ → ℕ → Option (ℕ × ℕ)
walk [] header redundant_bytes = some (header, redundant_bytes)
walk (a ∷ b ∷ c ∷ d ∷ rest) header redundant_bytes =
    if has_more a
    then walk rest (header + 4) (redundant_bytes + block_length c d)
    else some (header, redundant_bytes)
walk (a ∷ rest) header redundant_bytes = if has_more a then none else some (header, redundant_bytes)

-- The default value `{}` of the result is `none`.
redundant_at : ℕ → ℕ → ℕ → ℕ × ℕ → Option RedundantPayload
redundant_at size first_length timestamp_offset (header, _) =
    if leb size header
    then none
    else (if ltb size (header + 1 + first_length) || first_length == 0
        then none
        else some (record {
          start = header + 1;
          size = first_length;
          timestamp_offset = timestamp_offset;
        }))

pub parse_first_redundant : List ℕ → Option RedundantPayload
unfolding redundant_at
parse_first_redundant bytes =
    if ltb (length bytes) 5 || not (has_more (get_or bytes 0 0))
    then none
    else elim (walk bytes 0 0) [
      | none ↦ none
      | some w ↦
          redundant_at (length bytes) (block_length (get_or bytes 2 0) (get_or bytes 3 0))
            (block_offset (get_or bytes 1 0) (get_or bytes 2 0)) w
    ]

primary_at : ℕ → ℕ × ℕ → Option ParsedPayload
primary_at size (header, redundant_bytes) =
    if leb size header
    then none
    else (if leb size (header + 1 + redundant_bytes)
        then none
        else some (record {
          start = header + 1 + redundant_bytes;
          size = size - (header + 1) - redundant_bytes;
          red = true;
        }))

pub parse_red_primary : List ℕ → ℕ → Option ParsedPayload
unfolding primary_at
parse_red_primary bytes payload_type =
    if length bytes == 0
    then none
    else (if payload_type == 63
        then elim (walk bytes 0 0) [ none ↦ none | some w ↦ primary_at (length bytes) w ]
        else some (record { start = 0; size = length bytes; red = false }))

unfoldable pub rtp_delta_to_us : ℕ → ℕ → ℕ → ℤ
rtp_delta_to_us value anchor clock_rate =
    div_ℤ (signed32 (sub32 value anchor) *ℤ pos 1000000) clock_rate

pub audio_timeline_base : ℕ → ℕ → ℕ
audio_timeline_base first_packet_timestamp pre_roll_samples =
    sub32 first_packet_timestamp pre_roll_samples

unfoldable pub rtp_timestamp_at_ntp : ℕ → ℤ → ℤ → ℕ → ℕ
rtp_timestamp_at_ntp anchor_rtp anchor_ntp_us target_ntp_us clock_rate =
    (anchor_rtp + to_u32 (div_ℤ ((target_ntp_us -ℤ anchor_ntp_us) *ℤ pos clock_rate) 1000000))
    % u32_mod

unfoldable pub should_reset_epoch : ℕ → ℕ → Bool → ℕ → ℕ → ℕ → Bool
should_reset_epoch previous_arrival_us arrival_us have_expected expected_sequence sequence
      max_packets =
    if not (previous_arrival_us == 0)
      && (ltb previous_arrival_us arrival_us && ltb 500000 (arrival_us - previous_arrival_us))
    then true
    else have_expected
      && ltb_ℤ (pos (max_packets * 4)) (signed16 (sub16 sequence expected_sequence))
