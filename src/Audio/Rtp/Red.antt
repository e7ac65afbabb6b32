-- ===== src/Audio/Rtp/Red.antt =====
-- The parsers of AudioRtpUtils.hpp on payloads as RFC 2198 writes them.
use booster_nx.Common.{
  ℕ, ◌+◌, ◌*◌, ◌<◌, ◌≡◌, true, some, List, ◌∷◌, length, drop, take, arith, take-length,
  length-append,
}
use booster_nx.Audio.Rtp.{parse_red_primary, parse_first_redundant}
use booster_nx.Audio.Rtp.Encode.{
  Block, IsBlock, AreBlocks, contents, encode_red, length-encode_red, walk-encode_red,
  drop-encode_red, take-drop-encode_red, first_header,
}

-- Of every RED packet with a primary block that is not empty, `ParseRedPrimary` finds the primary
-- block: its place, its size and the mark that it came from RED, and the bytes there are the
-- primary payload.
pub parse_red_primary-encode_red :
    (bs : List Block) (payload_type : ℕ) (primary : List ℕ)
    → AreBlocks bs
    → payload_type < 128
    → 0 < length primary
    → let start = 4 * length bs + 1 + length (contents bs) in
      let bytes = encode_red bs payload_type primary in
      (parse_red_primary bytes 63
        ≡ some (record { start = start; size = length primary; red = true }))
      × (take (length primary) (drop start bytes) ≡ primary)
unfolding parse_red_primary
parse_red_primary-encode_red bs payload_type primary v h p = (
  ground (
    arith,
    length-encode_red bs payload_type primary,
    walk-encode_red bs payload_type primary v h,
  ),
  rw (drop-encode_red bs payload_type primary) (take-length primary),
)

-- Of every RED packet whose first redundant block is not empty, `ParseFirstRedundant` finds that
-- block: its place, its size and its timestamp offset, and the bytes there are the block's.
pub parse_first_redundant-encode_red :
    (b : Block) (bs : List Block) (payload_type : ℕ) (primary : List ℕ)
    → IsBlock b
    → AreBlocks bs
    → payload_type < 128
    → 0 < length b.content
    → let bytes = encode_red (b ∷ bs) payload_type primary in
      (parse_first_redundant bytes
        ≡ some (record {
          start = 4 * length bs + 5;
          size = length b.content;
          timestamp_offset = b.timestamp_offset;
        }))
      × (take (length b.content) (drop (4 * length bs + 5) bytes) ≡ b.content)
unfolding parse_first_redundant
parse_first_redundant-encode_red b bs payload_type primary vb v h p = (
  ground (
    arith,
    length-encode_red (b ∷ bs) payload_type primary,
    walk-encode_red (b ∷ bs) payload_type primary (vb, v) h,
    first_header b bs payload_type primary,
    length-append b.content (contents bs),
  ),
  take-drop-encode_red b bs payload_type primary,
)
