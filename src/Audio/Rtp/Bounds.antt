-- ===== src/Audio/Rtp/Bounds.antt =====
-- The ranges of bytes that the parsers of AudioRtpUtils.hpp point to.
use booster_nx.Common.{ℕ, ◌+◌, ◌≤◌, ◌<◌, ◌≡◌, some, List, length, arith}
use booster_nx.Audio.Rtp.{ParsedPayload, RedundantPayload, parse_red_primary, parse_first_redundant}

-- What `ParseRedPrimary` returns lies within the packet and is not empty, for every input.
pub parse_red_primary_bounds :
    (bytes : List ℕ) (payload_type : ℕ) (p : ParsedPayload)
    → parse_red_primary bytes payload_type ≡ some p
    → (p.start + p.size ≤ length bytes) × (0 < p.size)
unfolding parse_red_primary
parse_red_primary_bounds bytes payload_type p e = ground arith

-- What `ParseFirstRedundant` returns lies within the packet and is not empty, for every input.
pub parse_first_redundant_bounds :
    (bytes : List ℕ) (p : RedundantPayload)
    → parse_first_redundant bytes ≡ some p
    → (p.start + p.size ≤ length bytes) × (0 < p.size)
unfolding parse_first_redundant
parse_first_redundant_bounds bytes p e = ground arith
