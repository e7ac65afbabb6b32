-- ===== src/Audio/Rtp/Walk.antt =====
-- The header loop as a recursion that starts anywhere.
use booster_nx.Common.{ℕ, ◌+◌, ◌≤◌, ◌≡◌, false, some, List, [], ◌∷◌, length, arith}
use booster_nx.Audio.Rtp.{has_more, block_length, walk}

-- The position stays within the bytes walked over.
pub walk-le :
    (bytes : List ℕ) (header redundant h r : ℕ)
    → walk bytes header redundant ≡ some (h, r)
    → (h ≤ header + length bytes) × (header ≤ h)
unfolding walk
walk-le [] header redundant h r e = ground arith
walk-le (a ∷ b ∷ c ∷ d ∷ rest) header redundant h r e =
    ground (arith, walk-le rest (header + 4) (redundant + block_length c d) h r)
walk-le (a ∷ rest) header redundant h r e = ground arith

pub walk_stop :
    (a : ℕ) (rest : List ℕ) (header redundant : ℕ)
    → has_more a ≡ false
    → walk (a ∷ rest) header redundant ≡ some (header, redundant)
unfolding walk
walk_stop a [] header redundant e = ground arith
walk_stop a (b ∷ []) header redundant e = ground arith
walk_stop a (b ∷ c ∷ []) header redundant e = ground arith
walk_stop a (b ∷ c ∷ d ∷ rest) header redundant e = ground arith
