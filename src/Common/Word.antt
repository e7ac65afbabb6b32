-- ===== src/Common/Word.antt =====
-- Machine words as native numbers: unsigned differences wrap, and a signed word is the integer that
-- the bit pattern stands for.
use booster_nx.Common.{ℕ, ◌+◌, ◌-◌, ◌%◌, Bool, ltb, if◌then◌else◌}
use booster_nx.Common.Int.{ℤ, pos, negsuc}

abbrev pub u16_mod : ℕ
u16_mod = 65536

abbrev pub u32_mod : ℕ
u32_mod = 4294967296

-- `uint16_t(a - b)` and `uint32_t(a - b)`.
abbrev pub sub16 : ℕ → ℕ → ℕ
sub16 a b = (a % u16_mod + u16_mod - b % u16_mod) % u16_mod

abbrev pub sub32 : ℕ → ℕ → ℕ
sub32 a b = (a % u32_mod + u32_mod - b % u32_mod) % u32_mod

-- `int16_t(w) < 0`.
abbrev pub is_negative16 : ℕ → Bool
is_negative16 w = ltb 32767 w

-- `int16_t(w)` and `int32_t(w)`.
abbrev pub signed16 : ℕ → ℤ
signed16 w = if ltb w 32768 then pos w else negsuc (65535 - w)

abbrev pub signed32 : ℕ → ℤ
signed32 w = if ltb w 2147483648 then pos w else negsuc (4294967295 - w)

-- `static_cast<uint32_t>` of a signed integer.
abbrev pub to_u32 : ℤ → ℕ
to_u32 (pos n) = n % u32_mod
to_u32 (negsuc n) = u32_mod - 1 - n % u32_mod
