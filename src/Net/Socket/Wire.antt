-- ===== src/Net/Socket/Wire.antt =====
-- Frames as RFC 6455 lays them out (section 5.2), and masking as it defines it (5.3), independently
-- of app/src/WebSocketClient.cpp.
use Prim.Native.Nat.{bit_xor}
use booster_nx.Common.{
  ℕ, zero, suc, ◌+◌, ◌/◌, ◌%◌, ◌<◌, Option, none, some, List, [], ◌∷◌, ◌++◌, All, length, ltb,
  if◌then◌else◌,
}

pub record Key : Type 0 where
  pub k0 : ℕ
  pub k1 : ℕ
  pub k2 : ℕ
  pub k3 : ℕ

abbrev pub key_bytes : Key → List ℕ
key_bytes k = k.k0 ∷ k.k1 ∷ k.k2 ∷ k.k3 ∷ []

abbrev pub IsKey : Key → Type 0
IsKey k = (k.k0 < 256) × (k.k1 < 256) × (k.k2 < 256) × (k.k3 < 256)

abbrev pub AreBytes : List ℕ → Type 0
AreBytes = All (λ b. b < 256)

-- Each byte is masked by the key's first byte, and the key is rotated.
unfoldable pub cycle_mask : Key → List ℕ → List ℕ
cycle_mask k [] = []
cycle_mask k (b ∷ bs) =
    bit_xor b k.k0 ∷ cycle_mask (record { k0 = k.k1; k1 = k.k2; k2 = k.k3; k3 = k.k0 }) bs

-- `n` in `w` bytes, the high one first.
abbrev pub big_endian : ℕ → ℕ → List ℕ
big_endian zero n = []
big_endian (suc w) n = big_endian w (n / 256) ++ (n % 256 ∷ [])

-- The shortest of the three forms of the length, with the mask bit.
abbrev pub length_field : ℕ → ℕ → List ℕ
length_field mask_bit n =
    if ltb n 126
    then (mask_bit + n) ∷ []
    else (if ltb n 65536
        then (mask_bit + 126) ∷ big_endian 2 n
        else (mask_bit + 127) ∷ big_endian 8 n)

-- A whole frame by its first byte (FIN and opcode), its mask, if any, and its payload.
unfoldable pub wire_frame : ℕ → Option Key → List ℕ → List ℕ
wire_frame first none payload = first ∷ (length_field 0 (length payload) ++ payload)
wire_frame first (some k) payload =
    first ∷ (length_field 128 (length payload) ++ (key_bytes k ++ cycle_mask k payload))
