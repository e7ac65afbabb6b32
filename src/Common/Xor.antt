-- ===== src/Common/Xor.antt =====
-- Masking a byte twice with one key byte, by a table of all bytes and keys.
use Prim.Native.Nat.{bit_xor}
use booster_nx.Common.{ℕ, zero, suc, ◌<◌, ◌≡◌, refl, Bool, true, false, arith, ◌==◌, if◌then◌else◌}

keys_fit : ℕ → ℕ → Bool
keys_fit byte zero = true
keys_fit byte (suc key) =
    if bit_xor (bit_xor byte key) key == byte then keys_fit byte key else false

bytes_fit : ℕ → Bool
bytes_fit zero = true
bytes_fit (suc byte) = if keys_fit byte 256 then bytes_fit byte else false

key_fits :
    (byte key count : ℕ)
    → key < count
    → keys_fit byte count ≡ true
    → bit_xor (bit_xor byte key) key ≡ byte
unfolding keys_fit
key_fits byte key zero small fit = absurd (omega arith)
key_fits byte key (suc count) small fit = ground (arith, key_fits byte key count)

byte_fits : (byte count : ℕ) → byte < count → bytes_fit count ≡ true → keys_fit byte 256 ≡ true
unfolding bytes_fit
byte_fits byte zero small fit = absurd (omega arith)
byte_fits byte (suc count) small fit = ground (arith, byte_fits byte count)

all_fit : bytes_fit 256 ≡ true
unfolding bytes_fit keys_fit
all_fit = refl

-- A byte masked twice with the same key byte is the byte.
pub xor_twice : (x k : ℕ) → x < 256 → k < 256 → bit_xor (bit_xor x k) k ≡ x
xor_twice x k hx hk = key_fits x k 256 hk (byte_fits x 256 hx all_fit)
