-- ===== src/Net/Socket/Masking.antt =====
-- app/src/WebSocketClient.cpp: masking by index, beside masking by a rotating key.
use Prim.Native.Nat.{bit_xor}
use booster_nx.Common.{
  ℕ, ◌+◌, ◌%◌, ◌<◌, ◌≡◌, refl, ap, sym, ◌∙◌, ◌≤◌, List, [], ◌∷◌, length, get_or, arith, some,
}
use booster_nx.Common.Xor.{xor_twice}
use booster_nx.Net.Socket.{apply_mask, build_frame}
use booster_nx.Net.Socket.Wire.{Key, key_bytes, IsKey, AreBytes, cycle_mask, wire_frame}

pub length-cycle_mask : (k : Key) (bs : List ℕ) → length (cycle_mask k bs) ≡ length bs
unfolding cycle_mask
length-cycle_mask k [] = refl
length-cycle_mask k (b ∷ bs) =
    omega (arith, length-cycle_mask (record { k0 = k.k1; k1 = k.k2; k2 = k.k3; k3 = k.k0 }) bs)

-- The key bytes from index `i` on.
abbrev from_index : ℕ → Key → Key
from_index i k = record {
  k0 = get_or (key_bytes k) (i % 4) 0;
  k1 = get_or (key_bytes k) ((i + 1) % 4) 0;
  k2 = get_or (key_bytes k) ((i + 2) % 4) 0;
  k3 = get_or (key_bytes k) ((i + 3) % 4) 0;
}

from_index_step :
    (i : ℕ) (k : Key)
    → ◌≡◌ {A = Key}
        (record {
          k0 = (from_index i k).k1;
          k1 = (from_index i k).k2;
          k2 = (from_index i k).k3;
          k3 = (from_index i k).k0;
        })
        (from_index (i + 1) k)
from_index_step i k = cc (second, third, fourth)
  where
    second : (i + 2) % 4 ≡ (i + 1 + 1) % 4
    second = omega arith

    third : (i + 3) % 4 ≡ (i + 1 + 2) % 4
    third = omega arith

    fourth : i % 4 ≡ (i + 1 + 3) % 4
    fourth = omega arith

apply_mask-eq-cycle_mask :
    (i : ℕ) (k : Key) (bs : List ℕ) → apply_mask i (key_bytes k) bs ≡ cycle_mask (from_index i k) bs
unfolding apply_mask cycle_mask
apply_mask-eq-cycle_mask i k [] = refl
apply_mask-eq-cycle_mask i k (b ∷ bs) =
    ap (λ t. bit_xor b (get_or (key_bytes k) (i % 4) 0) ∷ t)
      (apply_mask-eq-cycle_mask (i + 1) k bs
        ∙ ap (λ j. cycle_mask j bs) (sym (from_index_step i k)))

pub apply_mask_zero : (k : Key) (bs : List ℕ) → apply_mask 0 (key_bytes k) bs ≡ cycle_mask k bs
apply_mask_zero k bs = apply_mask-eq-cycle_mask 0 k bs

pub cycle_mask_twice :
    (k : Key) (bs : List ℕ) → IsKey k → AreBytes bs → cycle_mask k (cycle_mask k bs) ≡ bs
unfolding cycle_mask
cycle_mask_twice k [] hk hb = refl
cycle_mask_twice k (b ∷ bs) hk hb = cc (
  xor_twice b k.k0 hb.0 hk.0,
  cycle_mask_twice (record { k0 = k.k1; k1 = k.k2; k2 = k.k3; k3 = k.k0 }) bs
      (hk.1, hk.2, hk.3, hk.0) hb.1,
)

-- What `send_frame` builds is the masked, final frame of RFC 6455 for its opcode and payload.
pub build_frame-eq-wire_frame :
    (opcode : ℕ) (k : Key) (payload : List ℕ)
    → 128 ≤ opcode
    → opcode < 256
    → length payload < 18446744073709551616
    → build_frame opcode (key_bytes k) payload ≡ wire_frame opcode (some k) payload
unfolding build_frame wire_frame
build_frame-eq-wire_frame opcode k payload lo hi short =
    rw (apply_mask_zero k payload) (ground arith)
