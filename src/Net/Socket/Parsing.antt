-- ===== src/Net/Socket/Parsing.antt =====
-- app/src/WebSocketClient.cpp: the parser of `poll` on frames as RFC 6455 writes them.
use mathlib.Core.List.{append_assoc}
use booster_nx.Common.{
  ℕ, ◌+◌, ◌-◌, ◌*◌, ◌%◌, ◌<◌, ◌≡◌, refl, ◌∙◌, Bool, true, false, Option, none, some, List, [], ◌∷◌,
  ◌++◌, length, take, drop, length-append, drop_front, take_front, ltb, arith, Bool-cases, inl, inr,
}
use booster_nx.Net.Socket.{frame, size_mod, split_frame, parse_frame, apply_mask, unmask}
use booster_nx.Net.Socket.Wire.{
  Key, key_bytes, IsKey, AreBytes, cycle_mask, wire_frame, length_field,
}
use booster_nx.Net.Socket.Masking.{length-cycle_mask, apply_mask_zero, cycle_mask_twice}

split_frame_lem :
    (pre body rest : List ℕ) (opcode : ℕ) (masked : Bool) (header n : ℕ)
    → header ≡ length pre
    → n ≡ length body
    → header + n < size_mod
    → split_frame (pre ++ (body ++ rest)) opcode masked header n
      ≡ frame opcode (unmask masked (take 4 (drop (header - 4) (pre ++ (body ++ rest)))) body) rest
unfolding split_frame
split_frame_lem pre body rest opcode masked header n eh en small = ground (
  arith,
  length-append pre (body ++ rest),
  length-append body rest,
  drop_front header pre (body ++ rest) eh,
  take_front n body rest en,
  dropped,
)
  where
    dropped : drop (header + n) (pre ++ (body ++ rest)) ≡ rest
    dropped =
        rw (← append_assoc pre body rest)
          (drop_front (header + n) (pre ++ body) rest (omega (arith, length-append pre body)))

abbrev pub IsMask : Option Key → Type 0
IsMask none = Unit {0}
IsMask (some k) = IsKey k

abbrev mask_bytes : Option Key → List ℕ
mask_bytes none = []
mask_bytes (some k) = key_bytes k

abbrev mask_bit : Option Key → ℕ
mask_bit none = 0
mask_bit (some k) = 128

-- What a parser makes of a body that is still masked.
abbrev reveal : Option Key → List ℕ → List ℕ
reveal none body = body
reveal (some k) body = apply_mask 0 (key_bytes k) body

parse_short :
    (first : ℕ) (mask : Option Key) (body rest : List ℕ)
    → length body < 126
    → parse_frame (first ∷ (mask_bit mask + length body) ∷ (mask_bytes mask ++ (body ++ rest)))
      ≡ frame (first % 16) (reveal mask body) rest
unfolding parse_frame
parse_short first none body rest h = ground (
  arith,
  split_frame_lem (first ∷ (0 + length body) ∷ []) body rest (first % 16) false 2 (length body) refl
      refl,
)
parse_short first (some k) body rest h = ground (
  arith,
  split_frame_lem (first ∷ (128 + length body) ∷ key_bytes k) body rest (first % 16) true 6
      (length body) refl refl,
)

parse_medium :
    (first h l : ℕ) (mask : Option Key) (body rest : List ℕ)
    → length body ≡ h * 256 + l
    → length body < 65536
    → parse_frame (first ∷ (mask_bit mask + 126) ∷ h ∷ l ∷ (mask_bytes mask ++ (body ++ rest)))
      ≡ frame (first % 16) (reveal mask body) rest
unfolding parse_frame
parse_medium first h l none body rest e small = ground (
  arith,
  split_frame_lem (first ∷ 126 ∷ h ∷ l ∷ []) body rest (first % 16) false 4 (h * 256 + l) refl,
)
parse_medium first h l (some k) body rest e small = ground (
  arith,
  split_frame_lem (first ∷ 254 ∷ h ∷ l ∷ key_bytes k) body rest (first % 16) true 8 (h * 256 + l)
      refl,
)

-- `a` to `h` are the eight bytes of the length.
parse_long :
    (first a b c d e f g h : ℕ) (mask : Option Key) (body rest : List ℕ)
    → a * 72057594037927936
        + b * 281474976710656
        + c * 1099511627776
        + d * 4294967296
        + e * 16777216
        + f * 65536
        + g * 256
        + h
      ≡ length body
    → length body + 14 < size_mod
    → parse_frame (
        first
        ∷ (mask_bit mask + 127)
        ∷ a
        ∷ b
        ∷ c
        ∷ d
        ∷ e
        ∷ f
        ∷ g
        ∷ h
        ∷ (mask_bytes mask ++ (body ++ rest)))
      ≡ frame (first % 16) (reveal mask body) rest
unfolding parse_frame
parse_long first a b c d e f g h none body rest sum small = ground (
  arith,
  split_frame_lem (first ∷ 127 ∷ a ∷ b ∷ c ∷ d ∷ e ∷ f ∷ g ∷ h ∷ []) body rest (first % 16) false 10
      (a * 72057594037927936
        + b * 281474976710656
        + c * 1099511627776
        + d * 4294967296
        + e * 16777216
        + f * 65536
        + g * 256
        + h)
      refl,
)
parse_long first a b c d e f g h (some k) body rest sum small = ground (
  arith,
  split_frame_lem (first ∷ 255 ∷ a ∷ b ∷ c ∷ d ∷ e ∷ f ∷ g ∷ h ∷ key_bytes k) body rest (first % 16)
      true 14
      (a * 72057594037927936
        + b * 281474976710656
        + c * 1099511627776
        + d * 4294967296
        + e * 16777216
        + f * 65536
        + g * 256
        + h)
      refl,
)

parse_any :
    (first : ℕ) (mask : Option Key) (body rest : List ℕ)
    → length body + 14 < size_mod
    → parse_frame (
        first ∷ (length_field (mask_bit mask) (length body) ++ (mask_bytes mask ++ (body ++ rest))))
      ≡ frame (first % 16) (reveal mask body) rest
parse_any first mask body rest small = elim (Bool-cases (ltb (length body) 126)) [
  | inl short ↦ rw short (parse_short first mask body rest (ground arith))
  | inr long ↦ rw long (elim (Bool-cases (ltb (length body) 65536)) [
    | inl medium ↦ rw medium (parse_medium first _ _ mask body rest (ground arith) (ground arith))
    | inr huge ↦ rw huge (parse_long first _ _ _ _ _ _ _ _ mask body rest (ground arith) small)
  ])
]

-- A whole frame of RFC 6455, masked or not, with any of the three forms of its length, is parsed to
-- its opcode and its unmasked payload, and the bytes behind it stay.
pub parse_frame-wire_frame :
    (first : ℕ) (mask : Option Key) (payload rest : List ℕ)
    → IsMask mask
    → AreBytes payload
    → length payload + 14 < size_mod
    → parse_frame (wire_frame first mask payload ++ rest) ≡ frame (first % 16) payload rest
unfolding wire_frame
parse_frame-wire_frame first none payload rest hm hb short =
    rw (append_assoc (length_field 0 (length payload)) payload rest)
      (parse_any first none payload rest short)
parse_frame-wire_frame first (some k) payload rest hm hb short =
    let same = length-cycle_mask k payload in
    let opened : apply_mask 0 (key_bytes k) (cycle_mask k payload) ≡ payload =
      apply_mask_zero k (cycle_mask k payload) ∙ cycle_mask_twice k payload hm hb in
    rw (append_assoc (length_field 128 (length payload)) (key_bytes k ++ cycle_mask k payload) rest)
      (rw (same, opened) at
        (parse_any first (some k) (cycle_mask k payload) rest (omega (arith, same))))
