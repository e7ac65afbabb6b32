-- ===== src/Net/Socket/Stable.antt =====
-- app/src/WebSocketClient.cpp: the parser of `poll` with more bytes behind those it has.
use booster_nx.Common.{
  ℕ, ◌+◌, ◌-◌, ◌%◌, ◌≤◌, ◌<◌, ◌≡◌, refl, Bool, true, false, List, ◌++◌, length, drop, get_or,
  length-append, length-drop, get_or-append, take-append_le, drop-append_le, ltb, ◌==◌, arith,
  Bool-cases, inl, inr, if◌then◌else◌,
}
use booster_nx.Net.Socket.{
  Parse, frame, need_more, too_large, size_mod, split_frame, parse_frame, parse_length, big_length,
  with_mask, is_masked,
}

-- A result keeps its sense when more bytes come, and a frame leaves a shorter buffer.
abbrev pub Stable : List ℕ → List ℕ → Parse → Parse → Type 0
Stable bytes ys need_more q = Unit {0}
Stable bytes ys (frame op payload rest) q =
    (q ≡ frame op payload (rest ++ ys)) × (length rest + 2 ≤ length bytes)
Stable bytes ys p q = (q ≡ p) × (2 ≤ length bytes)

split_frame-Stable :
    (bytes ys : List ℕ) (opcode : ℕ) (masked : Bool) (header n : ℕ)
    → (if masked then 6 else 2) ≤ header
    → length bytes + length ys < size_mod
    → 2 ≤ length bytes
    → Stable bytes ys
        (split_frame bytes opcode masked header n)
        (split_frame (bytes ++ ys) opcode masked header n)
unfolding split_frame
split_frame-Stable bytes ys opcode false header n h small two = ground (
  arith,
  length-append bytes ys,
  length-drop (header + n) bytes,
  drop-append_le header bytes ys,
  drop-append_le (header + n) bytes ys,
  length-drop header bytes,
  take-append_le n (drop header bytes) ys,
)
split_frame-Stable bytes ys opcode true header n h small two = ground (
  arith,
  length-append bytes ys,
  length-drop (header + n) bytes,
  drop-append_le header bytes ys,
  drop-append_le (header + n) bytes ys,
  drop-append_le (header - 4) bytes ys,
  length-drop header bytes,
  length-drop (header - 4) bytes,
  take-append_le n (drop header bytes) ys,
  take-append_le 4 (drop (header - 4) bytes) ys,
)

-- A test of the length that fails still fails with more bytes.
ltb-append :
    (bytes ys : List ℕ) (n : ℕ)
    → ltb (length bytes) n ≡ false
    → ltb (length (bytes ++ ys)) n ≡ false
ltb-append bytes ys n e = ground (arith, length-append bytes ys)

front :
    (bytes ys : List ℕ) (i n : ℕ)
    → ltb (length bytes) n ≡ false
    → i < n
    → get_or (bytes ++ ys) i 0 ≡ get_or bytes i 0
front bytes ys i n e h = get_or-append bytes ys i 0 (ground arith)

big_length-append :
    (bytes ys : List ℕ)
    → ltb (length bytes) 10 ≡ false
    → big_length (bytes ++ ys) ≡ big_length bytes
big_length-append bytes ys e = omega (
  arith,
  front bytes ys 2 10 e,
  front bytes ys 3 10 e,
  front bytes ys 4 10 e,
  front bytes ys 5 10 e,
  front bytes ys 6 10 e,
  front bytes ys 7 10 e,
  front bytes ys 8 10 e,
  front bytes ys 9 10 e,
)

with_mask-le : (masked : Bool) (h : ℕ) → 2 ≤ h → (if masked then 6 else 2) ≤ with_mask masked h
with_mask-le masked h two = ground arith

parse_big-Stable :
    (bytes ys : List ℕ) (opcode : ℕ) (masked : Bool) (n : ℕ)
    → length bytes + length ys < size_mod
    → 2 ≤ length bytes
    → Stable bytes ys
        (if ltb (size_mod - 1) n
          then too_large
          else split_frame bytes opcode masked (with_mask masked 10) n)
        (if ltb (size_mod - 1) n
          then too_large
          else split_frame (bytes ++ ys) opcode masked (with_mask masked 10) n)
parse_big-Stable bytes ys opcode masked n small two = elim (Bool-cases (ltb (size_mod - 1) n)) [
  | inl e ↦ rw e (refl, two)
  | inr e ↦ rw e (
      split_frame-Stable bytes ys opcode masked (with_mask masked 10) n
        (with_mask-le masked 10 (omega arith)) small two)
]

parse_length-Stable :
    (bytes ys : List ℕ) (opcode : ℕ) (masked : Bool) (len7 : ℕ)
    → length bytes + length ys < size_mod
    → 2 ≤ length bytes
    → Stable bytes ys
        (parse_length bytes opcode masked len7)
        (parse_length (bytes ++ ys) opcode masked len7)
parse_length-Stable bytes ys opcode masked len7 small two = elim (Bool-cases (len7 == 126)) [
  | inl e ↦ rw e (elim (Bool-cases (ltb (length bytes) 4)) [
    | inl f ↦ rw f tt
    | inr f ↦
        rw
          (
            f,
            ltb-append bytes ys 4 f,
            front bytes ys 2 4 f (omega arith),
            front bytes ys 3 4 f (omega arith),
          )
          (split_frame-Stable bytes ys opcode masked (with_mask masked 4) _
            (with_mask-le masked 4 (omega arith)) small two)
  ])
  | inr e ↦ rw e (elim (Bool-cases (len7 == 127)) [
    | inl g ↦ rw g (elim (Bool-cases (ltb (length bytes) 10)) [
      | inl f ↦ rw f tt
      | inr f ↦
          rw (f, ltb-append bytes ys 10 f, big_length-append bytes ys f)
            (parse_big-Stable bytes ys opcode masked (big_length bytes) small two)
    ])
    | inr g ↦ rw g (
        split_frame-Stable bytes ys opcode masked (with_mask masked 2) len7
          (with_mask-le masked 2 (omega arith)) small two)
  ])
]

pub parse_frame-Stable :
    (bytes ys : List ℕ)
    → length bytes + length ys < size_mod
    → Stable bytes ys (parse_frame bytes) (parse_frame (bytes ++ ys))
unfolding parse_frame
parse_frame-Stable bytes ys small = elim (Bool-cases (ltb (length bytes) 2)) [
  | inl f ↦ rw f tt
  | inr f ↦
      rw
        (
          f,
          ltb-append bytes ys 2 f,
          front bytes ys 0 2 f (omega arith),
          front bytes ys 1 2 f (omega arith),
        )
        (parse_length-Stable bytes ys (get_or bytes 0 0 % 16) (is_masked (get_or bytes 1 0))
          (get_or bytes 1 0 % 128) small (ground arith))
]
