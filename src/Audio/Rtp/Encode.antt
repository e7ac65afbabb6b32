-- ===== src/Audio/Rtp/Encode.antt =====
-- RED payloads as RFC 2198 lays them out: four-byte headers of the redundant blocks, a one-byte
-- header of the primary block, then the blocks' data in order, the primary last. It describes the
-- wire format independently of the parsers of app/src/stream/audio/AudioRtpUtils.hpp.
use mathlib.Core.List.{append_assoc}
use booster_nx.Common.{
  ℕ, ◌+◌, ◌*◌, ◌/◌, ◌%◌, ◌<◌, ◌≡◌, refl, some, List, [], ◌∷◌, ◌++◌, length, take, drop, get_or,
  length-append, drop_front, take-append, arith,
}
use booster_nx.Audio.Rtp.{block_length, walk}
use booster_nx.Audio.Rtp.Walk.{walk_stop}

pub record Block : Type 0 where
  pub payload_type : ℕ
  pub timestamp_offset : ℕ
  pub content : List ℕ

abbrev pub IsBlock : Block → Type 0
IsBlock b = (b.payload_type < 128) × (b.timestamp_offset < 16384) × (length b.content < 1024)

abbrev pub AreBlocks : List Block → Type 0
AreBlocks [] = Unit {0}
AreBlocks (b ∷ bs) = IsBlock b × AreBlocks bs

abbrev pub headers : List Block → List ℕ
headers [] = []
headers (b ∷ bs) =
    (128 + b.payload_type)
    ∷ (b.timestamp_offset / 64)
    ∷ (b.timestamp_offset % 64 * 4 + length b.content / 256)
    ∷ (length b.content % 256)
    ∷ headers bs

abbrev pub contents : List Block → List ℕ
contents [] = []
contents (b ∷ bs) = b.content ++ contents bs

pub encode_red : List Block → ℕ → List ℕ → List ℕ
encode_red bs payload_type primary = headers bs ++ (payload_type ∷ (contents bs ++ primary))

pub length-headers : (bs : List Block) → length (headers bs) ≡ 4 * length bs
length-headers [] = refl
length-headers (b ∷ bs) = omega (arith, length-headers bs)

pub walk-headers :
    (bs : List Block) (payload_type : ℕ) (rest : List ℕ) (header redundant : ℕ)
    → AreBlocks bs
    → payload_type < 128
    → walk (headers bs ++ (payload_type ∷ rest)) header redundant
      ≡ some (header + 4 * length bs, redundant + length (contents bs))
unfolding walk
walk-headers [] payload_type rest header redundant v h =
    ground (arith, walk_stop payload_type rest header redundant)
walk-headers (b ∷ bs) payload_type rest header redundant v h = ground (
  arith,
  length-append b.content (contents bs),
  walk-headers bs payload_type rest (header + 4)
      (redundant
        + block_length (b.timestamp_offset % 64 * 4 + length b.content / 256)
            (length b.content % 256))
      v.1 h,
)

pub length-encode_red :
    (bs : List Block) (payload_type : ℕ) (primary : List ℕ)
    → length (encode_red bs payload_type primary)
      ≡ 4 * length bs + 1 + length (contents bs) + length primary
unfolding encode_red
length-encode_red bs payload_type primary = omega (
  arith,
  length-headers bs,
  length-append (headers bs) (payload_type ∷ (contents bs ++ primary)),
  length-append (contents bs) primary,
)

pub walk-encode_red :
    (bs : List Block) (payload_type : ℕ) (primary : List ℕ)
    → AreBlocks bs
    → payload_type < 128
    → walk (encode_red bs payload_type primary) 0 0 ≡ some (4 * length bs, length (contents bs))
unfolding encode_red
walk-encode_red bs payload_type primary v h =
    ground (arith, walk-headers bs payload_type (contents bs ++ primary) 0 0 v h)

-- Where the primary block and the first redundant block start.
pub drop-encode_red :
    (bs : List Block) (payload_type : ℕ) (primary : List ℕ)
    → drop (4 * length bs + 1 + length (contents bs)) (encode_red bs payload_type primary) ≡ primary
unfolding encode_red
drop-encode_red bs payload_type primary =
    rw (← append_assoc (headers bs) (payload_type ∷ contents bs) primary) (
      drop_front _ (headers bs ++ (payload_type ∷ contents bs)) primary
        (omega (arith, length-headers bs, length-append (headers bs) (payload_type ∷ contents bs))))

pub take-drop-encode_red :
    (b : Block) (bs : List Block) (payload_type : ℕ) (primary : List ℕ)
    → take (length b.content) (drop (4 * length bs + 5) (encode_red (b ∷ bs) payload_type primary))
      ≡ b.content
unfolding encode_red
take-drop-encode_red b bs payload_type primary =
    rw
      (
        ← append_assoc (headers (b ∷ bs)) (payload_type ∷ []) (contents (b ∷ bs) ++ primary),
        drop_front (4 * length bs + 5) (headers (b ∷ bs) ++ (payload_type ∷ []))
            (contents (b ∷ bs) ++ primary)
            (omega (
              arith,
              length-headers (b ∷ bs),
              length-append (headers (b ∷ bs)) (payload_type ∷ []),
            )),
        append_assoc b.content (contents bs) primary,
      )
      (take-append b.content (contents bs ++ primary))

-- The first header, read back by position.
pub first_header :
    (b : Block) (bs : List Block) (payload_type : ℕ) (primary : List ℕ)
    → let bytes = encode_red (b ∷ bs) payload_type primary in
      (get_or bytes 0 0 ≡ 128 + b.payload_type)
      × (get_or bytes 1 0 ≡ b.timestamp_offset / 64)
      × (get_or bytes 2 0 ≡ b.timestamp_offset % 64 * 4 + length b.content / 256)
      × (get_or bytes 3 0 ≡ length b.content % 256)
unfolding encode_red
first_header b bs payload_type primary = (refl, refl, refl, refl)
