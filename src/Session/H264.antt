-- ===== src/Session/H264.antt =====
-- app/src/webrtc/shared.cpp: `ContainsH264Idr`.
mod Tests
use booster_nx.Common.{
  ℕ, zero, suc, ◌+◌, ◌%◌, ◌≤◌, ◌≡◌, refl, ap, sym, ◌∙◌, ◌↔◌, ◌⊎◌, Bool, true, false, ◌&&◌, ◌||◌,
  List, [], ◌∷◌, length, leb, ◌==◌, ==_iff, arith, Bool-cases, inl, inr, if◌then◌else◌,
}

-- `(header & 0x1f) == 5`: an IDR slice.
abbrev pub is_idr_header : ℕ → Bool
is_idr_header h = h % 32 == 5

-- One round of the loop, at the bytes from `i` on: a start code of three bytes or of four.
unfoldable pub idr_at : List ℕ → Bool
idr_at (a ∷ b ∷ c ∷ d ∷ e ∷ bs) =
    if (a == 0) && (b == 0) && (c == 1)
    then is_idr_header d
    else ((a == 0) && (b == 0) && (c == 0) && (d == 1) && is_idr_header e)
idr_at bs = false

-- `i + 4 < size` is that four bytes come behind the one at `i`.
unfoldable pub contains_idr : List ℕ → Bool
contains_idr [] = false
contains_idr (b ∷ bs) =
    let rest = contains_idr bs in if leb 4 (length bs) then idr_at (b ∷ bs) || rest else false

-- Annex B: an IDR slice with at least one byte of content, behind the start code 0 0 1. (The start
-- code of four bytes ends in that of three.)
pub data HasIdr : List ℕ → Type 0 where
  slice :
      (header first : ℕ) (bs : List ℕ) → header % 32 ≡ 5 → HasIdr (0 ∷ 0 ∷ 1 ∷ header ∷ first ∷ bs)
  skip : (b : ℕ) (bs : List ℕ) → HasIdr bs → HasIdr (b ∷ bs)

-- The unit ends in 0 0 0 1 and the header of an IDR slice.
pub data EndsInHeader : List ℕ → Type 0 where
  bare : (header : ℕ) → header % 32 ≡ 5 → EndsInHeader (0 ∷ 0 ∷ 0 ∷ 1 ∷ header ∷ [])
  skip : (b : ℕ) (bs : List ℕ) → EndsInHeader bs → EndsInHeader (b ∷ bs)

-- What the scan sees, by its two start codes.
data IsSeen : List ℕ → Type 0 where
  short_code : (h b : ℕ) (bs : List ℕ) → h % 32 ≡ 5 → IsSeen (0 ∷ 0 ∷ 1 ∷ h ∷ b ∷ bs)
  long_code : (h : ℕ) (bs : List ℕ) → h % 32 ≡ 5 → IsSeen (0 ∷ 0 ∷ 0 ∷ 1 ∷ h ∷ bs)
  later : (b : ℕ) (bs : List ℕ) → IsSeen bs → IsSeen (b ∷ bs)

IsSeen-long : (bs : List ℕ) → IsSeen bs → 5 ≤ length bs
IsSeen-long _ (short_code h b bs e) = omega arith
IsSeen-long _ (long_code h bs e) = omega arith
IsSeen-long _ (later b bs i) = omega (arith, IsSeen-long bs i)

found : (bs : List ℕ) → IsSeen bs → contains_idr bs ≡ true
unfolding contains_idr idr_at
found _ (short_code h b bs e) = ground arith
found _ (long_code h bs e) = ground arith
found _ (later b bs i) = ground (arith, found bs i, IsSeen-long bs i)

seen : (bs : List ℕ) → idr_at bs ≡ true → IsSeen bs
unfolding idr_at
seen [] h = absurd (ground (arith, h))
seen (a ∷ []) h = absurd (ground (arith, h))
seen (a ∷ b ∷ []) h = absurd (ground (arith, h))
seen (a ∷ b ∷ c ∷ []) h = absurd (ground (arith, h))
seen (a ∷ b ∷ c ∷ d ∷ []) h = absurd (ground (arith, h))
seen (a ∷ b ∷ c ∷ d ∷ e ∷ bs) h = elim (Bool-cases ((a == 0) && (b == 0) && (c == 1))) [
  | inl t ↦
      let za : a ≡ 0 = ground (arith, t) in
      let zb : b ≡ 0 = ground (arith, t) in
      let oc : c ≡ 1 = ground (arith, t) in
      rw (za, zb, oc) (short_code d e bs (ground (arith, t, h)))
  | inr f ↦
      let za : a ≡ 0 = ground (arith, f, h) in
      let zb : b ≡ 0 = ground (arith, f, h) in
      let zc : c ≡ 0 = ground (arith, f, h) in
      let od : d ≡ 1 = ground (arith, f, h) in
      rw (za, zb, zc, od) (long_code e bs (ground (arith, f, h)))
]

there : (bs : List ℕ) → contains_idr bs ≡ true → IsSeen bs
unfolding contains_idr
there [] h = absurd (ground (arith, h))
there (b ∷ bs) h = elim (Bool-cases (idr_at (b ∷ bs))) [
  | inl t ↦ seen (b ∷ bs) t
  | inr f ↦ later b bs (there bs (ground (arith, f, h)))
]

seen_of_slice : (bs : List ℕ) → HasIdr bs → IsSeen bs
seen_of_slice _ (HasIdr.slice h b bs e) = short_code h b bs e
seen_of_slice _ (HasIdr.skip b bs i) = later b bs (seen_of_slice bs i)

seen_of_header : (bs : List ℕ) → EndsInHeader bs → IsSeen bs
seen_of_header _ (EndsInHeader.bare h e) = long_code h [] e
seen_of_header _ (EndsInHeader.skip b bs i) = later b bs (seen_of_header bs i)

skip_either :
    (b : ℕ) (bs : List ℕ) → HasIdr bs ⊎ EndsInHeader bs → HasIdr (b ∷ bs) ⊎ EndsInHeader (b ∷ bs)
skip_either b bs (inl i) = inl (HasIdr.skip b bs i)
skip_either b bs (inr i) = inr (EndsInHeader.skip b bs i)

slice_or_header : (bs : List ℕ) → IsSeen bs → HasIdr bs ⊎ EndsInHeader bs
slice_or_header _ (short_code h b bs e) = inl (HasIdr.slice h b bs e)
slice_or_header _ (long_code h [] e) = inr (EndsInHeader.bare h e)
slice_or_header _ (long_code h (b ∷ bs) e) = inl (HasIdr.skip 0 _ (HasIdr.slice h b bs e))
slice_or_header _ (later b bs i) = skip_either b bs (slice_or_header bs i)

-- The scan answers true exactly where an IDR slice with at least one byte behind its header stands
-- behind the start code 0 0 1 in the access unit, or where the unit ends in 0 0 0 1 and the header of
-- an IDR slice. A header that ends the unit behind 0 0 1 alone is not seen.
pub contains_idr_iff : (bs : List ℕ) → (contains_idr bs ≡ true) ↔ (HasIdr bs ⊎ EndsInHeader bs)
contains_idr_iff bs = (
  λ e. slice_or_header bs (there bs e),
  λ i. elim i [ inl s ↦ found bs (seen_of_slice bs s) | inr h ↦ found bs (seen_of_header bs h) ],
)
