-- ===== src/Common/Dict.antt =====
-- Maps keyed by texts, as lists of entries. A map is searched from the front; `insert` replaces the
-- entry of its key, and `erase` removes it.
use Prim.Native.String.{String}
use text.Mathlib.Text.{◌==◌ as str_eq}
use text.Mathlib.TextEquality.{eq_iff}
use booster_nx.Common.{
  ◌≡◌, refl, ◌≢◌, Bool, true, false, ◌||◌, Option, none, some, List, [], ◌∷◌, arith, Bool-cases,
  if◌then◌else◌, inl, inr,
}

abbrev pub same : String → String → Bool
same a b = str_eq a b

pub same_iff : (a b : String) → ((same a b ≡ true) → a ≡ b) × (a ≡ b → same a b ≡ true)
same_iff a b = ((eq_iff a b).0, (eq_iff a b).1)

pub same_self : (a : String) → same a a ≡ true
same_self a = (eq_iff a a).1 refl

pub same_ne : (a b : String) → a ≢ b → same a b ≡ false
same_ne a b h = ground (arith, eq_iff a b)

module _ {ℓ} {V : Type ℓ} where
  unfoldable pub lookup : String → List (String × V) → Option V
  lookup wanted [] = none
  lookup wanted ((key, value) ∷ rest) = if same key wanted then some value else lookup wanted rest

  unfoldable pub insert : String → V → List (String × V) → List (String × V)
  insert key value [] = (key, value) ∷ []
  insert key value ((k, old) ∷ rest) =
      if same k key then (key, value) ∷ rest else (k, old) ∷ insert key value rest

  unfoldable pub erase : String → List (String × V) → List (String × V)
  erase k [] = []
  erase k ((j, w) ∷ m) = if same j k then m else (j, w) ∷ erase k m

  abbrev pub found : String → List (String × V) → Bool
  found k [] = false
  found k ((j, v) ∷ m) = same j k || found k m

  pub lookup-insert :
      (key wanted : String) (value : V) (entries : List (String × V))
      → lookup wanted (insert key value entries)
        ≡ (if same key wanted then some value else lookup wanted entries)
  unfolding lookup insert
  lookup-insert key wanted value [] = refl
  lookup-insert key wanted value ((i, old) ∷ rest) =
      ground (
        arith,
        lookup-insert key wanted value rest,
        eq_iff i wanted,
        eq_iff i key,
        eq_iff key wanted,
      )

  pub lookup-erase_ne :
      (k j : String) (m : List (String × V)) → k ≢ j → lookup j (erase k m) ≡ lookup j m
  unfolding lookup erase
  lookup-erase_ne k j [] h = refl
  lookup-erase_ne k j ((i, w) ∷ m) h =
      ground (arith, eq_iff k j, eq_iff i k, eq_iff i j, lookup-erase_ne k j m h)

  -- A map in which nothing is found is empty.
  pub eq-nil_of_none : (m : List (String × V)) → ((k : String) → lookup k m ≡ none) → m ≡ []
  unfolding lookup
  eq-nil_of_none [] h = refl
  eq-nil_of_none ((j, v) ∷ m) h = absurd (ground (arith, h j, same_self j))

  -- No key has two entries.
  abbrev pub HasOneEach : List (String × V) → Type 0
  HasOneEach [] = Unit {0}
  HasOneEach ((k, v) ∷ m) = (found k m ≡ false) × HasOneEach m

  found_of_lookup : (k : String) (m : List (String × V)) → found k m ≡ false → lookup k m ≡ none
  unfolding lookup
  found_of_lookup k [] h = refl
  found_of_lookup k ((j, v) ∷ m) h = ground (arith, h, found_of_lookup k m)

  found-insert :
      (j k : String) (v : V) (m : List (String × V))
      → found j m ≡ false
      → same k j ≡ false
      → found j (insert k v m) ≡ false
  unfolding insert
  found-insert j k v [] h ne = ground (arith, ne)
  found-insert j k v ((i, w) ∷ m) h ne = elim (Bool-cases (same i k)) [
    | inl mine ↦ rw mine (ground (arith, h, ne))
    | inr other ↦ rw other (ground (arith, h, found-insert j k v m))
  ]

  pub insert-HasOneEach :
      (k : String) (v : V) (m : List (String × V)) → HasOneEach m → HasOneEach (insert k v m)
  unfolding insert
  insert-HasOneEach k v [] h = (refl, tt)
  insert-HasOneEach k v ((i, w) ∷ m) h = elim (Bool-cases (same i k)) [
    | inl mine ↦ rw mine (rw ((eq_iff i k).0 mine) at h.0, h.1)
    | inr other ↦ rw other (
      found-insert i k v m h.0 (ground (arith, eq_iff i k, eq_iff k i, other)),
      insert-HasOneEach k v m h.1,
    )
  ]

  found-erase :
      (j k : String) (m : List (String × V)) → found j m ≡ false → found j (erase k m) ≡ false
  unfolding erase
  found-erase j k [] h = refl
  found-erase j k ((i, w) ∷ m) h = ground (arith, h, found-erase j k m)

  pub erase-HasOneEach :
      (k : String) (m : List (String × V)) → HasOneEach m → HasOneEach (erase k m)
  unfolding erase
  erase-HasOneEach k [] h = tt
  erase-HasOneEach k ((i, w) ∷ m) h = elim (Bool-cases (same i k)) [
    | inl mine ↦ rw mine h.1
    | inr other ↦ rw other (found-erase i k m h.0, erase-HasOneEach k m h.1)
  ]

  pub lookup-erase_self :
      (k : String) (m : List (String × V)) → HasOneEach m → lookup k (erase k m) ≡ none
  unfolding lookup erase
  lookup-erase_self k [] h = refl
  lookup-erase_self k ((i, w) ∷ m) h = elim (Bool-cases (same i k)) [
    | inl mine ↦ rw mine (found_of_lookup k m (rw ((eq_iff i k).0 mine) at h.0))
    | inr other ↦ rw other (ground (arith, other, lookup-erase_self k m h.1))
  ]
