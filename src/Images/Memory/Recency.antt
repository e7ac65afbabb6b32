-- ===== src/Images/Memory/Recency.antt =====
-- app/src/cover_image_cache.cpp: how recently the entries of the cache were used, and
-- what dropping one of them leaves.
use booster_nx.Common.{
  ℕ, ◌+◌, ◌≤◌, ◌<◌, ◌≡◌, refl, ap, ◌∙◌, ◌≢◌, ◌⊎◌, inl, inr, Option, some, List, [], ◌∷◌, length,
  ◌==◌, min, String, arith, Bool-cases,
}
use booster_nx.Common.Dict.{same, same_iff, lookup, insert}
use booster_nx.Images.Memory.{MemoryEntry, least_used, oldest, erase_used}

module _ {A : Type 0} where
  abbrev pub In : String → MemoryEntry A → List (String × MemoryEntry A) → Type 0
  In k e [] = ⊥
  In k e ((j, f) ∷ m) = ((k ≡ j) × (e ≡ f)) ⊎ In k e m

  -- No entry is less recent than `n`.
  abbrev pub From : ℕ → List (String × MemoryEntry A) → Type 0
  From n [] = Unit {0}
  From n ((k, e) ∷ m) = (n ≤ e.last_used) × From n m

  least_used-From :
      (n : ℕ) (m : List (String × MemoryEntry A))
      → (least_used n m ≤ n) × ((b : ℕ) → b ≤ least_used n m → From b m)
  unfolding least_used
  least_used-From n [] = (omega arith, λ b h. tt)
  least_used-From n ((k, e) ∷ m) =
      let r = least_used-From (min n e.last_used) m in
      (omega (arith, r.0), λ b h. (omega (arith, r.0), r.1 b h))

  pub oldest-From : (m : List (String × MemoryEntry A)) → From (oldest m) m
  oldest-From [] = tt
  oldest-From ((k, e) ∷ m) =
      let r = least_used-From e.last_used m in (r.0, r.1 (least_used e.last_used m) (omega arith))

  pub From-erase_used :
      (n i : ℕ) (m : List (String × MemoryEntry A)) → From n m → From n (erase_used i m)
  unfolding erase_used
  From-erase_used n i [] h = tt
  From-erase_used n i ((k, e) ∷ m) h = elim (Bool-cases (e.last_used == i)) [
    | inl here ↦ rw here h.1
    | inr there ↦ rw there (h.0, From-erase_used n i m h.1)
  ]

  -- What is not dropped is still there.
  pub In-erase_used :
      (n : ℕ) (k : String) (e : MemoryEntry A) (m : List (String × MemoryEntry A))
      → In k e m
      → In k e (erase_used n m) ⊎ (e.last_used ≡ n)
  unfolding erase_used
  In-erase_used n k e [] h = absurd h
  In-erase_used n k e ((j, f) ∷ m) (inl h) = elim (Bool-cases (f.last_used == n)) [
    | inl here ↦ inr (ground (arith, ap (λ (x : MemoryEntry A). x.last_used) h.1, here))
    | inr there ↦ rw there (inl (inl h))
  ]
  In-erase_used n k e ((j, f) ∷ m) (inr h) = elim (Bool-cases (f.last_used == n)) [
    | inl here ↦ rw here (inl h)
    | inr there ↦
        rw there
          (elim (In-erase_used n k e m h) [ inl stays ↦ inl (inr stays) | inr goes ↦ inr goes ])
  ]

  pub lookup-erase_used :
      (n : ℕ) (url : String) (e : MemoryEntry A) (m : List (String × MemoryEntry A))
      → lookup url m ≡ some e
      → e.last_used ≢ n
      → lookup url (erase_used n m) ≡ some e
  unfolding lookup erase_used
  lookup-erase_used n url e [] h ne = absurd (cc)
  lookup-erase_used n url e ((j, f) ∷ m) h ne = elim (Bool-cases (f.last_used == n)) [
    | inl here ↦ elim (Bool-cases (same j url)) [
      | inl mine ↦ absurd (ground (arith, ap (λ (o : Option (MemoryEntry A)). o) h, here, mine, ne))
      | inr other ↦ rw here (ground (arith, h, other))
    ]
    | inr there ↦ rw there (elim (Bool-cases (same j url)) [
      | inl mine ↦ ground (arith, h, mine)
      | inr other ↦ ground (arith, lookup-erase_used n url e m, h, ne, other)
    ])
  ]

  -- No entry is more recent than `n`.
  abbrev pub UpTo : ℕ → List (String × MemoryEntry A) → Type 0
  UpTo n [] = Unit {0}
  UpTo n ((k, e) ∷ m) = (e.last_used ≤ n) × UpTo n m

  -- No entry but that of `url` is more recent than `n`.
  abbrev pub Others : String → ℕ → List (String × MemoryEntry A) → Type 0
  Others url n [] = Unit {0}
  Others url n ((k, e) ∷ m) = UpTo n m ⊎ ((e.last_used ≤ n) × Others url n m)

  pub UpTo-weaken : (a b : ℕ) (m : List (String × MemoryEntry A)) → a ≤ b → UpTo a m → UpTo b m
  UpTo-weaken a b [] h u = tt
  UpTo-weaken a b ((k, e) ∷ m) h u = (omega (arith, u.0), UpTo-weaken a b m h u.1)

  pub UpTo-erase_used :
      (n i : ℕ) (m : List (String × MemoryEntry A)) → UpTo n m → UpTo n (erase_used i m)
  unfolding erase_used
  UpTo-erase_used n i [] h = tt
  UpTo-erase_used n i ((k, e) ∷ m) h = elim (Bool-cases (e.last_used == i)) [
    | inl here ↦ rw here h.1
    | inr there ↦ rw there (h.0, UpTo-erase_used n i m h.1)
  ]

  pub UpTo-insert :
      (n : ℕ) (url : String) (e : MemoryEntry A) (m : List (String × MemoryEntry A))
      → e.last_used ≤ n
      → UpTo n m
      → UpTo n (insert url e m)
  unfolding insert
  UpTo-insert n url e [] h u = (h, tt)
  UpTo-insert n url e ((k, f) ∷ m) h u = elim (Bool-cases (same k url)) [
    | inl mine ↦ rw mine (h, u.1)
    | inr other ↦ rw other (u.0, UpTo-insert n url e m h u.1)
  ]

  Others-of_UpTo :
      (url : String) (n : ℕ) (m : List (String × MemoryEntry A)) → UpTo n m → Others url n m
  Others-of_UpTo url n [] u = tt
  Others-of_UpTo url n ((k, e) ∷ m) u = inl u.1

  pub Others-insert :
      (url : String) (n : ℕ) (e : MemoryEntry A) (m : List (String × MemoryEntry A))
      → UpTo n m
      → Others url n (insert url e m)
  unfolding insert
  Others-insert url n e [] u = inl tt
  Others-insert url n e ((k, f) ∷ m) u = elim (Bool-cases (same k url)) [
    | inl mine ↦ rw mine (inl u.1)
    | inr other ↦ rw other (inr (u.0, Others-insert url n e m u.1))
  ]

  pub Others-erase_used :
      (url : String) (n i : ℕ) (m : List (String × MemoryEntry A))
      → Others url n m
      → Others url n (erase_used i m)
  unfolding erase_used
  Others-erase_used url n i [] h = tt
  Others-erase_used url n i ((k, e) ∷ m) h = elim (Bool-cases (e.last_used == i)) [
    | inl here ↦ rw here (elim h [ inl u ↦ Others-of_UpTo url n m u | inr o ↦ o.1 ])
    | inr there ↦ rw there (elim h [
      | inl u ↦ inl (UpTo-erase_used n i m u)
      | inr o ↦ inr (o.0, Others-erase_used url n i m o.1)
    ])
  ]

  -- With two entries, one of them is not that of `url`.
  pub Others-oldest :
      (url : String) (n : ℕ) (m : List (String × MemoryEntry A))
      → Others url n m
      → 1 < length m
      → oldest m ≤ n
  Others-oldest url n [] h two = absurd (omega arith)
  Others-oldest url n ((k, e) ∷ []) h two = absurd (omega arith)
  Others-oldest url n ((k, e) ∷ (j, f) ∷ m) (inl u) two =
      omega (arith, u.0, (oldest-From ((k, e) ∷ (j, f) ∷ m)).1.0)
  Others-oldest url n ((k, e) ∷ (j, f) ∷ m) (inr o) two =
      omega (arith, o.0, (oldest-From ((k, e) ∷ (j, f) ∷ m)).0)

  pub In-insert :
      (url k : String) (v e : MemoryEntry A) (m : List (String × MemoryEntry A))
      → k ≢ url
      → In k e m
      → In k e (insert url v m)
  unfolding insert
  In-insert url k v e [] ne h = absurd h
  In-insert url k v e ((j, f) ∷ m) ne h = elim (Bool-cases (same j url)) [
    | inl mine ↦
        rw mine (elim h [ inl x ↦ absurd (ne (x.0 ∙ (same_iff j url).0 mine)) | inr y ↦ inr y ])
    | inr other ↦ rw other (elim h [ inl x ↦ inl x | inr y ↦ inr (In-insert url k v e m ne y) ])
  ]

  length-erase_least :
      (n : ℕ) (m : List (String × MemoryEntry A))
      → (least_used n m ≡ n) ⊎ (length (erase_used (least_used n m) m) + 1 ≡ length m)
  unfolding least_used erase_used
  length-erase_least n [] = inl refl
  length-erase_least n ((k, e) ∷ m) = ground (arith, length-erase_least (min n e.last_used) m)

  pub length-erase_oldest :
      (m : List (String × MemoryEntry A))
      → 0 < length m
      → length (erase_used (oldest m) m) + 1 ≡ length m
  unfolding erase_used
  length-erase_oldest [] h = absurd (omega arith)
  length-erase_oldest ((k, e) ∷ m) h = ground (arith, length-erase_least e.last_used m)
