-- ===== src/Images/Memory/Insert.antt =====
-- app/src/cover_image_cache.cpp: what `InsertMemoryCache` keeps and what it drops.
use booster_nx.Common.{
  ℕ, zero, suc, ◌+◌, ◌≤◌, ◌<◌, ◌≡◌, refl, ap, ◌≢◌, ◌⊎◌, inl, inr, true, ◌&&◌, some, List, [], ◌∷◌,
  length, ltb, String, arith, Bool-cases,
}
use booster_nx.Common.Dict.{same, same_self, lookup, insert, lookup-insert}
use booster_nx.Images.Memory.{
  Memory, MemoryEntry, oldest, erase_used, size_used, drop_oldest, evict, old_size, put_entry,
  insert_memory_cache, memory_cache_limit, maximum_cached_image_size, is_cacheable, touch,
  evict_all,
}
use booster_nx.Images.Memory.Recency.{
  In, From, UpTo, Others, oldest-From, From-erase_used, In-erase_used, lookup-erase_used,
  UpTo-weaken, UpTo-erase_used, UpTo-insert, Others-insert, Others-erase_used, Others-oldest,
  In-insert, length-erase_oldest,
}

module _ {A : Type 0} (size : A → ℕ) where
  -- The bytes of the images in the cache.
  abbrev pub total : List (String × MemoryEntry A) → ℕ
  total [] = 0
  total ((k, e) ∷ m) = size e.image + total m

  -- The count of bytes is right and within the limit, and no entry is more recent than the counter.
  pub record IsSound (c : Memory A) : Type 0 where
    pub counted : c.bytes ≡ total c.entries
    pub within : c.bytes ≤ memory_cache_limit
    pub recent : UpTo c.counter c.entries

  total-erase_used :
      (n : ℕ) (m : List (String × MemoryEntry A))
      → total (erase_used n m) + size_used size n m ≡ total m
  unfolding erase_used size_used
  total-erase_used n [] = omega arith
  total-erase_used n ((k, e) ∷ m) = ground (arith, total-erase_used n m)

  pub total-insert :
      (url : String) (e : MemoryEntry A) (m : List (String × MemoryEntry A))
      → total (insert url e m) + old_size size (lookup url m) ≡ total m + size e.image
  unfolding insert lookup
  total-insert url e [] = omega arith
  total-insert url e ((k, f) ∷ m) = ground (arith, total-insert url e m)

  old_size-le :
      (url : String) (m : List (String × MemoryEntry A)) → old_size size (lookup url m) ≤ total m
  unfolding lookup
  old_size-le url [] = omega arith
  old_size-le url ((k, f) ∷ m) = ground (arith, old_size-le url m)

  -- A cache of one entry is as large as that.
  total_single :
      (url : String) (e : MemoryEntry A) (m : List (String × MemoryEntry A))
      → lookup url m ≡ some e
      → length m ≤ 1
      → total m ≡ size e.image
  unfolding lookup
  total_single url e [] h one = absurd (cc)
  total_single url e ((k, f) ∷ []) h one = ground (arith, h, Bool-cases (same k url))
  total_single url e (x ∷ y ∷ m) h one = absurd (omega arith)

  -- What the loop keeps: `e` under `url`, if no other entry is that recent.
  record Keeps (url : String) (e : MemoryEntry A) (n : ℕ) (c : Memory A) : Type 0 where
    counted : c.bytes ≡ total c.entries
    found : lookup url c.entries ≡ some e
    others : Others url n c.entries
    upto : UpTo c.counter c.entries

  drop_oldest-Keeps :
      (url : String) (e : MemoryEntry A) (n : ℕ) (c : Memory A)
      → n < e.last_used
      → 1 < length c.entries
      → Keeps url e n c
      → Keeps url e n (drop_oldest size c)
  drop_oldest-Keeps url e n c newer two k = record {
    counted = omega (arith, total-erase_used (oldest c.entries) c.entries, k.counted);
    found =
        lookup-erase_used (oldest c.entries) url e c.entries k.found
          (λ same. omega (arith, same, Others-oldest url n c.entries k.others two));
    others = Others-erase_used url n (oldest c.entries) c.entries k.others;
    upto = UpTo-erase_used c.counter (oldest c.entries) c.entries k.upto;
  }

  evict-Keeps :
      (fuel : ℕ) (url : String) (e : MemoryEntry A) (n : ℕ) (c : Memory A)
      → n < e.last_used
      → Keeps url e n c
      → Keeps url e n (evict size fuel c)
  unfolding evict
  evict-Keeps zero url e n c newer k = k
  evict-Keeps (suc fuel) url e n c newer k =
      elim (Bool-cases (ltb memory_cache_limit c.bytes && ltb 1 (length c.entries))) [
        | inl over ↦ rw over (
            evict-Keeps fuel url e n (drop_oldest size c) newer
              (drop_oldest-Keeps url e n c newer (ground (arith, over)) k))
        | inr fits ↦ rw fits k
      ]

  -- With a round for each entry the loop ends by its test.
  evict_ends :
      (fuel : ℕ) (c : Memory A)
      → length c.entries ≤ fuel
      → ((evict size fuel c).bytes ≤ memory_cache_limit) ⊎ (length (evict size fuel c).entries ≤ 1)
  unfolding evict
  evict_ends zero c h = inr (omega arith)
  evict_ends (suc fuel) c h =
      elim (Bool-cases (ltb memory_cache_limit c.bytes && ltb 1 (length c.entries))) [
        | inl over ↦ rw over (
            evict_ends fuel (drop_oldest size c)
              (ground (arith, over, length-erase_oldest c.entries)))
        | inr fits ↦ rw fits (elim (Bool-cases (ltb 1 (length c.entries))) [
          | inl two ↦ inl (ground (arith, fits, two))
          | inr one ↦ inr (ground (arith, one))
        ])
      ]

  counter-evict : (fuel : ℕ) (c : Memory A) → (evict size fuel c).counter ≡ c.counter
  unfolding evict
  counter-evict zero c = refl
  counter-evict (suc fuel) c = ground (arith, counter-evict fuel (drop_oldest size c))

  evict-From : (fuel n : ℕ) (c : Memory A) → From n c.entries → From n (evict size fuel c).entries
  unfolding evict
  evict-From zero n c h = h
  evict-From (suc fuel) n c h =
      elim (Bool-cases (ltb memory_cache_limit c.bytes && ltb 1 (length c.entries))) [
        | inl over ↦ rw over (
            evict-From fuel n (drop_oldest size c)
              (From-erase_used n (oldest c.entries) c.entries h))
        | inr fits ↦ rw fits h
      ]

  -- What goes is no more recent than anything that stays.
  evict_least_recent :
      (fuel : ℕ) (c : Memory A) (k : String) (e : MemoryEntry A)
      → In k e c.entries
      → In k e (evict size fuel c).entries ⊎ From e.last_used (evict size fuel c).entries
  unfolding evict
  evict_least_recent zero c k e h = inl h
  evict_least_recent (suc fuel) c k e h =
      elim (Bool-cases (ltb memory_cache_limit c.bytes && ltb 1 (length c.entries))) [
        | inl over ↦ rw over (elim (In-erase_used (oldest c.entries) k e c.entries h) [
          | inl stays ↦ evict_least_recent fuel (drop_oldest size c) k e stays
          | inr goes ↦ inr (
              rw goes (
                evict-From fuel (oldest c.entries) (drop_oldest size c) (
                  From-erase_used (oldest c.entries) (oldest c.entries) c.entries
                    (oldest-From c.entries))))
        ])
        | inr fits ↦ rw fits (inl h)
      ]

  abbrev newest : A → Memory A → MemoryEntry A
  newest a c = record { image = a; last_used = c.counter + 1 }

  put_entry-Keeps :
      (url : String) (a : A) (c : Memory A)
      → IsSound c
      → Keeps url (newest a c) c.counter (put_entry size url a c)
  put_entry-Keeps url a c s = record {
    counted =
        omega
          (arith, total-insert url (newest a c) c.entries, old_size-le url c.entries, s.counted);
    found = ground (arith, same_self url, lookup-insert url url (newest a c) c.entries);
    others = Others-insert url c.counter (newest a c) c.entries s.recent;
    upto =
        UpTo-insert (c.counter + 1) url (newest a c) c.entries (omega arith)
          (UpTo-weaken c.counter (c.counter + 1) c.entries (omega arith) s.recent);
  }

  evict_all-IsSound :
      (url : String) (e : MemoryEntry A) (n : ℕ) (c : Memory A)
      → n < e.last_used
      → size e.image ≤ maximum_cached_image_size
      → Keeps url e n c
      → IsSound (evict_all size c)
  evict_all-IsSound url e n c newer small k =
      let r = evict-Keeps (length c.entries) url e n c newer k in
      record {
        counted = r.counted;
        within = elim (evict_ends (length c.entries) c (omega arith)) [
          | inl fits ↦ fits
          | inr one ↦ omega (arith, r.counted, total_single url e _ r.found one)
        ];
        recent = r.upto;
      }

  -- A cache that is sound stays so, within its limit of 16 MiB, when an image of one byte to 6 MiB
  -- is put into it. The image is there then under its URL, as the most recent one. An image under
  -- another URL stays, or is no more recent than all that stay.
  pub insert_memory_cache-least_recent :
      (url : String) (a : A) (c : Memory A)
      → IsSound c
      → 0 < size a
      → size a ≤ maximum_cached_image_size
      → IsSound (insert_memory_cache size url a c)
        × (lookup url (insert_memory_cache size url a c).entries
            ≡ some (record { image = a; last_used = c.counter + 1 }))
        × ((k : String) (e : MemoryEntry A)
            → In k e c.entries
            → k ≢ url
            → In k e (insert_memory_cache size url a c).entries
              ⊎ From e.last_used (insert_memory_cache size url a c).entries)
  unfolding insert_memory_cache
  insert_memory_cache-least_recent url a c s some_byte small =
      let cacheable : is_cacheable size a ≡ true = ground arith in
      let p = put_entry size url a c in
      let k = put_entry-Keeps url a c s in
      rw cacheable (
        evict_all-IsSound url (newest a c) c.counter p (omega arith) small k,
        (evict-Keeps (length p.entries) url (newest a c) c.counter p (omega arith) k).found,
        λ j e here other.
            evict_least_recent (length p.entries) p j e
              (In-insert url j (newest a c) e c.entries other here),
      )

  -- An image that is not cacheable is left out, and a hit keeps the cache sound.
  pub insert_memory_cache-IsSound :
      (url : String) (a : A) (c : Memory A) → IsSound c → IsSound (insert_memory_cache size url a c)
  insert_memory_cache-IsSound url a c s = elim (Bool-cases (is_cacheable size a)) [
    | inl fits ↦
        (insert_memory_cache-least_recent url a c s (ground (arith, fits)) (ground (arith, fits))).0
    | inr unfit ↦ unfold insert_memory_cache in rw unfit s
  ]

  pub touch-IsSound :
      (url : String) (e : MemoryEntry A) (c : Memory A)
      → lookup url c.entries ≡ some e
      → IsSound c
      → IsSound (touch url e c)
  touch-IsSound url e c found s = record {
    counted = omega (
      arith,
      total-insert url (record e { last_used = c.counter + 1 }) c.entries,
      s.counted,
      ap (λ o. old_size size o) found,
    );
    within = s.within;
    recent =
        UpTo-insert (c.counter + 1) url (record e { last_used = c.counter + 1 }) c.entries
          (omega arith) (UpTo-weaken c.counter (c.counter + 1) c.entries (omega arith) s.recent);
  }
