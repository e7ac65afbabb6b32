-- ===== src/Images/Memory.antt =====
-- app/src/cover_image_cache.cpp: `InsertMemoryCache`. The contents of an image are only measured and
-- passed on, so their type and their size are parameters. The order of the entries of the
-- `unordered_map` is that of the list; `std::min_element` takes the first of the least.
pub mod Recency
pub mod Insert
use booster_nx.Common.{
  ℕ, zero, suc, ◌+◌, ◌-◌, ◌*◌, Bool, true, false, ◌&&◌, ◌||◌, Option, none, some, List, [], ◌∷◌,
  length, ltb, leb, ◌==◌, min, String, if◌then◌else◌,
}
use booster_nx.Common.Dict.{lookup, insert}

-- `kMemoryCacheLimit` and `kMaximumCachedImageSize`.
abbrev pub memory_cache_limit : ℕ
memory_cache_limit = 16777216

abbrev pub maximum_cached_image_size : ℕ
maximum_cached_image_size = 6291456

-- `MemoryEntry`; the data is that behind the shared pointer.
pub record MemoryEntry (A : Type 0) : Type 0 where
  pub image : A
  pub last_used : ℕ

-- `memory_cache_`, `memory_cache_bytes_` and `access_counter_`.
pub record Memory (A : Type 0) : Type 0 where
  pub entries : List (String × MemoryEntry A)
  pub bytes : ℕ
  pub counter : ℕ

abbrev pub new_memory : {A : Type 0} → Memory A
new_memory = record { entries = []; bytes = 0; counter = 0 }

module _ {A : Type 0} where
  -- What `std::min_element` compares by: the least `last_used`, of the first entry and the rest.
  unfoldable pub least_used : ℕ → List (String × MemoryEntry A) → ℕ
  least_used n [] = n
  least_used n ((k, e) ∷ m) = least_used (min n e.last_used) m

  abbrev pub oldest : List (String × MemoryEntry A) → ℕ
  oldest [] = 0
  oldest ((k, e) ∷ m) = least_used e.last_used m

  -- `memory_cache_.erase(oldest)`: the first entry with that `last_used` goes.
  unfoldable pub erase_used : ℕ → List (String × MemoryEntry A) → List (String × MemoryEntry A)
  erase_used n [] = []
  erase_used n ((k, e) ∷ m) = if e.last_used == n then m else (k, e) ∷ erase_used n m

  -- A hit in `Request` makes the entry the most recent one.
  abbrev pub touch : String → MemoryEntry A → Memory A → Memory A
  touch url e c = record c {
    entries = insert url (record e { last_used = c.counter + 1 }) c.entries;
    counter = c.counter + 1;
  }

module _ {A : Type 0} (size : A → ℕ) where
  -- `oldest->second.data->size()`.
  unfoldable pub size_used : ℕ → List (String × MemoryEntry A) → ℕ
  size_used n [] = 0
  size_used n ((k, e) ∷ m) = if e.last_used == n then size e.image else size_used n m

  abbrev pub drop_oldest : Memory A → Memory A
  drop_oldest c = record c {
    entries = erase_used (oldest c.entries) c.entries;
    bytes = c.bytes - size_used (oldest c.entries) c.entries;
  }

  -- The loop; each round drops an entry, so one round for each entry is enough.
  unfoldable pub evict : ℕ → Memory A → Memory A
  evict zero c = c
  evict (suc fuel) c =
      let rest = evict fuel (drop_oldest c) in
      if ltb memory_cache_limit c.bytes && ltb 1 (length c.entries) then rest else c

  abbrev pub old_size : Option (MemoryEntry A) → ℕ
  old_size none = 0
  old_size (some e) = size e.image

  abbrev pub is_cacheable : A → Bool
  is_cacheable a = ltb 0 (size a) && leb (size a) maximum_cached_image_size

  abbrev pub put_entry : String → A → Memory A → Memory A
  put_entry url a c = record {
    entries = insert url (record { image = a; last_used = c.counter + 1 }) c.entries;
    bytes = c.bytes - old_size (lookup url c.entries) + size a;
    counter = c.counter + 1;
  }

  abbrev pub evict_all : Memory A → Memory A
  evict_all c = evict (length c.entries) c

  -- `InsertMemoryCache`, of an image that is there.
  unfoldable pub insert_memory_cache : String → A → Memory A → Memory A
  insert_memory_cache url a c = if is_cacheable a then evict_all (put_entry url a c) else c
