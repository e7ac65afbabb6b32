-- ===== src/Images/Loader/Requests.antt =====
-- app/src/cover_image_cache.cpp: what is loading and what is queued, when a request is put
-- down, started or erased.
use booster_nx.Common.{
  ◌≤◌, ◌≡◌, refl, sym, ◌≢◌, inl, inr, true, false, ◌||◌, Option, none, some, List, [], ◌∷◌, ◌++◌,
  length, String, arith, Bool-cases, All,
}
use booster_nx.Common.Dict.{
  same, same_self, same_iff, lookup, insert, erase, lookup-insert, lookup-erase_ne,
}
use booster_nx.Images.Loader.{QueueEntry, PendingRequest, is_loading, release_worker}
use booster_nx.Images.Loader.Queues.{In}

abbrev pub Pending : Type 0
Pending = List (String × PendingRequest)

abbrev pub IsStarted : Option PendingRequest → Type 0
IsStarted none = ⊥
IsStarted (some p) = p.started ≡ true

-- Every URL that is loading is pending, and marked as started.
abbrev pub Flying : Pending → List String → Type 0
Flying m us = All (λ u. IsStarted (lookup u m)) us

-- No URL is loaded twice.
abbrev pub Distinct : List String → Type 0
Distinct [] = Unit {0}
Distinct (u ∷ us) = (is_loading u us ≡ false) × Distinct us

-- Every request that is not started is queued under its priority, and every one that is, is loading.
abbrev pub Waiting : List QueueEntry → Pending → Type 0
Waiting q m =
    (k : String) (p : PendingRequest)
    → lookup k m ≡ some p
    → p.started ≡ false
    → In (k, p.priority) q

abbrev pub Busy : Pending → List String → Type 0
Busy m us =
    (k : String) (p : PendingRequest)
    → lookup k m ≡ some p
    → p.started ≡ true
    → is_loading k us ≡ true

some_inj : {v p : PendingRequest} → some v ≡ some p → v ≡ p
some_inj e = cc

IsStarted-eq :
    (o : Option PendingRequest) (p : PendingRequest) → o ≡ some p → IsStarted o → p.started ≡ true
IsStarted-eq o p e h = rw e at h

pub insert-Flying :
    (k : String) (v : PendingRequest) (m : Pending) (us : List String)
    → (IsStarted (lookup k m) → v.started ≡ true)
    → Flying m us
    → Flying (insert k v m) us
insert-Flying k v m [] started h = tt
insert-Flying k v m (u ∷ us) started h = elim (Bool-cases (same k u)) [
  | inl mine ↦ (
    rw (lookup-insert k u v m, mine) (started (rw (sym ((same_iff k u).0 mine)) at h.0)),
    insert-Flying k v m us started h.1,
  )
  | inr other ↦ (rw (lookup-insert k u v m, other) h.0, insert-Flying k v m us started h.1)
]

In-same :
    {k j : String} {v p : PendingRequest} (q : List QueueEntry)
    → k ≡ j
    → v ≡ p
    → In (k, v.priority) q
    → In (j, p.priority) q
In-same q ek ev h = rw (← ek, ← ev) h

pub insert-Waiting :
    (k : String) (v : PendingRequest) (m : Pending) (q : List QueueEntry)
    → (v.started ≡ false → In (k, v.priority) q)
    → Waiting q m
    → Waiting q (insert k v m)
insert-Waiting k v m q new h = λ j p e idle. elim (Bool-cases (same k j)) [
  | inl mine ↦
      let ev : v ≡ p = some_inj (rw (lookup-insert k j v m, mine) at e) in
      In-same q ((same_iff k j).0 mine) ev (new (rw ev idle))
  | inr other ↦ h j p (rw (lookup-insert k j v m, other) at e) idle
]

pub insert-Busy :
    (k : String) (v : PendingRequest) (m : Pending) (us : List String)
    → (v.started ≡ true → is_loading k us ≡ true)
    → Busy m us
    → Busy (insert k v m) us
insert-Busy k v m us new h = λ j p e busy. elim (Bool-cases (same k j)) [
  | inl mine ↦
      let ev : v ≡ p = some_inj (rw (lookup-insert k j v m, mine) at e) in
      rw (← (same_iff k j).0 mine) (new (rw ev busy))
  | inr other ↦ h j p (rw (lookup-insert k j v m, other) at e) busy
]

pub Flying-IsStarted :
    (k : String) (m : Pending) (us : List String)
    → Flying m us
    → is_loading k us ≡ true
    → IsStarted (lookup k m)
Flying-IsStarted k m [] h b = absurd (cc)
Flying-IsStarted k m (u ∷ us) h b = elim (Bool-cases (same u k)) [
  | inl mine ↦ rw (← (same_iff u k).0 mine) h.0
  | inr other ↦ Flying-IsStarted k m us h.1 (ground (arith, b, other))
]

pub is_loading-append :
    (k u : String) (us : List String)
    → is_loading k (us ++ (u ∷ [])) ≡ (is_loading k us || same u k)
is_loading-append k u [] = ground arith
is_loading-append k u (w ∷ us) = ground (arith, is_loading-append k u us)

pub append-Distinct :
    (u : String) (us : List String)
    → is_loading u us ≡ false
    → Distinct us
    → Distinct (us ++ (u ∷ []))
append-Distinct u [] new h = (refl, tt)
append-Distinct u (w ∷ us) new h = (
  ground (arith, is_loading-append w u us, h.0, new, same_iff u w, same_self w),
  append-Distinct u us (ground (arith, new)) h.1,
)

pub append-Flying :
    (u : String) (m : Pending) (us : List String)
    → IsStarted (lookup u m)
    → Flying m us
    → Flying m (us ++ (u ∷ []))
append-Flying u m [] new h = (new, tt)
append-Flying u m (w ∷ us) new h = (h.0, append-Flying u m us new h.1)

erase-Flying :
    (k : String) (m : Pending) (us : List String)
    → is_loading k us ≡ false
    → Flying m us
    → Flying (erase k m) us
erase-Flying k m [] free h = tt
erase-Flying k m (u ∷ us) free h = (
  rw (lookup-erase_ne k u m (λ e. absurd (ground (arith, free, same_iff u k, e)))) h.0,
  erase-Flying k m us (ground (arith, free)) h.1,
)

pub release-Flying :
    (k : String) (m : Pending) (us : List String)
    → Distinct us
    → Flying m us
    → Flying (erase k m) (release_worker k us)
release-Flying k m [] d h = tt
release-Flying k m (u ∷ us) d h = elim (Bool-cases (same u k)) [
  | inl mine ↦ rw mine (erase-Flying k m us (rw ((same_iff u k).0 mine) at d.0) h.1)
  | inr other ↦ rw other (
    rw (lookup-erase_ne k u m (λ e. absurd (ground (arith, other, same_iff u k, e)))) h.0,
    release-Flying k m us d.1 h.1,
  )
]

-- Released workers, with the requests kept as they are.
pub release-Flying_kept :
    (k : String) (m : Pending) (us : List String) → Flying m us → Flying m (release_worker k us)
release-Flying_kept k m [] h = tt
release-Flying_kept k m (u ∷ us) h = elim (Bool-cases (same u k)) [
  | inl mine ↦ rw mine h.1
  | inr other ↦ rw other (h.0, release-Flying_kept k m us h.1)
]

is_loading-release :
    (j k : String) (us : List String)
    → is_loading j us ≡ false
    → is_loading j (release_worker k us) ≡ false
is_loading-release j k [] h = refl
is_loading-release j k (u ∷ us) h = ground (arith, h, is_loading-release j k us)

pub is_loading-release_ne :
    (j k : String) (us : List String) → k ≢ j → is_loading j (release_worker k us) ≡ is_loading j us
is_loading-release_ne j k [] ne = refl
is_loading-release_ne j k (u ∷ us) ne =
    ground (arith, is_loading-release_ne j k us ne, same_iff u k, same_iff u j, ne)

pub release-Distinct :
    (k : String) (us : List String) → Distinct us → Distinct (release_worker k us)
release-Distinct k [] h = tt
release-Distinct k (u ∷ us) h = elim (Bool-cases (same u k)) [
  | inl mine ↦ rw mine h.1
  | inr other ↦ rw other (is_loading-release u k us h.0, release-Distinct k us h.1)
]

pub length-release : (k : String) (us : List String) → length (release_worker k us) ≤ length us
length-release k [] = omega arith
length-release k (u ∷ us) = ground (arith, length-release k us)
