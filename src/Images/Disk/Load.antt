-- ===== src/Images/Disk/Load.antt =====
-- app/src/cover_image_cache.cpp: what `Load` returns, and what it leaves on the disk.
use booster_nx.Common.{
  ℕ, ◌≤◌, ◌<◌, ◌≡◌, refl, ap, ◌∙◌, inl, inr, true, ◌&&◌, Option, none, some, List, length, arith,
  Bool-cases,
}
use booster_nx.Images.Memory.{maximum_cached_image_size}
use booster_nx.Images.Disk.{
  has_image_signature, Disk, FileCalls, is_size_allowed, check_cached, read_opened,
  read_cached_image, write_cached_image, HttpResponse, is_image_response, store_response,
  load_missing, load,
}

-- What may be shown: an image of an accepted kind and size.
abbrev pub IsImage : Option (List ℕ) → Type 0
IsImage none = Unit {0}
IsImage (some bytes) =
    (has_image_signature bytes ≡ true)
    × (0 < length bytes)
    × (length bytes ≤ maximum_cached_image_size)

-- What a reader of the file gets, and what stands in it then.
IsRead : Disk × Option (List ℕ) → Type 0
IsRead (d, none) = Unit {0}
IsRead (d, some bytes) = IsImage (some bytes) × (d.image ≡ some bytes)

check_cached-IsRead :
    (f : FileCalls) (d : Disk) (bytes : List ℕ)
    → d.image ≡ some bytes
    → IsRead (check_cached f d bytes)
unfolding IsRead
check_cached-IsRead f d bytes e =
    elim (Bool-cases (is_size_allowed bytes && has_image_signature bytes)) [
      | inl fits ↦ rw fits ((ground (arith, fits), ground (arith, fits), ground (arith, fits)), e)
      | inr other ↦ rw other tt
    ]

read_opened-IsRead :
    (f : FileCalls) (d : Disk) (o : Option (List ℕ)) → d.image ≡ o → IsRead (read_opened f d o)
unfolding IsRead
read_opened-IsRead f d none e = tt
read_opened-IsRead f d (some bytes) e = elim (Bool-cases f.reads) [
  | inl opens ↦ rw opens (check_cached-IsRead f d bytes e)
  | inr fails ↦ rw fails tt
]

-- A reader whose call succeeds finds the image that stands in the file.
read_opened-image :
    (f : FileCalls) (d : Disk) (bytes : List ℕ)
    → f.reads ≡ true
    → IsImage (some bytes)
    → read_opened f d (some bytes) ≡ (d, some bytes)
read_opened-image f d bytes reads h = ground (arith, reads, h)

write_cached_image-image :
    (f : FileCalls) (bytes : List ℕ) (d : Disk)
    → IsImage (some bytes)
    → f.creates ≡ true
    → f.writes ≡ true
    → f.renames ≡ true
    → (write_cached_image f bytes d).image ≡ some bytes
unfolding write_cached_image
write_cached_image-image f bytes d h creates writes renames =
    ground (arith, h, creates, writes, renames)

-- What `Load` returns, with what it leaves behind if its calls succeed.
IsLoaded : FileCalls → Disk × Option (List ℕ) → Type 0
IsLoaded f (d, none) = Unit {0}
IsLoaded f (d, some bytes) =
    IsImage (some bytes)
    × (f.creates ≡ true → f.writes ≡ true → f.renames ≡ true → d.image ≡ some bytes)

store_response-IsLoaded :
    (f : FileCalls) (d : Disk) (response : Option HttpResponse)
    → IsLoaded f (store_response f d response)
unfolding IsLoaded
store_response-IsLoaded f d none = tt
store_response-IsLoaded f d (some r) = elim (Bool-cases (is_image_response r)) [
  | inl fits ↦
      let image : IsImage (some r.body) =
        (ground (arith, fits), ground (arith, fits), ground (arith, fits)) in
      rw fits (
        image,
        λ creates writes renames. write_cached_image-image f r.body d image creates writes renames,
      )
  | inr other ↦ rw other tt
]

load_missing-IsLoaded :
    (f : FileCalls) (response : Option HttpResponse) (p : Disk × Option (List ℕ))
    → IsRead p
    → IsLoaded f (load_missing f response p)
unfolding IsRead IsLoaded
load_missing-IsLoaded f response (d, some bytes) h = (h.0, λ creates writes renames. h.1)
load_missing-IsLoaded f response (d, none) h = store_response-IsLoaded f d response

load-IsLoaded :
    (f : FileCalls) (response : Option HttpResponse) (d : Disk) → IsLoaded f (load f response d)
unfolding load read_cached_image
load-IsLoaded f response d =
    load_missing-IsLoaded f response (read_opened f d d.image) (read_opened-IsRead f d d.image refl)

read_again :
    (g : FileCalls) (d : Disk) (bytes : List ℕ) (response : Option HttpResponse)
    → g.reads ≡ true
    → IsImage (some bytes)
    → d.image ≡ some bytes
    → (load g response d).1 ≡ some bytes
unfolding load read_cached_image
read_again g d bytes response reads image e =
    ap (λ o. (load_missing g response (read_opened g d o)).1) e
    ∙ ap (λ p. (load_missing g response p).1) (read_opened-image g d bytes reads image)

load_again_from :
    (f g : FileCalls) (p : Disk × Option (List ℕ)) (later : Option HttpResponse) (bytes : List ℕ)
    → p.1 ≡ some bytes
    → IsLoaded f p
    → IsImage (some bytes)
      × (f.creates ≡ true
          → f.writes ≡ true
          → f.renames ≡ true
          → g.reads ≡ true
          → (load g later p.0).1 ≡ some bytes)
unfolding IsLoaded
load_again_from f g (d, none) later bytes e h = absurd (cc (e))
load_again_from f g (d, some b) later bytes e h =
    let same : b ≡ bytes = cc (e) in
    (
      rw same at h.0,
      λ creates writes renames reads.
          read_again g d bytes later reads (rw same at h.0)
            (h.1 creates writes renames ∙ ap (λ x. some x) same),
    )

-- Whatever the disk holds, its calls do and the server answers, what `Load` returns is an image by
-- its signature, of one byte to 6 MiB. If the file could be created, written and renamed, and can be
-- read the next time, the next `Load` returns the same bytes, whatever the server answers then.
pub load_twice :
    (f g : FileCalls) (response later : Option HttpResponse) (d : Disk) (bytes : List ℕ)
    → (load f response d).1 ≡ some bytes
    → IsImage (some bytes)
      × (f.creates ≡ true
          → f.writes ≡ true
          → f.renames ≡ true
          → g.reads ≡ true
          → (load g later (load f response d).0).1 ≡ some bytes)
load_twice f g response later d bytes e =
    load_again_from f g (load f response d) later bytes e (load-IsLoaded f response d)
