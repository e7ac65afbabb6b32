-- ===== src/Images/Disk.antt =====
-- app/src/cover_image_cache.cpp: the cached files, and `Load`. A file is its bytes, and `none` where
-- there is none. Which calls of the file system fail is an argument, as is what the server answers.
pub mod Load
use booster_nx.Common.{
  ℕ, ◌≤◌, ◌<◌, ◌≡◌, refl, ap, ◌∙◌, ◌⊎◌, inl, inr, Bool, true, false, ◌&&◌, ◌||◌, not, Option, none,
  some, List, [], ◌∷◌, length, take, drop, leb, ltb, ◌==◌, arith, Bool-cases, Option-cases,
  if◌then◌else◌,
}
use booster_nx.Images.Memory.{maximum_cached_image_size}

abbrev pub same_bytes : List ℕ → List ℕ → Bool
same_bytes [] [] = true
same_bytes [] (y ∷ ys) = false
same_bytes (x ∷ xs) [] = false
same_bytes (x ∷ xs) (y ∷ ys) = (x == y) && same_bytes xs ys

-- The bytes from `at` on begin with these.
abbrev pub stands_at : ℕ → List ℕ → List ℕ → Bool
stands_at at sig bytes = same_bytes (take (length sig) (drop at bytes)) sig

abbrev pub jpeg : List ℕ
jpeg = 0xff ∷ 0xd8 ∷ 0xff ∷ []

abbrev pub png : List ℕ
png = 0x89 ∷ 0x50 ∷ 0x4e ∷ 0x47 ∷ 0x0d ∷ 0x0a ∷ 0x1a ∷ 0x0a ∷ []

-- "GIF87a", "GIF89a", "RIFF" and "WEBP".
abbrev pub gif_87 : List ℕ
gif_87 = 0x47 ∷ 0x49 ∷ 0x46 ∷ 0x38 ∷ 0x37 ∷ 0x61 ∷ []

abbrev pub gif_89 : List ℕ
gif_89 = 0x47 ∷ 0x49 ∷ 0x46 ∷ 0x38 ∷ 0x39 ∷ 0x61 ∷ []

abbrev pub riff : List ℕ
riff = 0x52 ∷ 0x49 ∷ 0x46 ∷ 0x46 ∷ []

abbrev pub webp : List ℕ
webp = 0x57 ∷ 0x45 ∷ 0x42 ∷ 0x50 ∷ []

-- `HasImageSignature`.
unfoldable pub has_image_signature : List ℕ → Bool
has_image_signature bytes =
    (leb 3 (length bytes) && stands_at 0 jpeg bytes)
    || ((leb 8 (length bytes) && stands_at 0 png bytes)
        || ((leb 6 (length bytes) && (stands_at 0 gif_87 bytes || stands_at 0 gif_89 bytes))
            || (leb 12 (length bytes) && (stands_at 0 riff bytes && stands_at 8 webp bytes))))

-- The cached file and the temporary one beside it.
pub record Disk : Type 0 where
  pub image : Option (List ℕ)
  pub temporary : Option (List ℕ)

-- Which calls succeed: opening the file, removing it, opening the temporary file, writing all of
-- it, removing it, and the rename. `partial` is what a write that failed has left.
pub record FileCalls : Type 0 where
  pub reads : Bool
  pub removes : Bool
  pub creates : Bool
  pub writes : Bool
  pub removes_temporary : Bool
  pub renames : Bool
  pub partial : List ℕ

abbrev pub remove_image : FileCalls → Disk → Disk
remove_image f d = record d { image = if f.removes then none else d.image }

abbrev pub remove_temporary : FileCalls → Disk → Disk
remove_temporary f d = record d { temporary = if f.removes_temporary then none else d.temporary }

abbrev pub is_size_allowed : List ℕ → Bool
is_size_allowed bytes = ltb 0 (length bytes) && leb (length bytes) maximum_cached_image_size

abbrev pub check_cached : FileCalls → Disk → List ℕ → Disk × Option (List ℕ)
check_cached f d bytes =
    if is_size_allowed bytes && has_image_signature bytes
    then (d, some bytes)
    else (remove_image f d, none)

abbrev pub read_opened : FileCalls → Disk → Option (List ℕ) → Disk × Option (List ℕ)
read_opened f d none = (d, none)
read_opened f d (some bytes) = if f.reads then check_cached f d bytes else (d, none)

-- `ReadCachedImage`: a file that is no image is removed.
unfoldable pub read_cached_image : FileCalls → Disk → Disk × Option (List ℕ)
read_cached_image f d = read_opened f d d.image

-- The old file is removed, and the temporary one renamed.
abbrev pub install : FileCalls → List ℕ → Disk → Disk
install f bytes d =
    if f.renames
    then record { image = some bytes; temporary = none }
    else remove_temporary f (remove_image f (record d { temporary = some bytes }))

-- `WriteCachedImage`.
pub write_cached_image : FileCalls → List ℕ → Disk → Disk
write_cached_image f bytes d =
    if not (ltb 0 (length bytes)) || not (has_image_signature bytes)
    then d
    else if not f.creates
    then d
    else if not f.writes
    then remove_temporary f (record d { temporary = some f.partial })
    else install f bytes d

-- `HttpResponse`, as far as it is read.
pub record HttpResponse : Type 0 where
  pub status_code : ℕ
  pub body : List ℕ

abbrev pub is_image_response : HttpResponse → Bool
is_image_response r =
    (r.status_code == 200) && (is_size_allowed r.body && has_image_signature r.body)

-- `none` for a request that throws.
abbrev pub store_response : FileCalls → Disk → Option HttpResponse → Disk × Option (List ℕ)
store_response f d none = (d, none)
store_response f d (some r) =
    if is_image_response r then (write_cached_image f r.body d, some r.body) else (d, none)

abbrev pub load_missing :
    FileCalls → Option HttpResponse → Disk × Option (List ℕ) → Disk × Option (List ℕ)
load_missing f response (d, some bytes) = (d, some bytes)
load_missing f response (d, none) = store_response f d response

-- `Load`.
unfoldable pub load : FileCalls → Option HttpResponse → Disk → Disk × Option (List ℕ)
load f response d = load_missing f response (read_cached_image f d)
