-- ===== src/Images/Tests.antt =====
-- Runs of the image cache at concrete inputs, and the properties at inputs where their hypotheses
-- hold. Images are numbers there: each is as large as it says.
use booster_nx.Common.{
  ℕ, ◌+◌, ◌*◌, ◌≤◌, ◌≡◌, refl, ap, ◌≢◌, ◌⊎◌, true, false, Option, none, some, List, [], ◌∷◌, length,
  map, String, arith,
}
use booster_nx.Common.Dict.{lookup, insert, erase}
use booster_nx.Images.Memory.{
  Memory, MemoryEntry, new_memory, insert_memory_cache, evict, erase_used, least_used, size_used,
}
use booster_nx.Images.Memory.Recency.{In, From}
use booster_nx.Images.Memory.Insert.{IsSound, insert_memory_cache-least_recent}
use booster_nx.Images.Loader.{
  ImageLoader, Event, ask, begin, finish, prefetch, normal, critical, new_loader, fresh, run,
  request, begin_load, finish_load,
}
use booster_nx.Images.Loader.Queues.{queued}
use booster_nx.Images.Loader.Valid.{IsConsistent}
use booster_nx.Images.Loader.Flight.{run-IsConsistent, new_loader-IsConsistent}
use booster_nx.Images.Loader.Work.{Works, length-Works-le, IsIdle}
use booster_nx.Images.Loader.Served.{called, given, run-serves_all}
use booster_nx.Images.Disk.{
  Disk, FileCalls, HttpResponse, load, read_cached_image, has_image_signature,
}
use booster_nx.Images.Disk.Load.{IsImage, load_twice}

abbrev as_size : ℕ → ℕ
as_size n = n

-- Three images of 6 MB do not fit: the first one goes.
abbrev three_images : Memory ℕ
three_images =
    insert_memory_cache as_size "c" 6000000
      (insert_memory_cache as_size "b" 6000000 (insert_memory_cache as_size "a" 6000000 new_memory))

oldest_goes : map (λ e. e.0) three_images.entries ≡ "b" ∷ "c" ∷ []
unfolding insert_memory_cache evict erase_used least_used size_used lookup insert
oldest_goes = refl

bytes_left : three_images.bytes ≡ 12000000
unfolding insert_memory_cache evict erase_used least_used size_used lookup insert
bytes_left = refl

-- Two requests for one image, the second one urgent; a prefetch; then the workers.
abbrev requests : List (Event ℕ)
requests =
    ask "a" normal (some 1)
    ∷ ask "b" prefetch none
    ∷ ask "a" critical (some 2)
    ∷ begin
    ∷ begin
    ∷ begin
    ∷ finish "a" (some 7)
    ∷ finish "b" none
    ∷ ask "a" normal (some 3)
    ∷ []

requests_served :
    (run as_size new_loader requests).calls ≡ (1, some 7) ∷ (2, some 7) ∷ (3, some 7) ∷ []
unfolding run request begin_load finish_load lookup insert erase insert_memory_cache evict
requests_served = refl

new_memory-IsSound : IsSound as_size new_memory
new_memory-IsSound = record { counted = refl; within = omega arith; recent = tt }

abbrev first_image : MemoryEntry ℕ
first_image = record { image = 5; last_used = 1 }

insert_memory_cache-least_recent_example :
    IsSound as_size (insert_memory_cache as_size "a" 5 new_memory)
    × (lookup "a" (insert_memory_cache as_size "a" 5 new_memory).entries ≡ some first_image)
    × ((k : String) (e : MemoryEntry ℕ)
        → In k e new_memory.entries
        → k ≢ "a"
        → In k e (insert_memory_cache as_size "a" 5 new_memory).entries
          ⊎ From e.last_used (insert_memory_cache as_size "a" 5 new_memory).entries)
insert_memory_cache-least_recent_example =
    insert_memory_cache-least_recent as_size "a" 5 new_memory new_memory-IsSound (omega arith)
      (omega arith)

run-IsConsistent_example : IsConsistent as_size (run as_size new_loader requests)
run-IsConsistent_example =
    run-IsConsistent as_size new_loader requests (new_loader-IsConsistent as_size)

run-serves_all_example :
    (called 1 (run as_size new_loader requests).calls ≤ given 1 requests)
    × ((run as_size new_loader requests).stopping ≡ false
        → IsIdle as_size (run as_size new_loader requests)
        → called 1 (run as_size new_loader requests).calls ≡ given 1 requests)
run-serves_all_example = run-serves_all as_size requests 1

-- A loader with one request, which is queued.
abbrev one_request : ImageLoader ℕ
one_request = record (new_loader {A = ℕ}) {
  normal_queue = ("a", normal) ∷ [];
  pending = ("a", fresh normal none) ∷ [];
}

-- It is taken off the queue, loaded, and done.
one_request-Works : Works as_size one_request (begin ∷ finish "a" (some 5) ∷ [])
unfolding begin_load finish_load lookup insert erase
one_request-Works =
    let loads = λ (l : ImageLoader ℕ). length l.loading in
    (tt, (λ e. omega (arith, ap loads e)), (tt, (λ e. omega (arith, ap loads e)), tt))

length-Works-le_example :
    length {A = Event ℕ} (begin ∷ finish "a" (some 5) ∷ [])
    ≤ 2 * length (queued one_request) + length one_request.loading
length-Works-le_example =
    length-Works-le as_size (begin ∷ finish "a" (some 5) ∷ []) one_request one_request-Works

abbrev small_jpeg : List ℕ
small_jpeg = 0xff ∷ 0xd8 ∷ 0xff ∷ 1 ∷ []

abbrev all_succeed : FileCalls
all_succeed = record {
  reads = true;
  removes = true;
  creates = true;
  writes = true;
  removes_temporary = true;
  renames = true;
  partial = [];
}

abbrev empty_disk : Disk
empty_disk = record { image = none; temporary = none }

abbrev image_response : Option HttpResponse
image_response = some (record { status_code = 200; body = small_jpeg })

loads_response : (load all_succeed image_response empty_disk).1 ≡ some small_jpeg
unfolding load read_cached_image has_image_signature
loads_response = refl

load_twice_example :
    IsImage (some small_jpeg)
    × (all_succeed.creates ≡ true
        → all_succeed.writes ≡ true
        → all_succeed.renames ≡ true
        → all_succeed.reads ≡ true
        → (load all_succeed none (load all_succeed image_response empty_disk).0).1
          ≡ some small_jpeg)
load_twice_example =
    load_twice all_succeed all_succeed image_response none empty_disk small_jpeg loads_response
