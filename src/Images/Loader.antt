-- ===== src/Images/Loader.antt =====
-- app/src/cover_image_cache.cpp: `ImageLoader`. The mutex makes `Request` and the two locked parts of
-- a round of `WorkerLoop` atomic; what `Load` answers between them is an argument. A completion is a
-- number; calling one is an entry of `calls`, with the image or `none`. A worker's `state` is the
-- request that `pending_` holds under the URL it loads: only that worker erases it. Completions are
-- called outside the lock, all in one step here; what they throw is swallowed. Counters do not wrap.
pub mod Queues
pub mod Requests
pub mod Valid
pub mod Taken
pub mod Flight
pub mod Work
pub mod Served
use booster_nx.Common.{
  ℕ, zero, suc, ◌+◌, Bool, true, false, ◌&&◌, ◌||◌, not, Option, none, some, List, [], ◌∷◌, ◌++◌,
  map, length, ltb, ◌==◌, String, if◌then◌else◌,
}
use booster_nx.Common.Dict.{same, lookup, insert, erase}
use booster_nx.Images.Memory.{Memory, MemoryEntry, new_memory, touch, insert_memory_cache}

-- `kImageWorkerCount`.
abbrev pub image_worker_count : ℕ
image_worker_count = 3

pub data Priority : Type 0 where
  prefetch normal critical : Priority

-- The values of the enumeration.
abbrev pub rank : Priority → ℕ
rank prefetch = 0
rank normal = 1
rank critical = 2

pub record PendingRequest : Type 0 where
  pub priority : Priority
  pub started : Bool
  pub completions : List ℕ

-- `QueueEntry`: the URL and the priority.
abbrev pub QueueEntry : Type 0
QueueEntry = String × Priority

pub record ImageLoader (A : Type 0) : Type 0 where
  pub critical_queue : List QueueEntry
  pub normal_queue : List QueueEntry
  pub prefetch_queue : List QueueEntry
  pub pending : List (String × PendingRequest)
  pub memory : Memory A
  pub stopping : Bool
  pub loading : List String
  pub calls : List (ℕ × Option A)

abbrev pub new_loader : {A : Type 0} → ImageLoader A
new_loader = record {
  critical_queue = [];
  normal_queue = [];
  prefetch_queue = [];
  pending = [];
  memory = new_memory;
  stopping = false;
  loading = [];
  calls = [];
}

-- `if (completion) completions.push_back(completion)`.
abbrev pub add_completion : Option ℕ → List ℕ → List ℕ
add_completion none cs = cs
add_completion (some c) cs = cs ++ (c ∷ [])

abbrev pub is_loading : String → List String → Bool
is_loading url [] = false
is_loading url (u ∷ us) = same u url || is_loading url us

-- The worker that loaded `url` has finished.
abbrev pub release_worker : String → List String → List String
release_worker url [] = []
release_worker url (u ∷ us) = if same u url then us else u ∷ release_worker url us

abbrev pub is_raised : Priority → PendingRequest → Bool
is_raised pr p = not p.started && ltb (rank p.priority) (rank pr)

abbrev pub fresh : Priority → Option ℕ → PendingRequest
fresh pr c = record { priority = pr; started = false; completions = add_completion c [] }

abbrev pub same_priority : Priority → Priority → Bool
same_priority a b = rank a == rank b

abbrev pub is_stale : Priority → Option PendingRequest → Bool
is_stale pr none = true
is_stale pr (some p) = p.started || not (same_priority p.priority pr)

abbrev pub mark_started : Option PendingRequest → PendingRequest
mark_started none = fresh normal none
mark_started (some p) = record p { started = true }

abbrev pub completions_of : Option PendingRequest → List ℕ
completions_of none = []
completions_of (some p) = p.completions

-- What happens, in any order: requests, the two parts of a worker's round, and the shutdown.
pub data Event (A : Type 0) : Type 0 where
  ask : String → Priority → Option ℕ → Event A
  begin shutdown : Event A
  finish : String → Option A → Event A

module _ {A : Type 0} where
  -- `Queue`.
  abbrev pub enqueue : String → Priority → ImageLoader A → ImageLoader A
  enqueue url critical l = record l { critical_queue = l.critical_queue ++ ((url, critical) ∷ []) }
  enqueue url normal l = record l { normal_queue = l.normal_queue ++ ((url, normal) ∷ []) }
  enqueue url prefetch l = record l { prefetch_queue = l.prefetch_queue ++ ((url, prefetch) ∷ []) }

  -- `PopNext`: the front of the first queue that is not empty.
  abbrev pub pop_from :
      List QueueEntry
      → List QueueEntry
      → List QueueEntry
      → ImageLoader A
      → Option (QueueEntry × ImageLoader A)
  pop_from (e ∷ critical') normal' prefetch' l = some (e, record l { critical_queue = critical' })
  pop_from [] (e ∷ normal') prefetch' l = some (e, record l { normal_queue = normal' })
  pop_from [] [] (e ∷ prefetch') l = some (e, record l { prefetch_queue = prefetch' })
  pop_from [] [] [] l = none

  abbrev pub pop_next : ImageLoader A → Option (QueueEntry × ImageLoader A)
  pop_next l = pop_from l.critical_queue l.normal_queue l.prefetch_queue l

  -- The completion of a hit is called at once.
  abbrev pub call_hit : Option ℕ → A → ImageLoader A → ImageLoader A
  call_hit none a l = l
  call_hit (some c) a l = record l { calls = l.calls ++ ((c, some a) ∷ []) }

  abbrev pub hit : String → Option ℕ → MemoryEntry A → ImageLoader A → ImageLoader A
  hit url c e l = call_hit c e.image (record l { memory = touch url e l.memory })

  -- A request for what is pending already; one of a higher priority is queued once more.
  abbrev pub join : String → Priority → Option ℕ → PendingRequest → ImageLoader A → ImageLoader A
  join url pr c p l =
      let q = record p { completions = add_completion c p.completions } in
      if is_raised pr p
      then enqueue url pr (record l { pending = insert url (record q { priority = pr }) l.pending })
      else record l { pending = insert url q l.pending }

  abbrev pub fresh_request : String → Priority → Option ℕ → ImageLoader A → ImageLoader A
  fresh_request url pr c l =
      enqueue url pr (record l { pending = insert url (fresh pr c) l.pending })

  -- What `pending_` and `memory_cache_` hold under the URL.
  abbrev pub miss :
      String → Priority → Option ℕ → Option PendingRequest → ImageLoader A → ImageLoader A
  miss url pr c (some p) l = join url pr c p l
  miss url pr c none l = fresh_request url pr c l

  abbrev pub answer :
      String → Priority → Option ℕ → Option (MemoryEntry A) → ImageLoader A → ImageLoader A
  answer url pr c (some e) l = hit url c e l
  answer url pr c none l = miss url pr c (lookup url l.pending) l

  -- `Request`.
  unfoldable pub request : String → Priority → Option ℕ → ImageLoader A → ImageLoader A
  request url pr c l = answer url pr c (lookup url l.memory.entries) l

  abbrev pub begin_entry : QueueEntry → ImageLoader A → ImageLoader A
  begin_entry e l = if is_stale e.1 (lookup e.0 l.pending) then l else record l {
    pending = insert e.0 (mark_started (lookup e.0 l.pending)) l.pending;
    loading = l.loading ++ (e.0 ∷ []);
  }

  abbrev pub begin_popped : ImageLoader A → Option (QueueEntry × ImageLoader A) → ImageLoader A
  begin_popped l none = l
  begin_popped l (some (e, k)) = begin_entry e k

  -- The first part of a round of `WorkerLoop`, by a worker that is free.
  unfoldable pub begin_load : ImageLoader A → ImageLoader A
  begin_load l =
      if l.stopping || not (ltb (length l.loading) image_worker_count)
      then l
      else begin_popped l (pop_next l)

  abbrev pub call_all : List ℕ → Option A → List (ℕ × Option A)
  call_all cs a = map (λ c. (c, a)) cs

  -- The destructor, up to the joins: a worker that loads returns when it is done.
  abbrev pub stop : ImageLoader A → ImageLoader A
  stop l = record l { stopping = true; critical_queue = []; normal_queue = []; prefetch_queue = [] }

module _ {A : Type 0} (size : A → ℕ) where
  abbrev pub remember : String → Option A → Memory A → Memory A
  remember url none c = c
  remember url (some a) c = insert_memory_cache size url a c

  -- The second part of the round, when `Load` has answered.
  abbrev pub complete : String → Option A → ImageLoader A → ImageLoader A
  complete url a l = record l {
    memory = remember url a l.memory;
    calls = l.calls ++ call_all (completions_of (lookup url l.pending)) a;
    pending = erase url l.pending;
    loading = release_worker url l.loading;
  }

  unfoldable pub finish_load : String → Option A → ImageLoader A → ImageLoader A
  finish_load url a l =
      if not (is_loading url l.loading)
      then l
      else if l.stopping
      then record l { loading = release_worker url l.loading }
      else complete url a l

  abbrev pub step : ImageLoader A → Event A → ImageLoader A
  step l (ask url pr c) = request url pr c l
  step l begin = begin_load l
  step l shutdown = stop l
  step l (finish url a) = finish_load url a l

  unfoldable pub run : ImageLoader A → List (Event A) → ImageLoader A
  run l [] = l
  run l (v ∷ vs) = run (step l v) vs
