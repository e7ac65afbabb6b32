-- ===== src/Video/Queue.antt =====
-- app/src/stream/ffmpeg/AVFrameHolder.cpp and .hpp: the queue between the decoder and the renderer.
-- A frame is the clone that FFmpeg made, with an identity and its 64-bit `pts`; whether the clone
-- succeeded comes in as an option. `freed` records the calls of `av_frame_free`. Each method holds
-- the queue's mutex throughout, so the methods are functions on the state. Counters do not wrap.
pub mod Inv
pub mod Ownership
pub mod Latest
mod Tests
use booster_nx.Common.{
  ℕ, suc, ◌+◌, ◌%◌, ◌≡◌, Bool, true, false, not, Option, none, some, List, [], ◌∷◌, ◌++◌, length,
  max, ltb, ◌==◌, if◌then◌else◌,
}
use booster_nx.Common.Word.{u32_mod}
use booster_nx.Video.Timing.{FrameDecision, present, hold_previous, drop_superseded, decide_frame}

pub record Frame : Type 0 where
  pub id : ℕ
  pub pts : ℕ

-- `AV_NOPTS_VALUE` is INT64_MIN; its bit pattern.
abbrev pub no_pts : ℕ
no_pts = 9223372036854775808

-- `static_cast<uint32_t>` of a `pts`.
abbrev pub timestamp_of : ℕ → ℕ
timestamp_of pts = pts % u32_mod

pub record Stats : Type 0 where
  pub fake_frame_used : ℕ
  pub frames_dropped : ℕ
  pub timing_dropped : ℕ
  pub overflow_dropped : ℕ
  pub timing_hold : ℕ
  pub frames_copied : ℕ

pub record FrameQueue : Type 0 where
  pub limit : ℕ
  pub queue : List Frame
  pub generations : List ℕ
  pub buffer_frame : Option Frame
  pub next_generation : ℕ
  pub buffer_generation : ℕ
  pub stats : Stats
  pub freed : List Frame

abbrev pub no_stats : Stats
no_stats = record {
  fake_frame_used = 0;
  frames_dropped = 0;
  timing_dropped = 0;
  overflow_dropped = 0;
  timing_hold = 0;
  frames_copied = 0;
}

-- The state of a new queue.
abbrev pub new_queue : FrameQueue
new_queue = record {
  limit = 3;
  queue = [];
  generations = [];
  buffer_frame = none;
  next_generation = 0;
  buffer_generation = 0;
  stats = no_stats;
  freed = [];
}

abbrev pub pop_front {ℓ} : {A : Type ℓ} → List A → List A
pop_front [] = []
pop_front (x ∷ xs) = xs

abbrev pub front_frames : List Frame → List Frame
front_frames [] = []
front_frames (f ∷ fs) = f ∷ []

abbrev pub buffer_list : Option Frame → List Frame
buffer_list none = []
buffer_list (some f) = f ∷ []

abbrev pub is_some {ℓ} : {A : Type ℓ} → Option A → Bool
is_some none = false
is_some (some a) = true

abbrev pub append_frame : FrameQueue → Frame → FrameQueue
append_frame s f = record s {
  queue = s.queue ++ (f ∷ []);
  generations = s.generations ++ (suc s.next_generation ∷ []);
  next_generation = suc s.next_generation;
  stats = record s.stats { frames_copied = s.stats.frames_copied + 1 };
}

abbrev pub drop_overflow : FrameQueue → FrameQueue
drop_overflow s = record s {
  queue = pop_front s.queue;
  generations = pop_front s.generations;
  freed = front_frames s.queue ++ s.freed;
  stats = record s.stats {
    frames_dropped = s.stats.frames_dropped + 1;
    overflow_dropped = s.stats.overflow_dropped + 1;
  };
}

-- `push`, given what `av_frame_clone` returned.
pub push : FrameQueue → Option Frame → FrameQueue
push s none = s
push s (some f) =
    let t = append_frame s f in if ltb t.limit (length t.queue) then drop_overflow t else t

-- What `pop` returns through its result and its references.
pub record Popped : Type 0 where
  pub frame : Option Frame
  pub generation : ℕ
  pub reused : Bool

abbrev pub drop_front : FrameQueue → FrameQueue
drop_front s = record s {
  queue = pop_front s.queue;
  generations = pop_front s.generations;
  freed = front_frames s.queue ++ s.freed;
  stats = record s.stats {
    frames_dropped = s.stats.frames_dropped + 1;
    timing_dropped = s.stats.timing_dropped + 1;
  };
}

-- `queue.size() > 1 && queue[1]->pts != AV_NOPTS_VALUE`, and `queue[1]->pts` where that holds.
abbrev pub has_next : List Frame → Bool
has_next [] = false
has_next (f ∷ fs) = not (f.pts == no_pts)

abbrev pub next_timestamp : List Frame → ℕ
next_timestamp [] = 0
next_timestamp (f ∷ fs) = if f.pts == no_pts then 0 else timestamp_of f.pts

-- The loop of `pop` over the frames in the queue. The Boolean says that it held the last frame.
drop_loop : List Frame → FrameQueue → ℕ → FrameQueue × Bool
drop_loop [] s target = (s, false)
drop_loop (f ∷ fs) s target = elim (f.pts == no_pts) [
  | true ↦ (s, false)
  | false ↦
      elim (decide_frame (timestamp_of f.pts) (has_next fs) (next_timestamp fs)
        (is_some s.buffer_frame) (timestamp_of target)) [
          | hold_previous ↦ (s, true)
          | present ↦ (s, false)
          | drop_superseded ↦ drop_loop fs (drop_front s) target
        ]
]

abbrev pub count_fake : Stats → Stats
count_fake t = record t { fake_frame_used = t.fake_frame_used + 1 }

abbrev pub hold_buffer : FrameQueue → FrameQueue × Popped
hold_buffer s = (
  record s { stats = record (count_fake s.stats) { timing_hold = s.stats.timing_hold + 1 } },
  record { frame = s.buffer_frame; generation = s.buffer_generation; reused = true },
)

abbrev pub front_generation : List ℕ → ℕ
front_generation [] = 0
front_generation (g ∷ gs) = g

-- The part after the loop, by the frames left.
abbrev pub take_front : List Frame → FrameQueue → FrameQueue × Popped
take_front [] s = (
  record s { stats = count_fake s.stats },
  record { frame = s.buffer_frame; generation = s.buffer_generation; reused = true },
)
take_front (f ∷ fs) s = (
  record s {
    queue = fs;
    generations = pop_front s.generations;
    buffer_frame = some f;
    buffer_generation = front_generation s.generations;
    freed = buffer_list s.buffer_frame ++ s.freed;
  },
  record { frame = some f; generation = front_generation s.generations; reused = false },
)

pub pop : FrameQueue → ℕ → FrameQueue × Popped
pop s target =
    if target == no_pts
    then take_front s.queue s
    else (let (t, held) = drop_loop s.queue s target in
        if held then hold_buffer t else take_front t.queue t)

pub cleanup : FrameQueue → FrameQueue
cleanup s = record s {
  queue = [];
  generations = [];
  buffer_frame = none;
  next_generation = 0;
  buffer_generation = 0;
  stats = no_stats;
  freed = s.queue ++ (buffer_list s.buffer_frame ++ s.freed);
}

-- `AVFrameHolder::prepare`.
pub prepare : FrameQueue → ℕ → FrameQueue
prepare s queue_limit = record s { limit = max 2 queue_limit }
