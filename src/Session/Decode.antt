-- ===== src/Session/Decode.antt =====
-- app/src/webrtc/media.cpp, app/src/stream/DecodeQueuePolicy.hpp: the queue of access units between
-- the network thread and the decoder thread. The mutex makes taking a unit and enqueueing one atomic;
-- `in_flight` is the unit that the decoder thread holds between taking and recycling it, so calls of
-- the network thread may come in between. What FFmpeg answers is an argument. Log lines and the
-- counters that only they read are left out; counters do not wrap.
pub mod Bound
pub mod Order
pub mod Gate
mod Tests
use Prim.Native.Nat.{max, min}
use booster_nx.Common.{
  ℕ, zero, suc, ◌+◌, ◌*◌, ◌/◌, Bool, true, false, ◌&&◌, ◌||◌, not, Option, none, some, List, [],
  ◌∷◌, ◌++◌, length, leb, ltb, ◌==◌, if◌then◌else◌,
}
use booster_nx.Session.H264.{contains_idr}

-- `MaximumQueuedAccessUnits`. Rates below one count as one.
pub max_queued_units : ℕ → ℕ
max_queued_units fps = min 4 (max 2 ((max 1 fps + 14) / 15))

-- `kPoolLimit` and `kMaximumReusableCapacity`.
abbrev pub pool_limit : ℕ
pool_limit = 8

abbrev pub max_reusable_capacity : ℕ
max_reusable_capacity = 2 * 1024 * 1024

-- `capacity` is that of the vector `bytes`.
pub record DecodeUnit : Type 0 where
  pub bytes : List ℕ
  pub capacity : ℕ
  pub idr : Bool
  pub rtp_timestamp : ℕ
  pub enqueued_at : ℕ

-- `pool` holds the capacities of empty vectors. `hardware` is `none` without a decoder, and else
-- what `uses_hardware_frames` answers. `resets` counts the calls of `reset_stream`.
pub record Decoder : Type 0 where
  pub running : Bool
  pub fps : ℕ
  pub hardware : Option Bool
  pub queue : List DecodeUnit
  pub in_flight : Option DecodeUnit
  pub pool : List ℕ
  pub resync_required : Bool
  pub reset_requested : Bool
  pub keyframe_needed : Bool
  pub drops : ℕ
  pub reuses : ℕ
  pub allocations : ℕ
  pub high_water : ℕ
  pub frames_decoded : ℕ
  pub decode_errors : ℕ
  pub last_decoded_us : ℕ
  pub resets : ℕ

-- `recycle_decode_buffer_locked`, on the pool.
pub recycle : List ℕ → ℕ → List ℕ
recycle pool capacity =
    if leb pool_limit (length pool) || ltb max_reusable_capacity capacity
    then pool
    else pool ++ (capacity ∷ [])

-- `clear_decoder_queue_locked`, on the pool.
pub recycle_all : List ℕ → List DecodeUnit → List ℕ
recycle_all pool [] = pool
recycle_all pool (u ∷ us) = recycle_all (recycle pool u.capacity) us

abbrev pub clear_queue : Decoder → Decoder
clear_queue d = record d { queue = []; pool = recycle_all d.pool d.queue }

-- `!decoder_ || !decoder_->uses_hardware_frames()`.
abbrev pub software : Option Bool → Bool
software none = true
software (some hw) = not hw

-- The queue is given up: the next unit that is decoded has to be an IDR.
abbrev pub give_up_queue : Decoder → Decoder
give_up_queue d =
    let e = clear_queue (record d { drops = d.drops + length d.queue }) in
    record e { resync_required = true; reset_requested = e.reset_requested || software e.hardware }

abbrev pub drop_unit : Decoder → Decoder
drop_unit d = record d { drops = d.drops + 1 }

-- `buffer.resize(size)` of an empty vector allocates what is missing.
abbrev pub next_capacity : List ℕ → ℕ → ℕ
next_capacity [] size = size
next_capacity (c ∷ cs) size = max c size

abbrev pub is_empty {ℓ} : {A : Type ℓ} → List A → Bool
is_empty [] = true
is_empty (x ∷ xs) = false

abbrev pub pop_front {ℓ} : {A : Type ℓ} → List A → List A
pop_front [] = []
pop_front (x ∷ xs) = xs

-- The front of the pool, or a new vector.
abbrev pub take_buffer : Decoder → Decoder
take_buffer d = record d {
  pool = pop_front d.pool;
  reuses = if is_empty d.pool then d.reuses else d.reuses + 1;
  allocations = if is_empty d.pool then d.allocations + 1 else d.allocations;
}

abbrev pub new_unit : Decoder → List ℕ → ℕ → ℕ → DecodeUnit
new_unit d bytes rtp now = record {
  bytes = bytes;
  capacity = next_capacity d.pool (length bytes);
  idr = contains_idr bytes;
  rtp_timestamp = rtp;
  enqueued_at = now;
}

-- `decoder_queue_.push_back` and the high-water mark.
abbrev pub push_back : Decoder → DecodeUnit → Decoder
push_back d u = record d {
  queue = d.queue ++ (u ∷ []);
  high_water = max d.high_water (length d.queue + 1);
}

abbrev pub push_unit : Decoder → List ℕ → ℕ → ℕ → Decoder
push_unit d bytes rtp now = push_back (take_buffer d) (new_unit d bytes rtp now)

abbrev pub overflow : Decoder → Decoder
overflow d = record (give_up_queue d) { keyframe_needed = true }

-- The part of `enqueue_decode_unit` under the mutex.
pub admit_unit : Decoder → List ℕ → ℕ → ℕ → Decoder
admit_unit d bytes rtp now =
    if d.resync_required && not (contains_idr bytes)
    then drop_unit d
    else (if leb (max_queued_units d.fps) (length d.queue)
        then (if contains_idr bytes
            then push_unit (overflow d) bytes rtp now
            else drop_unit (overflow d))
        else push_unit d bytes rtp now)

-- Whether `enqueue_decode_unit` looks at a unit at all.
abbrev pub takes : Decoder → List ℕ → Bool
takes d bytes = not (is_empty bytes) && d.running

pub enqueue : Decoder → List ℕ → ℕ → ℕ → Decoder
enqueue d bytes rtp now = if takes d bytes then admit_unit d bytes rtp now else d

-- A unit is taken when the thread runs, holds none and finds one; it waits otherwise.
abbrev pub take_from :
    Decoder → Bool → Option DecodeUnit → List DecodeUnit → Decoder × List DecodeUnit
take_from d true none (u ∷ us) = (record d { queue = us; in_flight = some u }, u ∷ [])
take_from d running held queue = (d, [])

-- The first part of a round of `decoder_loop`, up to the end of the lock.
pub take_unit : Decoder → Decoder × List DecodeUnit
take_unit d = take_from d d.running d.in_flight d.queue

-- What `submit_decode_unit` returns: an error, or a number of frames.
pub data Decoded : Type 0 where
  decode_failed : Decoded
  decoded : ℕ → Decoded

abbrev pub request_reset : Decoder → Decoder
request_reset d = record d {
  reset_requested = false;
  resets = elim d.hardware [
    | none ↦ d.resets
    | some hw ↦ if d.reset_requested then d.resets + 1 else d.resets
  ];
}

-- Without a decoder every unit fails.
abbrev pub decoder_result : Option Bool → Decoded → Decoded
decoder_result none r = decode_failed
decoder_result (some hw) r = r

abbrev pub note_result : Decoder → Bool → Decoded → ℕ → Decoder
note_result d idr decode_failed now = record d {
  decode_errors = d.decode_errors + 1;
  resync_required = true;
  reset_requested = d.reset_requested || software d.hardware;
  keyframe_needed = true;
}
note_result d idr (decoded n) now = record d {
  last_decoded_us = if n == 0 then d.last_decoded_us else now;
  frames_decoded = d.frames_decoded + n;
  resync_required = if idr then false else d.resync_required;
  keyframe_needed = if idr then false else d.keyframe_needed;
}

abbrev pub finish_with : Decoder → Option DecodeUnit → Decoded → ℕ → Decoder
finish_with d none r now = d
finish_with d (some u) r now =
    let e = note_result (request_reset d) u.idr (decoder_result d.hardware r) now in
    record e { in_flight = none; pool = recycle e.pool u.capacity }

-- The rest of the round, with what FFmpeg answered.
pub finish_unit : Decoder → Decoded → ℕ → Decoder
finish_unit d r now = finish_with d d.in_flight r now

-- What happens to the queue, in any order: a unit from the network thread, the two parts of a round
-- of the decoder thread, the queue given up after a stall, and `request_stop`.
pub data Event : Type 0 where
  offer : List ℕ → ℕ → ℕ → Event
  take_one stall stop_request : Event
  finish : Decoded → ℕ → Event

abbrev pub step : Decoder → Event → Decoder × List DecodeUnit
step d (offer bytes rtp now) = (enqueue d bytes rtp now, [])
step d take_one = take_unit d
step d stall = (give_up_queue d, [])
step d stop_request = (record d { running = false }, [])
step d (finish r now) = (finish_unit d r now, [])

-- The state after a list of events, and the units that were taken.
pub run : Decoder → List Event → Decoder × List DecodeUnit
run d [] = (d, [])
run d (v ∷ vs) = let (e, us) = step d v in let (f, ws) = run e vs in (f, us ++ ws)
