-- ===== src/Session/Decode/Bound.antt =====
-- app/src/webrtc/media.cpp: the bounds of the decode queue and of the pool of its buffers.
use booster_nx.Common.{
  ℕ, ◌+◌, ◌≤◌, Bool, true, false, not, ◌&&◌, ◌||◌, Option, none, some, List, [], ◌∷◌, ◌++◌, All,
  length, length-append, leb, ltb, arith, Bool-cases, inl, inr,
}
use booster_nx.Session.H264.{contains_idr}
use booster_nx.Session.Decode.{
  DecodeUnit, Decoder, Event, offer, take_one, stall, stop_request, finish, max_queued_units,
  recycle, recycle_all, give_up_queue, overflow, push_unit, admit_unit, enqueue, take_unit,
  finish_unit, step, run, max_reusable_capacity, takes, decoded, decode_failed, Decoded,
  note_result, request_reset, decoder_result, new_unit, pop_front, take_from, finish_with,
}

abbrev pub IsPool : List ℕ → Type 0
IsPool pool = (length pool ≤ 8) × All (λ c. c ≤ max_reusable_capacity) pool

-- The queue holds no more units than its frame rate allows, and never has; the pool holds at most
-- eight buffers, none above two megabytes.
abbrev pub IsBounded : Decoder → Type 0
IsBounded d =
    (length d.queue ≤ max_queued_units d.fps)
    × (d.high_water ≤ max_queued_units d.fps)
    × IsPool d.pool

All-snoc :
    (xs : List ℕ) (c : ℕ)
    → All (λ c. c ≤ max_reusable_capacity) xs
    → c ≤ max_reusable_capacity
    → All (λ c. c ≤ max_reusable_capacity) (xs ++ (c ∷ []))
All-snoc [] c h hc = (hc, tt)
All-snoc (x ∷ xs) c h hc = (h.0, All-snoc xs c h.1 hc)

recycle-IsPool : (pool : List ℕ) (c : ℕ) → IsPool pool → IsPool (recycle pool c)
unfolding recycle
recycle-IsPool pool c h = elim (Bool-cases (leb 8 (length pool) || ltb max_reusable_capacity c)) [
  | inl e ↦ rw e h
  | inr e ↦
      rw e (
        ground (arith, h.0, length-append pool (c ∷ []), e),
        All-snoc pool c h.1 (ground (arith, e)),
      )
]

recycle_all-IsPool :
    (us : List DecodeUnit) (pool : List ℕ) → IsPool pool → IsPool (recycle_all pool us)
unfolding recycle_all
recycle_all-IsPool [] pool h = h
recycle_all-IsPool (u ∷ us) pool h =
    recycle_all-IsPool us (recycle pool u.capacity) (recycle-IsPool pool u.capacity h)

max_queued_units_pos : (fps : ℕ) → 2 ≤ max_queued_units fps
unfolding max_queued_units
max_queued_units_pos fps = omega arith

pop_front-IsPool : (pool : List ℕ) → IsPool pool → IsPool (pop_front pool)
pop_front-IsPool [] h = h
pop_front-IsPool (c ∷ cs) h = (omega (arith, h.0), h.1.1)

push_unit-IsBounded :
    (d : Decoder) (bytes : List ℕ) (rtp now : ℕ)
    → IsBounded d
    → length d.queue + 1 ≤ max_queued_units d.fps
    → IsBounded (push_unit d bytes rtp now)
push_unit-IsBounded d bytes rtp now h room = (
  omega (arith, length-append d.queue (new_unit d bytes rtp now ∷ [])),
  omega (arith, h.1),
  pop_front-IsPool d.pool h.2,
)

give_up_queue-IsBounded : (d : Decoder) → IsBounded d → IsBounded (give_up_queue d)
give_up_queue-IsBounded d h = (omega arith, h.1, recycle_all-IsPool d.queue d.pool h.2)

admit_unit-IsBounded :
    (d : Decoder) (bytes : List ℕ) (rtp now : ℕ)
    → IsBounded d
    → IsBounded (admit_unit d bytes rtp now)
unfolding admit_unit
admit_unit-IsBounded d bytes rtp now h =
    elim (Bool-cases (d.resync_required && not (contains_idr bytes))) [
      | inl gate ↦ rw gate h
      | inr passed ↦ rw passed (elim (Bool-cases (leb (max_queued_units d.fps) (length d.queue))) [
        | inl full ↦ rw full (elim (Bool-cases (contains_idr bytes)) [
          | inl idr ↦ rw idr (
              push_unit-IsBounded (overflow d) bytes rtp now (give_up_queue-IsBounded d h)
                (omega (arith, max_queued_units_pos d.fps)))
          | inr delta ↦ rw delta (give_up_queue-IsBounded d h)
        ])
        | inr room ↦ rw room (push_unit-IsBounded d bytes rtp now h (ground arith))
      ])
    ]

take_from-IsBounded :
    (d : Decoder) (b : Bool) (held : Option DecodeUnit) (queue : List DecodeUnit)
    → length queue ≤ length d.queue
    → IsBounded d
    → IsBounded (take_from d b held queue).0
take_from-IsBounded d true none (u ∷ us) shorter h = (omega (arith, h.0), h.1, h.2)
take_from-IsBounded d true none [] shorter h = h
take_from-IsBounded d true (some u) queue shorter h = h
take_from-IsBounded d false held queue shorter h = h

note_result-IsBounded :
    (d : Decoder) (idr : Bool) (r : Decoded) (now : ℕ)
    → IsBounded d
    → IsBounded (note_result d idr r now)
note_result-IsBounded d idr decode_failed now h = h
note_result-IsBounded d idr (decoded n) now h = h

finish_with-IsBounded :
    (d : Decoder) (held : Option DecodeUnit) (r : Decoded) (now : ℕ)
    → IsBounded d
    → IsBounded (finish_with d held r now)
finish_with-IsBounded d none r now h = h
finish_with-IsBounded d (some u) r now h =
    let e = note_result-IsBounded (request_reset d) u.idr (decoder_result d.hardware r) now h in
    (e.0, e.1, recycle-IsPool _ u.capacity e.2)

enqueue-IsBounded :
    (d : Decoder) (bytes : List ℕ) (rtp now : ℕ) → IsBounded d → IsBounded (enqueue d bytes rtp now)
unfolding enqueue
enqueue-IsBounded d bytes rtp now h = elim (Bool-cases (takes d bytes)) [
  | inl e ↦ rw e (admit_unit-IsBounded d bytes rtp now h)
  | inr e ↦ rw e h
]

step-IsBounded : (d : Decoder) (v : Event) → IsBounded d → IsBounded (step d v).0
unfolding take_unit finish_unit
step-IsBounded d (offer bytes rtp now) h = enqueue-IsBounded d bytes rtp now h
step-IsBounded d take_one h = take_from-IsBounded d d.running d.in_flight d.queue (omega arith) h
step-IsBounded d stall h = give_up_queue-IsBounded d h
step-IsBounded d stop_request h = h
step-IsBounded d (finish r now) h = finish_with-IsBounded d d.in_flight r now h

-- Whatever the network thread offers, and however that interleaves with the rounds of the decoder
-- thread, their results, stalls and a stop: the queue never holds, nor has ever held, more units than
-- the frame rate allows (two to four), and the pool keeps at most eight buffers, none with a capacity
-- above two megabytes.
pub run-IsBounded : (d : Decoder) (vs : List Event) → IsBounded d → IsBounded (run d vs).0
unfolding run
run-IsBounded d [] h = h
run-IsBounded d (v ∷ vs) h = run-IsBounded (step d v).0 vs (step-IsBounded d v h)
