-- ===== src/Session/Decode/Gate.antt =====
-- app/src/webrtc/media.cpp: where the decoder starts after the queue has been given up.
use booster_nx.Common.{
  ℕ, ◌≡◌, refl, Bool, true, false, not, ◌&&◌, Option, none, some, List, [], ◌∷◌, ◌++◌, All, leb,
  length, arith, Bool-cases, inl, inr,
}
use booster_nx.Session.H264.{contains_idr}
use booster_nx.Session.Decode.{
  DecodeUnit, Decoder, Event, offer, take_one, stall, stop_request, finish, max_queued_units,
  admit_unit, enqueue, take_unit, finish_unit, step, run, takes, Decoded, take_from, finish_with,
  new_unit,
}

abbrev pub IsIdr : DecodeUnit → Type 0
IsIdr u = u.idr ≡ true

-- A resync is required, only IDR units wait, and the decoder thread holds no unit.
abbrev pub IsGated : Decoder → Type 0
IsGated d = (d.resync_required ≡ true) × All IsIdr d.queue × (d.in_flight ≡ none)

abbrev pub StartsWithIdr : List DecodeUnit → Type 0
StartsWithIdr [] = Unit {0}
StartsWithIdr (u ∷ us) = IsIdr u

-- Either nothing is taken and the gate stays shut, or an IDR is taken.
abbrev StaysOrStarts : Decoder × List DecodeUnit → Type 0
StaysOrStarts (e, []) = IsGated e
StaysOrStarts (e, u ∷ us) = IsIdr u

All-snoc :
    (us : List DecodeUnit) (u : DecodeUnit) → All IsIdr us → IsIdr u → All IsIdr (us ++ (u ∷ []))
All-snoc [] u h hu = (hu, tt)
All-snoc (x ∷ xs) u h hu = (h.0, All-snoc xs u h.1 hu)

admit_unit-IsGated :
    (d : Decoder) (bytes : List ℕ) (rtp now : ℕ) → IsGated d → IsGated (admit_unit d bytes rtp now)
unfolding admit_unit
admit_unit-IsGated d bytes rtp now h =
    elim (Bool-cases (d.resync_required && not (contains_idr bytes))) [
      | inl gate ↦ rw gate h
      | inr passed ↦
          let idr : contains_idr bytes ≡ true = ground (arith, h.0, passed) in
          rw passed (elim (Bool-cases (leb (max_queued_units d.fps) (length d.queue))) [
            | inl full ↦ rw (full, idr) (refl, (refl, tt), h.2)
            | inr room ↦ rw room (h.0, All-snoc d.queue (new_unit d bytes rtp now) h.1 idr, h.2)
          ])
    ]

enqueue-IsGated :
    (d : Decoder) (bytes : List ℕ) (rtp now : ℕ) → IsGated d → IsGated (enqueue d bytes rtp now)
unfolding enqueue
enqueue-IsGated d bytes rtp now h = elim (Bool-cases (takes d bytes)) [
  | inl e ↦ rw e (admit_unit-IsGated d bytes rtp now h)
  | inr e ↦ rw e h
]

take_from-StaysOrStarts :
    (d : Decoder) (b : Bool) (held : Option DecodeUnit) (queue : List DecodeUnit)
    → All IsIdr queue
    → IsGated d
    → StaysOrStarts (take_from d b held queue)
take_from-StaysOrStarts d true none (u ∷ us) q h = q.0
take_from-StaysOrStarts d true none [] q h = h
take_from-StaysOrStarts d true (some u) queue q h = h
take_from-StaysOrStarts d false held queue q h = h

finish_with-IsGated :
    (d : Decoder) (held : Option DecodeUnit) (r : Decoded) (now : ℕ)
    → held ≡ none
    → IsGated d
    → IsGated (finish_with d held r now)
finish_with-IsGated d none r now e h = h
finish_with-IsGated d (some u) r now e h = absurd (ground (arith, e))

step-StaysOrStarts : (d : Decoder) (v : Event) → IsGated d → StaysOrStarts (step d v)
unfolding take_unit finish_unit
step-StaysOrStarts d (offer bytes rtp now) h = enqueue-IsGated d bytes rtp now h
step-StaysOrStarts d take_one h = take_from-StaysOrStarts d d.running d.in_flight d.queue h.1 h
step-StaysOrStarts d stall h = (refl, tt, h.2)
step-StaysOrStarts d stop_request h = h
step-StaysOrStarts d (finish r now) h = finish_with-IsGated d d.in_flight r now h.2 h

first_of_step :
    (p : Decoder × List DecodeUnit) (later : Decoder → List DecodeUnit)
    → StaysOrStarts p
    → ((e : Decoder) → IsGated e → StartsWithIdr (later e))
    → StartsWithIdr (p.1 ++ later p.0)
first_of_step (e, []) later h next = next e h
first_of_step (e, u ∷ us) later h next = h

-- When a resync is required, the decoder thread holds no unit and no unit but IDRs waits, then
-- whatever the threads do next, the first unit that the decoder thread takes is an IDR.
pub run-StartsWithIdr : (d : Decoder) (vs : List Event) → IsGated d → StartsWithIdr (run d vs).1
unfolding run
run-StartsWithIdr d [] h = tt
run-StartsWithIdr d (v ∷ vs) h =
    first_of_step (step d v) (λ e. (run e vs).1) (step-StaysOrStarts d v h)
      (λ e g. run-StartsWithIdr e vs g)
