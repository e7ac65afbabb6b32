-- ===== src/Session/Decode/Tests.antt =====
-- Runs of the decode queue at concrete access units, and its theorems at inputs that meet their
-- hypotheses.
use booster_nx.Common.{ℕ, ◌≡◌, refl, true, false, some, none, List, [], ◌∷◌, map, arith}
use booster_nx.Session.H264.{contains_idr, idr_at}
use booster_nx.Session.Decode.{
  Decoder, Event, offer, take_one, stall, finish, decoded, max_queued_units, run, enqueue,
  admit_unit, take_unit, finish_unit, recycle, recycle_all,
}
use booster_nx.Session.Decode.Bound.{IsBounded, run-IsBounded}
use booster_nx.Session.Decode.Order.{Flows, offered, run-Flows}
use booster_nx.Session.Decode.Gate.{StartsWithIdr, run-StartsWithIdr}

abbrev new_decoder : Decoder
new_decoder = record {
  running = true;
  fps = 30;
  hardware = some true;
  queue = [];
  in_flight = none;
  pool = [];
  resync_required = false;
  reset_requested = false;
  keyframe_needed = false;
  drops = 0;
  reuses = 0;
  allocations = 0;
  high_water = 0;
  frames_decoded = 0;
  decode_errors = 0;
  last_decoded_us = 0;
  resets = 0;
}

abbrev key_unit : List ℕ
key_unit = 0 ∷ 0 ∷ 0 ∷ 1 ∷ 101 ∷ 7 ∷ []

abbrev delta_unit : List ℕ
delta_unit = 0 ∷ 0 ∷ 0 ∷ 1 ∷ 65 ∷ 7 ∷ []

queue_sizes : map max_queued_units (0 ∷ 30 ∷ 31 ∷ 60 ∷ 120 ∷ []) ≡ 2 ∷ 2 ∷ 3 ∷ 4 ∷ 4 ∷ []
unfolding max_queued_units
queue_sizes = refl

-- The queue overflows while the decoder thread works on an IDR; that IDR then lifts the gate.
abbrev race : List Event
race =
    offer key_unit 1 0
    ∷ take_one
    ∷ offer delta_unit 2 0
    ∷ offer delta_unit 3 0
    ∷ offer delta_unit 4 0
    ∷ finish (decoded 1) 10
    ∷ offer delta_unit 5 0
    ∷ take_one
    ∷ []

race_taken : map (λ u. u.rtp_timestamp) (run new_decoder race).1 ≡ 1 ∷ 5 ∷ []
unfolding run enqueue admit_unit take_unit finish_unit recycle recycle_all contains_idr idr_at
    max_queued_units
race_taken = refl

-- What comes between an IDR and the end of its decoding is dropped, what comes later is decoded.
abbrev gap : List Event
gap =
    stall
    ∷ offer key_unit 1 0
    ∷ offer delta_unit 2 0
    ∷ take_one
    ∷ finish (decoded 1) 10
    ∷ offer delta_unit 3 0
    ∷ take_one
    ∷ []

gap_taken : map (λ u. u.rtp_timestamp) (run new_decoder gap).1 ≡ 1 ∷ 3 ∷ []
unfolding run enqueue admit_unit take_unit finish_unit recycle recycle_all contains_idr idr_at
    max_queued_units
gap_taken = refl

run-IsBounded_example : IsBounded (run new_decoder race).0
unfolding max_queued_units
run-IsBounded_example = run-IsBounded new_decoder race (omega arith, omega arith, (omega arith, tt))

run-Flows_example :
    Flows new_decoder (offered new_decoder race) (run new_decoder race).1 (run new_decoder race).0
run-Flows_example = run-Flows new_decoder race

run-StartsWithIdr_example :
    StartsWithIdr (run (record new_decoder { resync_required = true }) race).1
run-StartsWithIdr_example =
    run-StartsWithIdr (record new_decoder { resync_required = true }) race (refl, tt, refl)
