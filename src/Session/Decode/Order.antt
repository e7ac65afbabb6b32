-- ===== src/Session/Decode/Order.antt =====
-- app/src/webrtc/media.cpp: what becomes of the access units that are offered.
use mathlib.Core.List.{Sublist, nil-sublist, append_assoc, append-nil, sublist-append_left}
use mathlib.Core.List.Sublist
use mathlib.Core.Path.{subst}
use booster_nx.Common.{
  ℕ, ◌+◌, ◌≡◌, refl, ap, sym, Bool, true, false, not, ◌&&◌, Option, none, some, List, [], ◌∷◌, ◌++◌,
  map, length, length-append, leb, arith, Bool-cases, inl, inr, if◌then◌else◌,
}
use booster_nx.Session.H264.{contains_idr}
use booster_nx.Session.Decode.{
  DecodeUnit, Decoder, Event, offer, take_one, stall, stop_request, finish, max_queued_units,
  give_up_queue, overflow, drop_unit, push_unit, admit_unit, enqueue, take_unit, finish_unit, step,
  run, takes, decoded, decode_failed, Decoded, note_result, request_reset, decoder_result,
  take_from, finish_with, new_unit, recycle,
}

-- The bytes and the time stamp of a unit.
abbrev pub Content : Type 0
Content = List ℕ × ℕ

abbrev pub content : DecodeUnit → Content
content u = (u.bytes, u.rtp_timestamp)

abbrev pub contents : List DecodeUnit → List Content
contents us = map content us

-- The units that `enqueue_decode_unit` does not turn away at once.
abbrev pub offered_by : Decoder → Event → List Content
offered_by d (offer bytes rtp now) = if takes d bytes then (bytes, rtp) ∷ [] else []
offered_by d v = []

pub offered : Decoder → List Event → List Content
offered d [] = []
offered d (v ∷ vs) = offered_by d v ++ offered (step d v).0 vs

-- Of what waits in `d` and of what is offered, `us` has been taken, the queue of `e` waits, and the
-- rest has been counted as dropped.
abbrev pub Flows : Decoder → List Content → List DecodeUnit → Decoder → Type 0
Flows d inputs us e =
    Sublist (contents us ++ contents e.queue) (contents d.queue ++ inputs)
    × (e.drops + length e.queue + length us ≡ d.drops + length d.queue + length inputs)

contents-append : (us ws : List DecodeUnit) → contents (us ++ ws) ≡ contents us ++ contents ws
contents-append [] ws = refl
contents-append (u ∷ us) ws = ap (λ l. content u ∷ l) (contents-append us ws)

Flows-same : (d : Decoder) → Flows d [] [] d
Flows-same d = (
  subst (λ l. Sublist (contents d.queue) l) (sym (append-nil (contents d.queue)))
      (Sublist.refl (contents d.queue)),
  omega arith,
)

Flows-drop : (d : Decoder) (c : Content) → Flows d (c ∷ []) [] (drop_unit d)
Flows-drop d c = (sublist-append_left (contents d.queue) (c ∷ []), omega arith)

Flows-push :
    (d : Decoder) (bytes : List ℕ) (rtp now : ℕ)
    → Flows d ((bytes, rtp) ∷ []) [] (push_unit d bytes rtp now)
Flows-push d bytes rtp now = (
  subst (λ l. Sublist l (contents d.queue ++ ((bytes, rtp) ∷ [])))
      (sym (contents-append d.queue (new_unit d bytes rtp now ∷ []))) (Sublist.refl _),
  omega (arith, length-append d.queue (new_unit d bytes rtp now ∷ [])),
)

Flows-give_up : (d : Decoder) → Flows d [] [] (give_up_queue d)
Flows-give_up d = (nil-sublist _, omega arith)

Flows-trans :
    (d e f : Decoder) (ins more : List Content) (us ws : List DecodeUnit)
    → Flows d ins us e
    → Flows e more ws f
    → Flows d (ins ++ more) (us ++ ws) f
Flows-trans d e f ins more us ws g h = (
  rw
      (
        contents-append us ws,
        append_assoc (contents us) (contents ws) (contents f.queue),
        ← append_assoc (contents d.queue) ins more,
      )
      (Sublist.trans (Sublist.append (Sublist.refl (contents us)) h.0) (
        subst (λ l. Sublist l ((contents d.queue ++ ins) ++ more))
          (append_assoc (contents us) (contents e.queue) more)
          (Sublist.append g.0 (Sublist.refl more)))),
  omega (arith, g.1, h.1, length-append us ws, length-append ins more),
)

admit_unit-Flows :
    (d : Decoder) (bytes : List ℕ) (rtp now : ℕ)
    → Flows d ((bytes, rtp) ∷ []) [] (admit_unit d bytes rtp now)
unfolding admit_unit
admit_unit-Flows d bytes rtp now =
    elim (Bool-cases (d.resync_required && not (contains_idr bytes))) [
      | inl gate ↦ rw gate (Flows-drop d (bytes, rtp))
      | inr passed ↦ rw passed (elim (Bool-cases (leb (max_queued_units d.fps) (length d.queue))) [
        | inl full ↦ rw full (elim (Bool-cases (contains_idr bytes)) [
          | inl idr ↦ rw idr (
              Flows-trans d (overflow d) (push_unit (overflow d) bytes rtp now) []
                ((bytes, rtp) ∷ []) [] [] (Flows-give_up d) (Flows-push (overflow d) bytes rtp now))
          | inr delta ↦ rw delta (
              Flows-trans d (overflow d) (drop_unit (overflow d)) [] ((bytes, rtp) ∷ []) [] []
                (Flows-give_up d) (Flows-drop (overflow d) (bytes, rtp)))
        ])
        | inr room ↦ rw room (Flows-push d bytes rtp now)
      ])
    ]

enqueue-Flows :
    (d : Decoder) (bytes : List ℕ) (rtp now : ℕ)
    → Flows d (if takes d bytes then (bytes, rtp) ∷ [] else []) [] (enqueue d bytes rtp now)
unfolding enqueue
enqueue-Flows d bytes rtp now = elim (Bool-cases (takes d bytes)) [
  | inl e ↦ rw e (admit_unit-Flows d bytes rtp now)
  | inr e ↦ rw e (Flows-same d)
]

take_from-Flows :
    (d : Decoder) (b : Bool) (held : Option DecodeUnit) (queue : List DecodeUnit)
    → queue ≡ d.queue
    → Flows d [] (take_from d b held queue).1 (take_from d b held queue).0
take_from-Flows d true none (u ∷ us) e = (
  subst (λ l. Sublist (contents (u ∷ us)) (contents l ++ [])) e
      (sublist-append_left (contents (u ∷ us)) []),
  omega (arith, ap length e),
)
take_from-Flows d true none [] e = Flows-same d
take_from-Flows d true (some u) queue e = Flows-same d
take_from-Flows d false held queue e = Flows-same d

finish_with-Flows :
    (d : Decoder) (held : Option DecodeUnit) (r : Decoded) (now : ℕ)
    → Flows d [] [] (finish_with d held r now)
finish_with-Flows d none r now = Flows-same d
finish_with-Flows d (some u) r now = noted (decoder_result d.hardware r)
  where
    noted :
        (q : Decoded)
        → Flows d [] [] (record (note_result (request_reset d) u.idr q now) {
          in_flight = none;
          pool = recycle (note_result (request_reset d) u.idr q now).pool u.capacity;
        })
    noted decode_failed = Flows-same d
    noted (decoded n) = Flows-same d

step-Flows : (d : Decoder) (v : Event) → Flows d (offered_by d v) (step d v).1 (step d v).0
unfolding take_unit finish_unit
step-Flows d (offer bytes rtp now) = enqueue-Flows d bytes rtp now
step-Flows d take_one = take_from-Flows d d.running d.in_flight d.queue refl
step-Flows d stall = Flows-give_up d
step-Flows d stop_request = Flows-same d
step-Flows d (finish r now) = finish_with-Flows d d.in_flight r now

-- In every interleaving of the two threads, the units that the decoder thread takes, followed by
-- those that still wait, are in their order among the units that waited at the start followed by
-- those offered since, and the units offered are those taken, those that wait and those that the drop
-- counter has counted.
pub run-Flows : (d : Decoder) (vs : List Event) → Flows d (offered d vs) (run d vs).1 (run d vs).0
unfolding run offered
run-Flows d [] = Flows-same d
run-Flows d (v ∷ vs) =
    Flows-trans d (step d v).0 (run (step d v).0 vs).0 (offered_by d v) (offered (step d v).0 vs)
      (step d v).1 (run (step d v).0 vs).1 (step-Flows d v) (run-Flows (step d v).0 vs)
