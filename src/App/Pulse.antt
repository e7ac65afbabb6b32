-- ===== src/App/Pulse.antt =====
-- app/src/controller_delivery_policy.hpp: `StartDeliveryPulse`, which holds the start button until it
-- has been delivered. Times are microseconds, and 0 stands for a time point that was never set.
use booster_nx.Common.{
  ℕ, ◌+◌, ◌≤◌, ◌<◌, ◌≡◌, refl, Bool, true, false, not, ◌&&◌, ◌||◌, List, [], ◌∷◌, ltb, leb, ◌==◌,
  arith, Bool-cases, inl, inr, if◌then◌else◌,
}

pub record Pulse : Type 0 where
  pub pending : Bool
  pub delivery_deadline : ℕ
  pub hold_until : ℕ

abbrev pub queue : Pulse → ℕ → Pulse
queue p now = record { pending = true; delivery_deadline = now + 2000000; hold_until = 0 }

-- `IsActive` drops a delivery that is overdue.
abbrev pub expire : Pulse → ℕ → Pulse
expire p now = record p { pending = p.pending && not (leb p.delivery_deadline now) }

pub is_active : Pulse → ℕ → Pulse × Bool
is_active p now =
    let q = expire p now in (q, q.pending || (not (q.hold_until == 0) && ltb now q.hold_until))

pub on_report_delivered : Pulse → ℕ → Pulse × Bool
on_report_delivered p now =
    if not p.pending || leb p.delivery_deadline now
    then (p, false)
    else (record p { pending = false; hold_until = now + 180000 }, true)

pub data Call : Type 0 where
  queued active_asked delivered : ℕ → Call

abbrev pub call : Pulse → Call → Pulse
call p (queued now) = queue p now
call p (active_asked now) = (is_active p now).0
call p (delivered now) = (on_report_delivered p now).0

pub run : Pulse → List Call → Pulse
run p [] = p
run p (c ∷ cs) = run (call p c) cs

-- The calls are not `queued`, and none comes before `since`.
abbrev pub ComeAfter : ℕ → List Call → Type 0
ComeAfter since [] = Unit {0}
ComeAfter since (queued now ∷ cs) = ⊥
ComeAfter since (active_asked now ∷ cs) = (since ≤ now) × ComeAfter since cs
ComeAfter since (delivered now ∷ cs) = (since ≤ now) × ComeAfter since cs

-- What has become of a pulse queued at `since`: pending or gone, and held for 180 ms from a delivery in time.
abbrev pub IsWithin : ℕ → Pulse → Type 0
IsWithin since p = (p.delivery_deadline ≡ since + 2000000) × (p.hold_until < since + 2180000)

delivered-IsWithin :
    (since : ℕ) (p : Pulse) (now : ℕ)
    → IsWithin since p
    → IsWithin since (on_report_delivered p now).0
unfolding on_report_delivered
delivered-IsWithin since p now h =
    elim (Bool-cases (not p.pending || leb p.delivery_deadline now)) [
      | inl e ↦ rw e h
      | inr e ↦ rw e (h.0, ground (arith, h.0, e))
    ]

call-IsWithin :
    (since : ℕ) (p : Pulse) (c : Call)
    → ComeAfter since (c ∷ [])
    → IsWithin since p
    → IsWithin since (call p c)
unfolding is_active
call-IsWithin since p (queued now) after h = absurd after
call-IsWithin since p (active_asked now) after h = h
call-IsWithin since p (delivered now) after h = delivered-IsWithin since p now h

run-IsWithin :
    (since : ℕ) (p : Pulse) (cs : List Call)
    → ComeAfter since cs
    → IsWithin since p
    → IsWithin since (run p cs)
unfolding run
run-IsWithin since p [] after h = h
run-IsWithin since p (queued now ∷ cs) after h = absurd after
run-IsWithin since p (active_asked now ∷ cs) after h =
    run-IsWithin since (call p (active_asked now)) cs after.1
      (call-IsWithin since p (active_asked now) (after.0, tt) h)
run-IsWithin since p (delivered now ∷ cs) after h =
    run-IsWithin since (call p (delivered now)) cs after.1
      (call-IsWithin since p (delivered now) (after.0, tt) h)

-- Whatever is asked or delivered after a pulse has been queued, it is not active any more 2.18 seconds
-- later: the start button cannot stick.
pub is_active-ends :
    (since now : ℕ) (p : Pulse) (cs : List Call)
    → ComeAfter since cs
    → since + 2180000 ≤ now
    → (is_active (run (queue p since) cs) now).1 ≡ false
unfolding is_active
is_active-ends since now p cs after late =
    ground (arith, run-IsWithin since (queue p since) cs after (refl, omega arith))
