-- ===== src/Session/Control/History.antt =====
-- app/src/webrtc/session.cpp: the polls that a session hears, and when its media are due by them.
use booster_nx.Common.{
  ℕ, ◌+◌, Bool, true, false, not, ◌&&◌, ◌||◌, List, [], ◌∷◌, leb, ◌==◌, if◌then◌else◌,
}
use booster_nx.Session.Control.{
  ControlEvent, webrtc_engine_ready, session_active, closed, raw_message, cursor, controller_rumble,
  controller_ack, failed, Call, polls, starts, stop_requests, stops,
}

-- The history that the session has heard: each poll's time and the events that it delivers, but for
-- the polls between a request to stop and the next start, which deliver nothing.
unfoldable pub heard : Bool → List Call → List (ℕ × List ControlEvent)
heard stopped [] = []
heard stopped (polls events now ∷ cs) =
    let rest = heard stopped cs in if stopped then rest else (now, events) ∷ rest
heard stopped (starts connected ∷ cs) = heard false cs
heard stopped (stop_requests ∷ cs) = heard true cs
heard stopped (stops ∷ cs) = heard true cs

-- Whether the engine's signal, or a burst of stream messages, is among the events.
abbrev pub is_signal : ControlEvent → Bool
is_signal webrtc_engine_ready = true
is_signal session_active = false
is_signal (controller_ack name id) = false
is_signal closed = false
is_signal (failed message) = false
is_signal raw_message = false
is_signal cursor = false
is_signal controller_rumble = false

abbrev pub is_burst : ControlEvent → Bool
is_burst webrtc_engine_ready = false
is_burst session_active = true
is_burst (controller_ack name id) = false
is_burst closed = false
is_burst (failed message) = false
is_burst raw_message = false
is_burst cursor = false
is_burst controller_rumble = false

abbrev pub has_signal : List ControlEvent → Bool
has_signal [] = false
has_signal (v ∷ vs) = is_signal v || has_signal vs

abbrev pub has_burst : List ControlEvent → Bool
has_burst [] = false
has_burst (v ∷ vs) = is_burst v || has_burst vs

-- The time of the first burst, with the one before, if any. A time of 0 is none, as in the source.
abbrev pub first_burst : ℕ → ℕ × List ControlEvent → ℕ
first_burst before (now, events) = if (before == 0) && has_burst events then now else before

abbrev pub is_due : ℕ → ℕ × List ControlEvent → Bool
is_due burst (now, events) = has_signal events || (not (burst == 0) && leb (burst + 20000000) now)

-- The first of the polls at which the media are due: it delivers the engine's signal, or it comes
-- twenty seconds after the first burst at least.
unfoldable pub start_time : ℕ → List (ℕ × List ControlEvent) → List ℕ
start_time before [] = []
start_time before (p ∷ ps) =
    let rest = start_time (first_burst before p) ps in
    if is_due (first_burst before p) p then p.0 ∷ [] else rest
