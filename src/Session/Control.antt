-- ===== src/Session/Control.antt =====
-- app/src/webrtc/session.cpp: what the control channel's events and the polls do to a session, up to
-- the start of its media, and its stop. Times are microseconds of the steady clock; 0 is never.
pub mod History
pub mod Waiting
pub mod Start
mod Tests
use booster_nx.Common.{
  ℕ, zero, suc, ◌+◌, Bool, true, false, not, ◌&&◌, ◌||◌, Option, none, some, List, [], ◌∷◌, ◌++◌,
  leb, ◌==◌, if◌then◌else◌,
}
use booster_nx.Common.Int.{ℤ}
use booster_nx.Session.Input.{ControllerState, handle_ack}

-- `BoosteroidControlEvent`, by its type. `controller_ack` carries what `std::strtol` makes of the id.
pub data ControlEvent : Type 0 where
  webrtc_engine_ready session_active cursor controller_rumble closed raw_message : ControlEvent
  controller_ack : List ℕ → Option ℤ → ControlEvent
  failed : List ℕ → ControlEvent

-- The texts of `current_state_` that this part of the session sets.
pub data State : Type 0 where
  initializing opening_control connect_failed waiting_for_server fetching_ice_servers : State
  failed_before_start : List ℕ → State

-- `media_starts` has the times of the calls of `start_webrtc_media`, the latest first.
pub record Session : Type 0 where
  pub stop_requested : Bool
  pub network_running : Bool
  pub decoder_running : Bool
  pub control_alive : Bool
  pub webrtc_started : Bool
  pub first_session_active_at : ℕ
  pub current_state : State
  pub controllers : List ControllerState
  pub media_starts : List ℕ

-- `if (!webrtc_started_.exchange(true)) start_webrtc_media();`
abbrev pub start_once : Session → ℕ → Session
start_once s now = if s.webrtc_started then s else record s {
  webrtc_started = true;
  current_state = fetching_ice_servers;
  media_starts = now ∷ s.media_starts;
}

abbrev pub note_burst : Session → ℕ → Session
note_burst s now =
    if not s.webrtc_started && (s.first_session_active_at == 0)
    then record s { first_session_active_at = now }
    else s

pub handle_event : Session → ControlEvent → ℕ → Session
handle_event s webrtc_engine_ready now = start_once s now
handle_event s session_active now = note_burst s now
handle_event s (controller_ack name id) now = record s {
  controllers = handle_ack s.controllers name id;
}
handle_event s closed now = record s { control_alive = false }
handle_event s (failed message) now = record s {
  control_alive = false;
  current_state = if s.webrtc_started then s.current_state else failed_before_start message;
}
handle_event s raw_message now = s
handle_event s cursor now = s
handle_event s controller_rumble now = s

pub handle_events : Session → List ControlEvent → ℕ → Session
handle_events s [] now = s
handle_events s (v ∷ vs) now = handle_events (handle_event s v now) vs now

-- `kWebrtcSignalGrace`.
abbrev pub signal_grace : ℕ
signal_grace = 20000000

abbrev pub grace_over : Session → ℕ → Bool
grace_over s now =
    not s.webrtc_started
    && (not (s.first_session_active_at == 0) && leb (s.first_session_active_at + signal_grace) now)

-- `poll` up to the peer connection. The events are those that `control_channel_.Poll()` delivers.
pub poll : Session → List ControlEvent → ℕ → Session
poll s events now =
    if s.stop_requested
    then s
    else (let t = handle_events s events now in if grace_over t now then start_once t now else t)

-- `start`, with the answer of `control_channel_.Connect`.
pub start : Session → Bool → Session
start s connected =
    let t = record s { stop_requested = false; decoder_running = true; network_running = true } in
    if connected
    then record t { control_alive = true; current_state = waiting_for_server }
    else record t { current_state = connect_failed }

pub request_stop : Session → Session
request_stop s =
    if s.stop_requested
    then s
    else record s { stop_requested = true; network_running = false; decoder_running = false }

-- `stop`, for the fields kept here.
pub stop : Session → Session
stop s = record (request_stop s) { control_alive = false }

pub data Call : Type 0 where
  polls : List ControlEvent → ℕ → Call
  starts : Bool → Call
  stop_requests stops : Call

abbrev pub call : Session → Call → Session
call s (polls events now) = poll s events now
call s (starts connected) = start s connected
call s stop_requests = request_stop s
call s stops = stop s

pub run : Session → List Call → Session
run s [] = s
run s (c ∷ cs) = run (call s c) cs
