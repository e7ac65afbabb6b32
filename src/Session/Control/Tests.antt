-- ===== src/Session/Control/Tests.antt =====
-- Runs of the control events, and their theorem at a session that starts late.
use booster_nx.Common.{◌≡◌, refl, true, false, List, [], ◌∷◌}
use booster_nx.Session.Control.{
  Session, Call, initializing, polls, starts, stops, stop_requests, session_active,
  webrtc_engine_ready, run, poll, start, stop, request_stop, handle_events, handle_event,
}
use booster_nx.Session.Control.History.{heard, start_time}
use booster_nx.Session.Control.Start.{media_starts-run}

abbrev new_session : Session
new_session = record {
  stop_requested = false;
  network_running = false;
  decoder_running = false;
  control_alive = false;
  webrtc_started = false;
  first_session_active_at = 0;
  current_state = initializing;
  controllers = [];
  media_starts = [];
}

-- The engine's signal comes after the grace time, and does not start the media again.
abbrev late : List Call
late =
    starts true
    ∷ polls (session_active ∷ session_active ∷ []) 5
    ∷ polls [] 20000004
    ∷ polls [] 20000006
    ∷ polls (webrtc_engine_ready ∷ []) 20000007
    ∷ stop_requests
    ∷ stops
    ∷ []

started_late : (run new_session late).media_starts ≡ 20000006 ∷ []
unfolding run poll start stop request_stop handle_events handle_event
started_late = refl

media_starts-run_example :
    (run new_session late).media_starts
    ≡ start_time 0 (
        (5, session_active ∷ session_active ∷ [])
        ∷ (20000004, [])
        ∷ (20000006, [])
        ∷ (20000007, webrtc_engine_ready ∷ [])
        ∷ [])
unfolding heard
media_starts-run_example = media_starts-run new_session late refl refl
