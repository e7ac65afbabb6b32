-- ===== src/Session/Keyframe/Tests.antt =====
-- Runs of the keyframe requests, and their theorem at a series of polls.
use booster_nx.Common.{◌≡◌, refl, true, false, some, none, List, [], ◌∷◌, arith}
use booster_nx.Session.Decode.{Decoder}
use booster_nx.Session.Keyframe.{
  Keyframes, Poll, peer, no_peer, polls, poll_peer, request_keyframe, startup_retry, recover_stall,
  IsPaced, polls-IsPaced,
}

abbrev no_requests : Keyframes
no_requests = record {
  last_request_at = 0;
  last_startup_at = 0;
  last_stall_at = 0;
  attempts = 0;
  initial_requested = false;
  requests = [];
}

-- A decoder that has decoded frames, the last of them at time 1000.
abbrev stalled : Decoder
stalled = record {
  running = true;
  fps = 30;
  hardware = some true;
  queue = [];
  in_flight = none;
  pool = [];
  resync_required = true;
  reset_requested = false;
  keyframe_needed = false;
  drops = 0;
  reuses = 0;
  allocations = 0;
  high_water = 0;
  frames_decoded = 3;
  decode_errors = 0;
  last_decoded_us = 1000;
  resets = 0;
}

abbrev series : List Poll
series =
    record { decoder = stalled; connection = no_peer; time = 5 }
    ∷ record { decoder = stalled; connection = peer true 9; time = 1000000 }
    ∷ record { decoder = stalled; connection = peer true 9; time = 1600000 }
    ∷ record { decoder = stalled; connection = peer true 9; time = 3700000 }
    ∷ []

-- The stall at 1.6 seconds comes too soon after the first request.
requests_made : (polls no_requests series).requests ≡ 3700000 ∷ 1000000 ∷ []
unfolding polls poll_peer request_keyframe startup_retry recover_stall
requests_made = refl

polls-IsPaced_example : IsPaced (polls no_requests series)
polls-IsPaced_example =
    polls-IsPaced no_requests series ((tt, refl, refl), omega arith)
      (omega arith, (omega arith, (omega arith, (omega arith, tt))))
