-- ===== src/App/StreamEnd.antt =====
-- app/src/stream_end_policy.hpp: `DetectStreamEnd`. Durations are in milliseconds.
use booster_nx.Common.{
  ℕ, ◌≤◌, ◌≡◌, refl, Bool, true, false, not, ◌&&◌, ◌||◌, leb, arith, Bool-cases, inl, inr,
  if◌then◌else◌,
}

pub data PeerTerminalKind : Type 0 where
  no_terminal peer_failed peer_disconnected peer_closed : PeerTerminalKind

pub data StreamEndReason : Type 0 where
  goes_on free_session_ended network_lost server_disconnected connection_failed : StreamEndReason
  stream_ended video_timed_out : StreamEndReason

pub record StreamEndSignals : Type 0 where
  pub free_tier : Bool
  pub session_elapsed : ℕ
  pub internet_connected : Bool
  pub peer_completed : Bool
  pub peer_terminal : PeerTerminalKind
  pub signaling_connected : Bool
  pub video_started : Bool
  pub video_idle : ℕ

abbrev pub is_terminal : PeerTerminalKind → Bool
is_terminal no_terminal = false
is_terminal k = true

-- `kFreeLimit` and `kFreeTerminalGrace`.
abbrev pub free_session_over : StreamEndSignals → Bool
free_session_over s =
    s.free_tier
    && (leb 3600000 s.session_elapsed
        || (leb 3540000 s.session_elapsed && is_terminal s.peer_terminal))

abbrev pub is_network_lost : StreamEndSignals → Bool
is_network_lost s =
    not s.internet_connected
    && (s.peer_completed || (s.video_started || is_terminal s.peer_terminal))

abbrev pub idle_end : StreamEndSignals → StreamEndReason
idle_end s =
    if s.peer_completed && (not s.signaling_connected && (s.video_started && leb 8000 s.video_idle))
    then server_disconnected
    else (if s.video_started && leb 15000 s.video_idle then video_timed_out else goes_on)

-- The switch on the state of the peer, and what follows it.
abbrev pub terminal_end : PeerTerminalKind → StreamEndSignals → StreamEndReason
terminal_end peer_failed s = if s.peer_completed then server_disconnected else connection_failed
terminal_end peer_disconnected s = server_disconnected
terminal_end peer_closed s = stream_ended
terminal_end no_terminal s = idle_end s

unfoldable pub detect_stream_end : StreamEndSignals → StreamEndReason
detect_stream_end s =
    if free_session_over s
    then free_session_ended
    else (if is_network_lost s then network_lost else terminal_end s.peer_terminal s)

abbrev pub ends : StreamEndReason → Bool
ends goes_on = false
ends r = true

-- Later, nothing else having changed.
abbrev pub later : StreamEndSignals → ℕ → ℕ → StreamEndSignals
later s elapsed idle = record s { session_elapsed = elapsed; video_idle = idle }

idle_end-later :
    (s : StreamEndSignals) (elapsed idle : ℕ)
    → s.video_idle ≤ idle
    → ends (idle_end s) ≡ true
    → ends (idle_end (later s elapsed idle)) ≡ true
idle_end-later s elapsed idle le e = ground (arith, le, e)

terminal_end-later :
    (k : PeerTerminalKind) (s : StreamEndSignals) (elapsed idle : ℕ)
    → s.video_idle ≤ idle
    → ends (terminal_end k s) ≡ true
    → ends (terminal_end k (later s elapsed idle)) ≡ true
terminal_end-later no_terminal s elapsed idle le e = idle_end-later s elapsed idle le e
terminal_end-later peer_failed s elapsed idle le e = e
terminal_end-later peer_disconnected s elapsed idle le e = refl
terminal_end-later peer_closed s elapsed idle le e = refl

not_over :
    (s : StreamEndSignals) (elapsed idle : ℕ)
    → s.session_elapsed ≤ elapsed
    → free_session_over (later s elapsed idle) ≡ false
    → free_session_over s ≡ false
not_over s elapsed idle le e = ground (arith, le, e)

-- A stream that has ended stays ended while only time passes.
pub detect_stream_end-later :
    (s : StreamEndSignals) (elapsed idle : ℕ)
    → s.session_elapsed ≤ elapsed
    → s.video_idle ≤ idle
    → ends (detect_stream_end s) ≡ true
    → ends (detect_stream_end (later s elapsed idle)) ≡ true
unfolding detect_stream_end
detect_stream_end-later s elapsed idle le more e =
    elim (Bool-cases (free_session_over (later s elapsed idle))) [
      | inl over ↦ rw over refl
      | inr free ↦ rw free (elim (Bool-cases (is_network_lost s)) [
        | inl lost ↦ rw lost refl
        | inr connected ↦
            let was_free : free_session_over s ≡ false = not_over s elapsed idle le free in
            rw connected (
              terminal_end-later s.peer_terminal s elapsed idle more
                (rw (was_free, connected) at e))
      ])
    ]
