-- ===== src/Session/Control/Waiting.antt =====
-- app/src/webrtc/session.cpp: what control events do to a session that waits and to one that has started.
use mathlib.Core.Path.{subst}
use booster_nx.Common.{
  ap, ℕ, ◌≡◌, refl, ◌∙◌, Bool, true, false, not, ◌&&◌, List, [], ◌∷◌, ◌==◌, arith, Bool-cases, inl,
  inr, if◌then◌else◌,
}
use booster_nx.Session.Control.{
  ControlEvent, webrtc_engine_ready, session_active, closed, raw_message, cursor, controller_rumble,
  controller_ack, failed, Session, start_once, handle_event, handle_events,
}
use booster_nx.Session.Control.History.{is_signal, is_burst, has_signal, first_burst}

-- A session whose media have not started, and one whose media have.
abbrev pub IsWaiting : Session → ℕ → Bool → Type 0
IsWaiting s burst stopped =
    (s.webrtc_started ≡ false)
    × (s.media_starts ≡ [])
    × (s.first_session_active_at ≡ burst)
    × (s.stop_requested ≡ stopped)

abbrev pub IsStarted : Session → List ℕ → Type 0
IsStarted s times = (s.webrtc_started ≡ true) × (s.media_starts ≡ times)

pub choose :
    (P : Session → Type 0) (b : Bool) (x y : Session)
    → (b ≡ true → P x)
    → (b ≡ false → P y)
    → P (if b then x else y)
choose P true x y f g = f refl
choose P false x y f g = g refl

pub start_once-IsStarted :
    (s : Session) (now : ℕ) (times : List ℕ)
    → IsStarted s times
    → IsStarted (start_once s now) times
start_once-IsStarted s now times h =
    choose (λ t. IsStarted t times) s.webrtc_started s _ (λ e. h) (λ e. absurd (cc (e, h.0)))

handle_event-IsStarted :
    (s : Session) (v : ControlEvent) (now : ℕ) (times : List ℕ)
    → IsStarted s times
    → IsStarted (handle_event s v now) times
unfolding handle_event
handle_event-IsStarted s webrtc_engine_ready now times h = start_once-IsStarted s now times h
handle_event-IsStarted s session_active now times h =
    choose (λ t. IsStarted t times) (not s.webrtc_started && (s.first_session_active_at == 0)) _ s
      (λ e. h) (λ e. h)
handle_event-IsStarted s (controller_ack name id) now times h = h
handle_event-IsStarted s closed now times h = h
handle_event-IsStarted s (failed message) now times h = h
handle_event-IsStarted s raw_message now times h = h
handle_event-IsStarted s cursor now times h = h
handle_event-IsStarted s controller_rumble now times h = h

pub handle_events-IsStarted :
    (s : Session) (vs : List ControlEvent) (now : ℕ) (times : List ℕ)
    → IsStarted s times
    → IsStarted (handle_events s vs now) times
unfolding handle_events
handle_events-IsStarted s [] now times h = h
handle_events-IsStarted s (v ∷ vs) now times h =
    handle_events-IsStarted (handle_event s v now) vs now times
      (handle_event-IsStarted s v now times h)

-- The burst that is noted after one more event.
abbrev pub noted : ℕ → ControlEvent → ℕ → ℕ
noted burst v now = if (burst == 0) && is_burst v then now else burst

kept : (burst now : ℕ) → burst ≡ (if (burst == 0) && false then now else burst)
kept burst now = ground arith

handle_event-IsWaiting :
    (s : Session) (v : ControlEvent) (now burst : ℕ) (stopped : Bool)
    → is_signal v ≡ false
    → IsWaiting s burst stopped
    → IsWaiting (handle_event s v now) (noted burst v now) stopped
unfolding handle_event
handle_event-IsWaiting s webrtc_engine_ready now burst stopped e h = absurd (cc (e))
handle_event-IsWaiting s session_active now burst stopped e h =
    choose (λ t. IsWaiting t (noted burst session_active now) stopped)
      (not s.webrtc_started && (s.first_session_active_at == 0)) _ s
      (λ e. (h.0, h.1, ground (arith, e, h.2), h.3))
      (λ e. (h.0, h.1, ground (arith, e, h.0, h.2), h.3))
handle_event-IsWaiting s (controller_ack name id) now burst stopped e h =
    (h.0, h.1, h.2 ∙ kept burst now, h.3)
handle_event-IsWaiting s closed now burst stopped e h = (h.0, h.1, h.2 ∙ kept burst now, h.3)
handle_event-IsWaiting s (failed message) now burst stopped e h =
    (h.0, h.1, h.2 ∙ kept burst now, h.3)
handle_event-IsWaiting s raw_message now burst stopped e h = (h.0, h.1, h.2 ∙ kept burst now, h.3)
handle_event-IsWaiting s cursor now burst stopped e h = (h.0, h.1, h.2 ∙ kept burst now, h.3)
handle_event-IsWaiting s controller_rumble now burst stopped e h =
    (h.0, h.1, h.2 ∙ kept burst now, h.3)

first_burst_cons :
    (burst now : ℕ) (v : ControlEvent) (vs : List ControlEvent)
    → first_burst (noted burst v now) (now, vs) ≡ first_burst burst (now, v ∷ vs)
first_burst_cons burst now v vs = ground arith

pub handle_events-IsWaiting :
    (s : Session) (vs : List ControlEvent) (now burst : ℕ) (stopped : Bool)
    → has_signal vs ≡ false
    → IsWaiting s burst stopped
    → IsWaiting (handle_events s vs now) (first_burst burst (now, vs)) stopped
unfolding handle_events
handle_events-IsWaiting s [] now burst stopped e h = (h.0, h.1, h.2 ∙ kept burst now, h.3)
handle_events-IsWaiting s (v ∷ vs) now burst stopped e h =
    subst (λ b. IsWaiting (handle_events (handle_event s v now) vs now) b stopped)
      (first_burst_cons burst now v vs)
      (handle_events-IsWaiting (handle_event s v now) vs now (noted burst v now) stopped
        (ground (arith, e)) (handle_event-IsWaiting s v now burst stopped (ground (arith, e)) h))

signal-IsStarted :
    (s : Session) (v : ControlEvent) (now : ℕ)
    → is_signal v ≡ true
    → s.webrtc_started ≡ false
    → s.media_starts ≡ []
    → IsStarted (handle_event s v now) (now ∷ [])
unfolding handle_event
signal-IsStarted s webrtc_engine_ready now e fresh none' =
    rw fresh (refl, ap (λ ts. now ∷ ts) none')
signal-IsStarted s session_active now e fresh none' = absurd (cc (e))
signal-IsStarted s (controller_ack name id) now e fresh none' = absurd (cc (e))
signal-IsStarted s closed now e fresh none' = absurd (cc (e))
signal-IsStarted s (failed message) now e fresh none' = absurd (cc (e))
signal-IsStarted s raw_message now e fresh none' = absurd (cc (e))
signal-IsStarted s cursor now e fresh none' = absurd (cc (e))
signal-IsStarted s controller_rumble now e fresh none' = absurd (cc (e))

pub handle_events-starts :
    (s : Session) (vs : List ControlEvent) (now burst : ℕ) (stopped : Bool)
    → has_signal vs ≡ true
    → IsWaiting s burst stopped
    → IsStarted (handle_events s vs now) (now ∷ [])
unfolding handle_events
handle_events-starts s [] now burst stopped e h = absurd (cc (e))
handle_events-starts s (v ∷ vs) now burst stopped e h = elim (Bool-cases (is_signal v)) [
  | inl signal ↦
      handle_events-IsStarted (handle_event s v now) vs now (now ∷ [])
        (signal-IsStarted s v now signal h.0 h.1)
  | inr other ↦
      handle_events-starts (handle_event s v now) vs now (noted burst v now) stopped (rw other at e)
        (handle_event-IsWaiting s v now burst stopped other h)
]
