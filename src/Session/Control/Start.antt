-- ===== src/Session/Control/Start.antt =====
-- app/src/webrtc/session.cpp: when and how often the media of a session start.
use booster_nx.Common.{
  ap, ℕ, ◌+◌, ◌≡◌, refl, sym, ◌∙◌, ◌⊎◌, Bool, true, false, not, ◌&&◌, ◌||◌, List, [], ◌∷◌, leb,
  ◌==◌, Bool-cases, inl, inr, if◌then◌else◌,
}
use booster_nx.Session.Control.{
  ControlEvent, Session, start_once, handle_events, signal_grace, grace_over, poll, start,
  request_stop, stop, Call, polls, starts, stop_requests, stops, call, run,
}
use booster_nx.Session.Control.History.{heard, has_signal, first_burst, is_due, start_time}
use booster_nx.Session.Control.Waiting.{
  IsWaiting, IsStarted, choose, start_once-IsStarted, handle_events-IsStarted,
  handle_events-IsWaiting, handle_events-starts,
}

-- The rest of `poll`, behind the events.
abbrev after_events : Session → ℕ → Session
after_events t now = if grace_over t now then start_once t now else t

after_events-IsStarted :
    (t : Session) (now : ℕ) (times : List ℕ)
    → IsStarted t times
    → IsStarted (after_events t now) times
after_events-IsStarted t now times h =
    choose (λ u. IsStarted u times) (grace_over t now) (start_once t now) t
      (λ e. start_once-IsStarted t now times h) (λ e. h)

call-IsStarted :
    (s : Session) (c : Call) (times : List ℕ) → IsStarted s times → IsStarted (call s c) times
unfolding poll start request_stop stop
call-IsStarted s (polls events now) times h =
    choose (λ t. IsStarted t times) s.stop_requested s _ (λ e. h)
      (λ e.
        after_events-IsStarted (handle_events s events now) now times
          (handle_events-IsStarted s events now times h))
call-IsStarted s (starts true) times h = h
call-IsStarted s (starts false) times h = h
call-IsStarted s stop_requests times h =
    choose (λ t. IsStarted t times) s.stop_requested s _ (λ e. h) (λ e. h)
call-IsStarted s stops times h =
    choose (λ t. IsStarted (record t { control_alive = false }) times) s.stop_requested s _ (λ e. h)
      (λ e. h)

run-IsStarted :
    (s : Session) (cs : List Call) (times : List ℕ)
    → IsStarted s times
    → (run s cs).media_starts ≡ times
unfolding run
run-IsStarted s [] times h = h.1
run-IsStarted s (c ∷ cs) times h = run-IsStarted (call s c) cs times (call-IsStarted s c times h)

abbrev is_over : ℕ → ℕ → Bool
is_over burst now = not (burst == 0) && leb (burst + signal_grace) now

after_events_cases :
    (t : Session) (now burst : ℕ) (stopped : Bool)
    → IsWaiting t burst stopped
    → (is_over burst now ≡ true) × IsStarted (after_events t now) (now ∷ [])
      ⊎ (is_over burst now ≡ false) × IsWaiting (after_events t now) burst stopped
after_events_cases t now burst stopped w = elim (Bool-cases (is_over burst now)) [
  | inl over ↦ inl (
    over,
    choose (λ u. IsStarted u (now ∷ [])) (grace_over t now) (start_once t now) t
        (λ e.
          choose (λ u. IsStarted u (now ∷ [])) t.webrtc_started t _ (λ f. absurd (cc (f, w.0)))
            (λ f. (refl, ap (λ ts. now ∷ ts) w.1)))
        (λ e. absurd (cc (e, over, same))),
  )
  | inr early ↦ inr (
    early,
    choose (λ u. IsWaiting u burst stopped) (grace_over t now) (start_once t now) t
        (λ e. absurd (cc (e, early, same))) (λ e. w),
  )
]
  where
    same : grace_over t now ≡ is_over burst now
    same =
        ap
          (λ f.
            not f
            && (not (t.first_session_active_at == 0)
                && leb (t.first_session_active_at + signal_grace) now))
          w.0
        ∙ ap (λ n. is_over n now) w.2

-- A poll that the waiting session hears.
heard_poll :
    (s : Session) (events : List ControlEvent) (now burst : ℕ) (stopped : Bool)
    → IsWaiting s burst stopped
    → (is_due (first_burst burst (now, events)) (now, events) ≡ true)
        × IsStarted (after_events (handle_events s events now) now) (now ∷ [])
      ⊎ (is_due (first_burst burst (now, events)) (now, events) ≡ false)
        × IsWaiting
            (after_events (handle_events s events now) now)
            (first_burst burst (now, events))
            stopped
heard_poll s events now burst stopped h = elim (Bool-cases (has_signal events)) [
  | inl signal ↦ inl (
    ap (λ b. b || is_over (first_burst burst (now, events)) now) signal,
    after_events-IsStarted (handle_events s events now) now (now ∷ [])
        (handle_events-starts s events now burst stopped signal h),
  )
  | inr quiet ↦
      elim (after_events_cases (handle_events s events now) now (first_burst burst (now, events))
        stopped (handle_events-IsWaiting s events now burst stopped quiet h)) [
          | inl (over, started) ↦
              inl
                (ap (λ b. b || is_over (first_burst burst (now, events)) now) quiet ∙ over, started)
          | inr (early, waits) ↦
              inr
                (ap (λ b. b || is_over (first_burst burst (now, events)) now) quiet ∙ early, waits)
        ]
]

poll_stopped :
    (s : Session) (events : List ControlEvent) (now : ℕ)
    → s.stop_requested ≡ true
    → poll s events now ≡ s
unfolding poll
poll_stopped s events now e =
    choose (λ t. t ≡ s) s.stop_requested s _ (λ f. refl) (λ f. absurd (cc (e, f)))

poll-after_events :
    (s : Session) (events : List ControlEvent) (now : ℕ)
    → s.stop_requested ≡ false
    → poll s events now ≡ after_events (handle_events s events now) now
unfolding poll
poll-after_events s events now e =
    choose (λ t. t ≡ after_events (handle_events s events now) now) s.stop_requested s _
      (λ f. absurd (cc (e, f))) (λ f. refl)

request_stop-IsWaiting :
    (s : Session) (burst : ℕ) (stopped : Bool)
    → IsWaiting s burst stopped
    → IsWaiting (request_stop s) burst true
unfolding request_stop
request_stop-IsWaiting s burst stopped h =
    choose (λ t. IsWaiting t burst true) s.stop_requested s _ (λ e. (h.0, h.1, h.2, e))
      (λ e. (h.0, h.1, h.2, refl))

run-IsWaiting :
    (s : Session) (cs : List Call) (burst : ℕ) (stopped : Bool)
    → IsWaiting s burst stopped
    → (run s cs).media_starts ≡ start_time burst (heard stopped cs)
unfolding run start stop heard start_time
run-IsWaiting s [] burst stopped h = h.1
run-IsWaiting s (polls events now ∷ cs) burst true h =
    ap (λ t. (run t cs).media_starts) (poll_stopped s events now h.3)
    ∙ run-IsWaiting s cs burst true h
run-IsWaiting s (polls events now ∷ cs) burst false h =
    let b = first_burst burst (now, events) in
    let t = after_events (handle_events s events now) now in
    let choice = λ (c : Bool). (if c then now ∷ [] else start_time b (heard false cs)) in
    ap (λ u. (run u cs).media_starts) (poll-after_events s events now h.3)
    ∙ elim (heard_poll s events now burst false h) [
      | inl (due, started) ↦ run-IsStarted t cs (now ∷ []) started ∙ sym (ap choice due)
      | inr (early, waits) ↦ run-IsWaiting t cs b false waits ∙ sym (ap choice early)
    ]
run-IsWaiting s (starts true ∷ cs) burst stopped h =
    run-IsWaiting (call s (starts true)) cs burst false (h.0, h.1, h.2, refl)
run-IsWaiting s (starts false ∷ cs) burst stopped h =
    run-IsWaiting (call s (starts false)) cs burst false (h.0, h.1, h.2, refl)
run-IsWaiting s (stop_requests ∷ cs) burst stopped h =
    run-IsWaiting (request_stop s) cs burst true (request_stop-IsWaiting s burst stopped h)
run-IsWaiting s (stops ∷ cs) burst stopped h =
    run-IsWaiting (stop s) cs burst true (request_stop-IsWaiting s burst stopped h)

-- The media of a session that has not started them start at the first poll, of those made while no
-- stop is requested, that delivers the engine's signal or that comes twenty seconds at least after
-- the first burst of stream messages, which is the one that the session has noted before or else the
-- one of the first poll, at a time other than 0, that delivers one. They start that once, whatever is
-- called before and after; without such a poll they do not start.
pub media_starts-run :
    (s : Session) (cs : List Call)
    → s.webrtc_started ≡ false
    → s.media_starts ≡ []
    → (run s cs).media_starts ≡ start_time s.first_session_active_at (heard s.stop_requested cs)
media_starts-run s cs fresh none' =
    run-IsWaiting s cs s.first_session_active_at s.stop_requested (fresh, none', refl, refl)
