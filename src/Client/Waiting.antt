-- ===== src/Client/Waiting.antt =====
-- app/src/boosteroid_client.cpp: what `CreateAndAwaitSession` keeps while it waits: its locals and the
-- two mutable members of the class are one record. The poll intervals are in milliseconds, the clock
-- in nanoseconds.
use booster_nx.Common.{
  ℕ, ◌+◌, ◌*◌, ◌/◌, Bool, true, false, ◌&&◌, not, Option, none, some, ltb, String, if◌then◌else◌,
}
use booster_nx.Common.Int.{ℤ, negsuc}
use booster_nx.Client.World.{◌>>=◌, ◌>>◌, client_error, M, pure, fail, now, report}
use booster_nx.Client.Session.{SessionInfo, LastSession, is_empty, same_int}

-- `realtime` is whether the socket is connected; a deadline is `none` until it is set.
pub record Awaiting : Type 0 where
  pub app_id : ℤ
  pub preferred_session_id : String
  pub preferred_gateway : String
  pub realtime : Bool
  pub confirmation_attempted : Bool
  pub queue_position : ℤ
  pub queue_eta : ℤ
  pub position_changed : Bool
  pub current : SessionInfo
  pub attempt : ℕ
  pub setup_deadline : Option ℕ
  pub queued_deadline : ℕ
  pub interval_ms : ℕ
  pub reacted_to_confirmation : Bool

-- The arguments of the call.
pub record Intervals : Type 0 where
  pub queued_poll_ms : ℕ
  pub setup_poll_ms : ℕ
  pub setup_timeout : ℕ

-- A second of the clock.
abbrev pub second : ℕ
second = 1000000000

-- `kQueuedTimeoutSeconds`.
abbrev pub queued_timeout : ℕ
queued_timeout = 600

-- The slices of two seconds in which an interval is slept.
abbrev pub slices : ℕ → ℕ
slices interval = (interval + 1999) / 2000

abbrev pub minus_one : ℤ
minus_one = negsuc 0

abbrev pub change_position : ℤ → Awaiting → Awaiting
change_position position s =
    if same_int position s.queue_position
    then s
    else record s { queue_position = position; position_changed = true }

abbrev pub prefer : String → String → Awaiting → Awaiting
prefer id gateway s = record s {
  preferred_session_id = id;
  preferred_gateway = if is_empty gateway then s.preferred_gateway else gateway;
}

abbrev pub is_confirmed : Awaiting → Bool
is_confirmed s = not (is_empty s.preferred_session_id)

-- A new position is reported at once.
abbrev pub report_position : Awaiting → M Awaiting
report_position s =
    if s.position_changed then (do report; pure (record s { position_changed = false })) else pure s

abbrev pub stops_sleeping : Awaiting → Bool
stops_sleeping s = is_confirmed s && not s.reacted_to_confirmation

-- What a round of the loop comes to.
pub data Outcome : Type 0 where
  waiting : Awaiting → Outcome
  ready : SessionInfo → Outcome

-- The deadline of the setup is set once, and then kept.
abbrev pub setup_deadline_of : Intervals → Option ℕ → M ℕ
setup_deadline_of v none = do t ← now; pure (t + v.setup_timeout * second)
setup_deadline_of v (some deadline) = pure deadline

abbrev pub await_setup : Intervals → Awaiting → M Outcome
await_setup v s = do
  deadline ← setup_deadline_of v s.setup_deadline
  t ← now
  if ltb deadline t
      then fail client_error
      else pure
          (waiting (record s { setup_deadline = some deadline; interval_ms = v.setup_poll_ms }))

abbrev pub or_ready : M Outcome → Option SessionInfo → M Outcome
or_ready later (some info) = pure (ready info)
or_ready later none = later

abbrev pub await_queue : Intervals → Awaiting → M Outcome
await_queue v s = do
  t ← now
  if ltb s.queued_deadline t
      then fail client_error
      else pure (waiting (record s { setup_deadline = none; interval_ms = v.queued_poll_ms }))

abbrev pub note_current : LastSession → Awaiting → Awaiting
note_current last s = record s {
  current = record s.current { session_id = last.session_id; status = last.status };
}

abbrev pub go_on : (Awaiting → M Outcome) → Outcome → M Outcome
go_on k (waiting s) = k s
go_on k (ready info) = pure (ready info)

abbrev pub new_awaiting : ℤ → String → String → Bool → SessionInfo → ℕ → Intervals → Awaiting
new_awaiting app id gateway realtime current t v = record {
  app_id = app;
  preferred_session_id = id;
  preferred_gateway = gateway;
  realtime = realtime;
  confirmation_attempted = false;
  queue_position = minus_one;
  queue_eta = minus_one;
  position_changed = false;
  current = current;
  attempt = 0;
  setup_deadline = none;
  queued_deadline = t + queued_timeout * second;
  interval_ms = v.queued_poll_ms;
  reacted_to_confirmation = false;
}

-- A session that is live already is returned at once.
abbrev pub resumed : SessionInfo → M Outcome → Option String → M Outcome
resumed current await (some host) = pure (ready current)
resumed current await none = await
