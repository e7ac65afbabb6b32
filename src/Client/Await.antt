-- ===== src/Client/Await.antt =====
-- app/src/boosteroid_client.cpp: `CreateAndAwaitSession`, from the queue to a session that is ready.
-- `on_poll` is taken as given.
pub mod Spends
pub mod Quiet
pub mod Push
pub mod Start
pub mod Ensures
pub mod Found
pub mod Ready
use text.Mathlib.Text.{◌==◌ as str_eq}
use booster_nx.Common.{
  ℕ, zero, suc, ◌+◌, Bool, true, false, ◌&&◌, ◌||◌, not, Option, none, some, List, [], ◌∷◌, ◌==◌,
  String, if◌then◌else◌,
}
use booster_nx.Common.Int.{ℤ}
use booster_nx.Client.Json.{Jansson, member_of, get_string, get_integer, integer_of}
use booster_nx.Client.World.{◌>>=◌, ◌>>◌, HttpResponse, M, pure, catch, poll_messages, now, report}
use booster_nx.Client.Session.{
  SessionInfo, LastSession, is_empty, same_int, for_app, body_data, fetch_last_session,
  details_if_ready, start_streaming_session, create_session,
}
use booster_nx.Client.Waiting.{
  Awaiting, Intervals, slices, minus_one, change_position, prefer, is_confirmed, report_position,
  stops_sleeping, Outcome, await_setup, or_ready, await_queue, note_current, go_on, new_awaiting,
  resumed, waiting,
}

module _ (J : Jansson) where
  abbrev pub is_integer : Option J.Json → Bool
  is_integer j = elim (integer_of J j) [ none ↦ false | some n ↦ true ]

  -- The nested "value", if it is an object, or else the message.
  abbrev pub message_body : J.Json → J.Json
  message_body msg = elim (J.member msg "value") [
    | none ↦ msg
    | some value ↦ if J.is_object value then value else msg
  ]

  abbrev pub note_eta : J.Json → Awaiting → Awaiting
  note_eta body s =
      if is_integer (J.member body "eta")
      then record s { queue_eta = get_integer J (some body) "eta" minus_one }
      else s

  -- A position update, by its shape.
  abbrev pub note_position : J.Json → Awaiting → Awaiting
  note_position body s =
      if is_integer (J.member body "position")
        && same_int (get_integer J (some body) "appId" s.app_id) s.app_id
      then note_eta body (change_position (get_integer J (some body) "position" minus_one) s)
      else s

  abbrev pub first_element : Option (List J.Json) → Option J.Json
  first_element none = none
  first_element (some []) = none
  first_element (some (j ∷ js)) = some j

  abbrev pub elements_of : Option J.Json → Option (List J.Json)
  elements_of none = none
  elements_of (some j) = J.elements j

  -- What the confirmation answered.
  abbrev pub note_started : Awaiting → HttpResponse → Awaiting
  note_started s r =
      let details = body_data J r.body in
      let id = get_string J details "sessionId" in
      let gateway =
        get_string J (first_element (elements_of (member_of J details "gateways"))) "address" in
      if (r.status_code == 201) && not (is_empty id) then prefer id gateway s else s

  -- `StartStreamingSession`, with what it throws swallowed.
  abbrev pub confirm : String → Awaiting → M Awaiting
  confirm token s =
      catch (do r ← start_streaming_session J s.app_id token; pure (note_started s r)) (pure s)

  -- Whether the message is the push that names a reserved machine for this game.
  abbrev pub is_start_push : J.Json → J.Json → Awaiting → Bool
  is_start_push msg body s =
      str_eq (get_string J (some msg) "type") "queues"
      && (str_eq (get_string J (some msg) "action") "start"
          && (same_int (get_integer J (some body) "appId" minus_one) s.app_id
              && not (is_empty (get_string J (some body) "token"))))

  abbrev pub on_start_push : J.Json → J.Json → Awaiting → M Awaiting
  on_start_push msg body s =
      if s.confirmation_attempted || not (is_start_push msg body s)
      then pure s
      else confirm (get_string J (some body) "token") (record s { confirmation_attempted = true })

  abbrev pub on_parsed : Option J.Json → Awaiting → M Awaiting
  on_parsed none s = pure s
  on_parsed (some msg) s = on_start_push msg (message_body msg) (note_position (message_body msg) s)

  -- The handler of the realtime socket.
  unfoldable pub on_message : String → Awaiting → M Awaiting
  on_message text s = on_parsed (J.loads text) s

  unfoldable pub on_messages : List String → Awaiting → M Awaiting
  on_messages [] s = pure s
  on_messages (m ∷ ms) s = do s' ← on_message m s; on_messages ms s'

  abbrev pub poll_realtime : Awaiting → M Awaiting
  poll_realtime s = if s.realtime then (do ms ← poll_messages; on_messages ms s) else pure s

  -- The sleep between two polls; it ends early once the session is confirmed.
  unfoldable pub sleep : ℕ → Awaiting → M Awaiting
  sleep zero s = pure s
  sleep (suc n) s =
      let later = λ (t : Awaiting). (do u ← report_position t; sleep n u) in
      do t ← poll_realtime s; if stops_sleeping t then pure t else later t

  -- Once the session is confirmed its details are all that counts.
  abbrev pub poll_confirmed : Intervals → Awaiting → M Outcome
  poll_confirmed v s = do
    report
    r ← details_if_ready J s.preferred_gateway s.preferred_session_id
    or_ready (await_setup v (record s { reacted_to_confirmation = true })) r

  abbrev pub poll_own : Intervals → LastSession → Awaiting → M Outcome
  poll_own v last s = do
    report
    if str_eq last.status "EN" then await_queue v s else do
      r ← details_if_ready J s.preferred_gateway last.session_id
      or_ready (await_setup v s) r

  -- Without a session of this game the loop goes on, with no deadline.
  abbrev pub poll_last : Intervals → Awaiting → Option LastSession → M Outcome
  poll_last v s none = do report; pure (waiting s)
  poll_last v s (some last) = poll_own v last (note_current last s)

  abbrev pub poll_server : Intervals → Awaiting → M Outcome
  poll_server v s =
      if is_confirmed s
      then poll_confirmed v s
      else do last ← fetch_last_session J; poll_last v s (for_app s.app_id last)

  -- One round of the loop.
  unfoldable pub await_round : Intervals → Awaiting → M Outcome
  await_round v s = do
    t ← sleep (slices s.interval_ms) s
    poll_server v (record t { attempt = t.attempt + 1 })

  -- The loop, for a number of rounds.
  unfoldable pub await_loop : ℕ → Intervals → Awaiting → M Outcome
  await_loop zero v s = pure (waiting s)
  await_loop (suc n) v s = let rest = go_on (await_loop n v) in do o ← await_round v s; rest o

  abbrev pub details_of_last : String → Option LastSession → M (Option SessionInfo)
  details_of_last gateway none = pure none
  details_of_last gateway (some last) = details_if_ready J gateway last.session_id

  abbrev pub await_created : ℕ → Intervals → ℤ → String → String → Bool → SessionInfo → M Outcome
  await_created rounds v app id gateway realtime current = do
    last ← fetch_last_session J
    r ← details_of_last gateway (for_app app last)
    or_ready (do t ← now; await_loop rounds v (new_awaiting app id gateway realtime current t v)) r

  -- `CreateAndAwaitSession`, for a number of rounds of its loop; `id` and `gateway` are the members
  -- as they stand before, `realtime` is whether the socket connects.
  unfoldable pub create_and_await_session : ℕ → Intervals → ℤ → String → String → Bool → M Outcome
  create_and_await_session rounds v app id gateway realtime = do
    current ← create_session J gateway app
    report
    resumed current (await_created rounds v app id gateway realtime current) current.node_base_url
