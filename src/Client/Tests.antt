-- ===== src/Client/Tests.antt =====
-- Runs of the session client at concrete inputs, and its properties at an input where they apply.
use text.Mathlib.Text.{◌==◌ as str_eq}
use booster_nx.Common.{
  ℕ, ◌+◌, ◌≤◌, ◌≡◌, refl, Bool, true, false, Option, none, some, List, [], ◌∷◌, String,
  if◌then◌else◌,
}
use booster_nx.Common.Int.{ℤ, pos, negsuc, ◌+ℤ◌, ◌-ℤ◌, ◌*ℤ◌}
use booster_nx.Client.Json.{Jansson, decimal, to_text, get_integer, get_bool}
use booster_nx.Client.World.{
  HttpResponse, get_last_session, post_dequeue, post_details, post_enqueue, post_start, Result, ok,
  World, send, poll_messages, now, ask_caller, report,
}
use booster_nx.Client.Session.{
  SessionInfo, fetch_last_session, details_if_ready, dequeue, start_streaming_session,
  create_session, hang_up_session, fetch_session_details,
}
use booster_nx.Client.Await.{
  on_message, on_messages, sleep, await_round, await_loop, create_and_await_session,
}
use booster_nx.Client.Waiting.{Intervals, Outcome, ready}
use booster_nx.Client.Await.Spends.{starts}
use booster_nx.Client.Await.Start.{create_and_await_session-starts_once}
use booster_nx.Client.Await.Found.{HasHost}
use booster_nx.Client.Await.Ready.{create_and_await_session-HasHost}
use booster_nx.Client.Dates.{
  parse_utc_timestamp_ms, scan_fields, scan_digits, skip_space, timestamp_of, days_of, civil_year,
  era_of, year_of_era, month_from_march, day_of_year, day_of_era,
}

-- Documents: an object is a chain of members, an array a chain of items.
data Doc : Type 0 where
  words : String → Doc
  number : ℤ → Doc
  braces brackets : Doc
  member : String → Doc → Doc → Doc
  item : Doc → Doc → Doc

doc_member : Doc → String → Option Doc
doc_member (words s) key = none
doc_member (number n) key = none
doc_member braces key = none
doc_member brackets key = none
doc_member (member k v rest) key =
    let later = doc_member rest key in if str_eq k key then some v else later
doc_member (item d rest) key = none

doc_items : Doc → List Doc
doc_items (words s) = []
doc_items (number n) = []
doc_items braces = []
doc_items brackets = []
doc_items (member k v rest) = []
doc_items (item d rest) = d ∷ doc_items rest

abbrev doc_is_object : Doc → Bool
doc_is_object (words s) = false
doc_is_object (number n) = false
doc_is_object braces = true
doc_is_object brackets = false
doc_is_object (member k v rest) = true
doc_is_object (item d rest) = false

abbrev doc_text : Doc → Option String
doc_text (words s) = some s
doc_text (number n) = none
doc_text braces = none
doc_text brackets = none
doc_text (member k v rest) = none
doc_text (item d rest) = none

abbrev doc_number : Doc → Option ℤ
doc_number (words s) = none
doc_number (number n) = some n
doc_number braces = none
doc_number brackets = none
doc_number (member k v rest) = none
doc_number (item d rest) = none

abbrev with_data : Doc → Doc
with_data d = member "data" d braces

-- The last session, the answer to the start, the details, and the push, each under a name.
abbrev queued_session : Doc
queued_session = with_data (
    member "sessionId" (words "s1")
      (member "appId" (number (pos 7)) (member "status" (words "EN") braces)))

abbrev started_session : Doc
started_session = with_data (
    member "sessionId" (words "s2")
      (member "gateways" (item (member "address" (words "edge") braces) brackets) braces))

abbrev session_details : Doc
session_details =
    with_data (member "gw" (words "node") (member "queryString" (words "key=1") braces))

abbrev start_push : Doc
start_push = member "type" (words "queues") (
    member "action" (words "start") (
      member "value" (member "appId" (number (pos 7)) (member "token" (words "reserved") braces))
        braces))

abbrev doc_loads : String → Option Doc
doc_loads s =
    if str_eq s "queued"
    then some queued_session
    else if str_eq s "started"
    then some started_session
    else if str_eq s "details"
    then some session_details
    else if str_eq s "push"
    then some start_push
    else none

abbrev docs : Jansson
docs = record {
  Json = Doc;
  loads = doc_loads;
  member = doc_member;
  is_object = doc_is_object;
  string_value = doc_text;
  integer_value = doc_number;
  boolean_value = λ d. none;
  elements = λ d. some (doc_items d);
}

abbrev answer : ℕ → String → Option HttpResponse
answer status body = some (record { status_code = status; body = body })

-- No session yet; it is queued, and not ready; then the push comes twice.
abbrev service : World
service = record {
  responses =
      answer 200 ""
      ∷ answer 404 ""
      ∷ answer 204 ""
      ∷ answer 204 ""
      ∷ answer 200 "queued"
      ∷ answer 200 "queued"
      ∷ answer 406 ""
      ∷ answer 201 "started"
      ∷ answer 200 "details"
      ∷ [];
  messages = ("push" ∷ "push" ∷ []) ∷ [];
  answers = [];
  times = [];
  sent = [];
}

abbrev intervals : Intervals
intervals = record { queued_poll_ms = 5000; setup_poll_ms = 2000; setup_timeout = 120 }

abbrev streamed : Result Outcome × World
streamed = create_and_await_session docs 2 intervals (pos 7) "" "" true service

abbrev live_session : SessionInfo
live_session = record {
  session_id = "s2";
  node_base_url = some "node";
  status = "LI";
  query_string = some "key=1";
}

session_ready : streamed.0 ≡ ok (ready live_session)
unfolding create_and_await_session create_session fetch_last_session send dequeue report ask_caller
    now details_if_ready await_loop await_round sleep poll_messages on_messages on_message
    start_streaming_session doc_member doc_items
session_ready = refl

requests_sent :
    streamed.1.sent
    ≡ get_last_session
      ∷ get_last_session
      ∷ post_dequeue
      ∷ post_enqueue (pos 7)
      ∷ get_last_session
      ∷ get_last_session
      ∷ post_details "s1"
      ∷ post_start (pos 7) "reserved"
      ∷ post_details "s2"
      ∷ []
unfolding create_and_await_session create_session fetch_last_session send dequeue report ask_caller
    now details_if_ready await_loop await_round sleep poll_messages on_messages on_message
    start_streaming_session doc_member doc_items
requests_sent = refl

create_and_await_session-starts_once_example : starts streamed.1.sent ≤ starts service.sent + 1
create_and_await_session-starts_once_example =
    create_and_await_session-starts_once docs 2 intervals (pos 7) "" "" true service

create_and_await_session-HasHost_example : HasHost live_session
create_and_await_session-HasHost_example =
    create_and_await_session-HasHost docs 2 intervals (pos 7) "" "" true service live_session
      session_ready

-- 2026-07-31 12:00:00, and a text that is no time.
noon :
    parse_utc_timestamp_ms (
      50 ∷ 48 ∷ 50 ∷ 54 ∷ 45 ∷ 48 ∷ 55 ∷ 45 ∷ 51 ∷ 49 ∷ 32 ∷ 49 ∷ 50 ∷ 58 ∷ 48 ∷ 48 ∷ 58 ∷ 48 ∷ 48
      ∷ [])
    ≡ pos 1785499200000
unfolding parse_utc_timestamp_ms scan_fields scan_digits skip_space timestamp_of days_of civil_year
    era_of year_of_era month_from_march day_of_year day_of_era ◌+ℤ◌ ◌-ℤ◌ ◌*ℤ◌
noon = refl

no_time : parse_utc_timestamp_ms (50 ∷ 48 ∷ []) ≡ pos 0
unfolding parse_utc_timestamp_ms scan_fields scan_digits skip_space
no_time = refl

negative_text : to_text (negsuc 41) ≡ "-42"
unfolding decimal
negative_text = refl

-- A moment in milliseconds does not fit in the `int` of GetInteger.
cut_to_int :
    get_integer docs
      (some (member "expires_at_ms" (number (pos 1785499200000)) braces))
      "expires_at_ms"
      (pos 0)
    ≡ negsuc 1207195135
unfolding doc_member
cut_to_int = refl

-- What is no boolean gives the fallback.
no_boolean : get_bool docs (some (member "active" (words "yes") braces)) "active" true ≡ true
unfolding doc_member
no_boolean = refl

-- Without a host there is no hanging up.
nothing_to_hang_up :
    (hang_up_session docs "s1" (record service { responses = answer 406 "" ∷ [] })).0 ≡ ok false
unfolding hang_up_session fetch_session_details send doc_member
nothing_to_hang_up = refl
