-- ===== src/Client/Session.antt =====
-- app/src/boosteroid_client.cpp: the requests of the session's life. Headers, URLs and log lines are
-- left out, and `SessionInfo` has the fields that are set here.
use text.Mathlib.Text.{◌==◌ as str_eq}
use booster_nx.Common.{
  ℕ, zero, suc, Bool, false, ◌&&◌, ◌||◌, not, Option, none, some, ltb, leb, ◌==◌, String,
  if◌then◌else◌,
}
use booster_nx.Common.Int.{ℤ, pos, negsuc}
use booster_nx.Client.Json.{Jansson, member_of, get_string, get_integer, get_gateway_address}
use booster_nx.Client.World.{
  HttpResponse, get_last_session, post_dequeue, post_details, post_hangup, post_enqueue, post_start,
  Error, client_error, json_error, session_timed_out, M, pure, fail, ◌>>=◌, ◌>>◌, catch, send,
}

pub record SessionInfo : Type 0 where
  pub session_id : String
  pub node_base_url : Option String
  pub status : String
  pub query_string : Option String

abbrev pub no_session : SessionInfo
no_session = record { session_id = ""; node_base_url = none; status = ""; query_string = none }

pub record LastSession : Type 0 where
  pub session_id : String
  pub app_id : ℤ
  pub status : String

abbrev pub is_empty : String → Bool
is_empty s = str_eq s ""

-- `if (!s.empty()) field = s`.
abbrev pub filled : String → Option String
filled s = if is_empty s then none else some s

-- `last && last->app_id == app_id`.
abbrev pub same_int : ℤ → ℤ → Bool
same_int (pos a) (pos b) = a == b
same_int (negsuc a) (negsuc b) = a == b
same_int a b = false

abbrev pub for_app : ℤ → Option LastSession → Option LastSession
for_app app none = none
for_app app (some last) = if same_int last.app_id app then some last else none

module _ (J : Jansson) where
  -- `TryLoad(body)` and its member "data".
  abbrev pub body_data : String → Option J.Json
  body_data body = member_of J (J.loads body) "data"

  abbrev pub last_session_of : Option J.Json → Option LastSession
  last_session_of none = none
  last_session_of (some j) =
      if is_empty (get_string J (some j) "sessionId")
      then none
      else some (record {
        session_id = get_string J (some j) "sessionId";
        app_id = get_integer J (some j) "appId" (pos 0);
        status = get_string J (some j) "status";
      })

  -- `FetchLastSession`.
  unfoldable pub fetch_last_session : M (Option LastSession)
  fetch_last_session = do
    r ← send get_last_session
    pure (if r.status_code == 200 then last_session_of (body_data r.body) else none)

  -- The details of a session that is ready, from its data and the gateway that is preferred.
  abbrev pub ready_session : String → String → Option J.Json → Option SessionInfo
  ready_session gateway id root =
      let details = member_of J root "data" in
      let gw = get_gateway_address J details "gw" in
      let qs = get_string J details "queryString" in
      if not (is_empty gw)
      then some (record {
        session_id = id;
        node_base_url = some gw;
        status = "LI";
        query_string = filled qs;
      })
      else if not (is_empty gateway) && not (is_empty qs)
      then some (record {
        session_id = id;
        node_base_url = some gateway;
        status = "LI";
        query_string = some qs;
      })
      else none

  abbrev pub ready_answer : String → String → HttpResponse → Option SessionInfo
  ready_answer gateway id r =
      if not (r.status_code == 200) || is_empty r.body
      then none
      else elim (J.loads r.body) [ none ↦ none | some root ↦ ready_session gateway id (some root) ]

  -- `DetailsIfReady`. The status 406 is one that is not 200.
  unfoldable pub details_if_ready : String → String → M (Option SessionInfo)
  details_if_ready gateway id = do r ← send (post_details id); pure (ready_answer gateway id r)

  abbrev pub details_of : String → Option J.Json → SessionInfo
  details_of id root =
      let details = member_of J root "data" in
      record {
        session_id = id;
        node_base_url = filled (get_gateway_address J details "gw");
        status = "LI";
        query_string = filled (get_string J details "queryString");
      }

  abbrev pub parsed_details : String → Option J.Json → M SessionInfo
  parsed_details id none = fail json_error
  parsed_details id (some root) = pure (details_of id (some root))

  -- A 406 whose data has the code "timeout" is a session that has expired.
  abbrev pub refused : String → Error
  refused body =
      if str_eq (get_string J (body_data body) "code") "timeout"
      then session_timed_out
      else client_error

  -- One round of the loop, with what is to be done after an empty body.
  abbrev pub details_round : String → M SessionInfo → HttpResponse → M SessionInfo
  details_round id again r =
      if r.status_code == 406
      then fail (refused r.body)
      else if not (r.status_code == 200)
      then fail client_error
      else if is_empty r.body
      then again
      else parsed_details id (J.loads r.body)

  -- `FetchSessionDetails`, with the rounds that are left after this one.
  unfoldable pub fetch_session_details : String → ℕ → M SessionInfo
  fetch_session_details id zero = do
    r ← send (post_details id)
    details_round id (fail client_error) r
  fetch_session_details id (suc retries) =
      let again = fetch_session_details id retries in
      do r ← send (post_details id); details_round id again r

  abbrev pub is_success : HttpResponse → Bool
  is_success r = leb 200 r.status_code && ltb r.status_code 300

  abbrev pub hang_up_at : String → Option SessionInfo → M Bool
  hang_up_at id none = pure false
  hang_up_at id (some details) = elim details.node_base_url [
    | none ↦ pure false
    | some host ↦ do r ← send (post_hangup id); pure (is_success r)
  ]

  abbrev pub try_details : String → M (Option SessionInfo)
  try_details id = catch (do d ← fetch_session_details id 0; pure (some d)) (pure none)

  -- `HangUpSession`.
  unfoldable pub hang_up_session : String → M Bool
  hang_up_session id = do details ← try_details id; hang_up_at id details

  -- `Dequeue`.
  unfoldable pub dequeue : M Bool
  dequeue = do r ← send post_dequeue; pure (r.status_code == 204)

  -- `StartStreamingSession`.
  unfoldable pub start_streaming_session : ℤ → String → M HttpResponse
  start_streaming_session app token = send (post_start app token)

  abbrev pub try_resume : String → Option LastSession → M (Option SessionInfo)
  try_resume gateway none = pure none
  try_resume gateway (some last) = catch (details_if_ready gateway last.session_id) (pure none)

  abbrev pub release : Option LastSession → M Bool
  release none = pure false
  release (some existing) = hang_up_session existing.session_id

  abbrev pub queued_id : Option LastSession → String
  queued_id none = ""
  queued_id (some queued) = queued.session_id

  -- The enqueueing of a new session.
  abbrev pub enqueue_session : ℤ → M SessionInfo
  enqueue_session app = do
    existing ← fetch_last_session
    release existing
    dequeue
    r ← send (post_enqueue app)
    if not (r.status_code == 204) then fail client_error else do
      queued ← fetch_last_session
      pure (record no_session { status = "EN"; session_id = queued_id (for_app app queued) })

  abbrev pub resume_or : M SessionInfo → Option SessionInfo → M SessionInfo
  resume_or fresh (some live) = pure live
  resume_or fresh none = fresh

  -- `CreateSession`.
  unfoldable pub create_session : String → ℤ → M SessionInfo
  create_session gateway app = do
    last ← fetch_last_session
    live ← try_resume gateway (for_app app last)
    resume_or (enqueue_session app) live
