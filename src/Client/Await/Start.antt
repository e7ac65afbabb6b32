-- ===== src/Client/Await/Start.antt =====
-- app/src/boosteroid_client.cpp: the server is asked to start the session once at most.
use text.Mathlib.Text.{◌==◌ as str_eq}
use booster_nx.Common.{ℕ, zero, suc, ◌+◌, ◌≤◌, Bool, true, Option, none, some, String, arith, ltb}
use booster_nx.Common.Int.{ℤ}
use booster_nx.Client.Json.{Jansson}
use booster_nx.Client.World.{client_error, World, M, ◌>>=◌, now, report}
use booster_nx.Client.Session.{
  SessionInfo, LastSession, fetch_last_session, details_if_ready, create_session, for_app,
}
use booster_nx.Client.Await.{
  sleep, poll_confirmed, poll_own, poll_last, poll_server, await_round, await_loop, await_created,
  create_and_await_session, details_of_last,
}
use booster_nx.Client.Waiting.{
  Awaiting, Intervals, Outcome, waiting, ready, await_setup, setup_deadline_of, or_ready,
  await_queue, go_on, note_current, slices, is_confirmed, new_awaiting, resumed,
}
use booster_nx.Client.Await.Spends.{
  starts, Spends, NoStart, now-NoStart, bind-NoStart, bind-Spends, NoStart-Spends, pure-NoStart,
  if-Spends, report-NoStart, pure-Spends, fail-Spends,
}
use booster_nx.Client.Await.Quiet.{
  fetch_last_session-NoStart, details_if_ready-NoStart, create_session-NoStart,
}
use booster_nx.Client.Await.Push.{budget, sleep-Spends}

abbrev outcome_budget : Outcome → ℕ
outcome_budget (waiting s) = budget s
outcome_budget (ready info) = 0

module _ (J : Jansson) where
  setup_deadline_of-NoStart : (v : Intervals) (o : Option ℕ) → NoStart (setup_deadline_of v o)
  setup_deadline_of-NoStart v none = bind-NoStart now _ now-NoStart (λ t. pure-NoStart _)
  setup_deadline_of-NoStart v (some deadline) = pure-NoStart deadline

  await_setup-Spends :
      (v : Intervals) (s : Awaiting) → Spends outcome_budget (budget s) (await_setup v s)
  await_setup-Spends v s =
      bind-Spends (λ d. budget s) outcome_budget (budget s) (setup_deadline_of v s.setup_deadline) _
        (NoStart-Spends (budget s) _ (setup_deadline_of-NoStart v s.setup_deadline))
        (λ d.
          bind-Spends (λ t. budget s) outcome_budget (budget s) now _
            (NoStart-Spends (budget s) now now-NoStart)
            (λ t.
              if-Spends outcome_budget (budget s) (ltb d t) _ _
                (fail-Spends Outcome outcome_budget (budget s) client_error)
                (pure-Spends outcome_budget (budget s) _ (omega arith))))

  or_ready-Spends :
      (n : ℕ) (later : M Outcome) (o : Option SessionInfo)
      → Spends outcome_budget n later
      → Spends outcome_budget n (or_ready later o)
  or_ready-Spends n later none h = h
  or_ready-Spends n later (some info) h = pure-Spends outcome_budget n (ready info) (omega arith)

  -- Reports, requests that start nothing, and the rest.
  quiet-Spends :
      {A : Type 0} (n : ℕ) (m : M A) (f : A → M Outcome)
      → NoStart m
      → ((a : A) → Spends outcome_budget n (f a))
      → Spends outcome_budget n (m >>= f)
  quiet-Spends n m f h k = bind-Spends (λ a. n) outcome_budget n m f (NoStart-Spends n m h) k

  poll_confirmed-Spends :
      (v : Intervals) (s : Awaiting) → Spends outcome_budget (budget s) (poll_confirmed J v s)
  poll_confirmed-Spends v s = quiet-Spends (budget s) report _ report-NoStart (λ u.
      quiet-Spends (budget s) (details_if_ready J s.preferred_gateway s.preferred_session_id) _
        (details_if_ready-NoStart J s.preferred_gateway s.preferred_session_id)
        (λ r.
          or_ready-Spends (budget s) _ r
            (await_setup-Spends v (record s { reacted_to_confirmation = true }))))

  await_queue-Spends :
      (v : Intervals) (s : Awaiting) → Spends outcome_budget (budget s) (await_queue v s)
  await_queue-Spends v s = quiet-Spends (budget s) now _ now-NoStart (λ t.
      if-Spends outcome_budget (budget s) (ltb s.queued_deadline t) _ _
        (fail-Spends Outcome outcome_budget (budget s) client_error)
        (pure-Spends outcome_budget (budget s) _ (omega arith)))

  poll_own-Spends :
      (v : Intervals) (last : LastSession) (s : Awaiting)
      → Spends outcome_budget (budget s) (poll_own J v last s)
  poll_own-Spends v last s = quiet-Spends (budget s) report _ report-NoStart (λ u.
      if-Spends outcome_budget (budget s) (str_eq last.status "EN") _ _ (await_queue-Spends v s) (
        quiet-Spends (budget s) (details_if_ready J s.preferred_gateway last.session_id) _
          (details_if_ready-NoStart J s.preferred_gateway last.session_id)
          (λ r. or_ready-Spends (budget s) _ r (await_setup-Spends v s))))

  poll_last-Spends :
      (v : Intervals) (s : Awaiting) (o : Option LastSession)
      → Spends outcome_budget (budget s) (poll_last J v s o)
  poll_last-Spends v s none =
      quiet-Spends (budget s) report _ report-NoStart
        (λ u. pure-Spends outcome_budget (budget s) (waiting s) (omega arith))
  poll_last-Spends v s (some last) = poll_own-Spends v last (note_current last s)

  poll_server-Spends :
      (v : Intervals) (s : Awaiting) → Spends outcome_budget (budget s) (poll_server J v s)
  poll_server-Spends v s =
      if-Spends outcome_budget (budget s) (is_confirmed s) _ _ (poll_confirmed-Spends v s) (
        quiet-Spends (budget s) (fetch_last_session J) _ (fetch_last_session-NoStart J)
          (λ last. poll_last-Spends v s (for_app s.app_id last)))

  go_on-Spends :
      (k : Awaiting → M Outcome)
      → ((t : Awaiting) → Spends outcome_budget (budget t) (k t))
      → (o : Outcome) → Spends outcome_budget (outcome_budget o) (go_on k o)
  go_on-Spends k h (waiting t) = h t
  go_on-Spends k h (ready info) = pure-Spends outcome_budget 0 (ready info) (omega arith)

  await_loop-Spends :
      (n : ℕ) (v : Intervals) (s : Awaiting) → Spends outcome_budget (budget s) (await_loop J n v s)
  unfolding await_loop await_round
  await_loop-Spends zero v s = pure-Spends outcome_budget (budget s) (waiting s) (omega arith)
  await_loop-Spends (suc n) v s =
      bind-Spends outcome_budget outcome_budget (budget s) (await_round J v s) _
        (bind-Spends budget outcome_budget (budget s) (sleep J (slices s.interval_ms) s) _
          (sleep-Spends J (slices s.interval_ms) s)
          (λ t. poll_server-Spends v (record t { attempt = t.attempt + 1 })))
        (go_on-Spends (await_loop J n v) (await_loop-Spends n v))

  details_of_last-NoStart :
      (gateway : String) (o : Option LastSession) → NoStart (details_of_last J gateway o)
  details_of_last-NoStart gateway none = pure-NoStart none
  details_of_last-NoStart gateway (some last) = details_if_ready-NoStart J gateway last.session_id

  await_created-Spends :
      (rounds : ℕ) (v : Intervals) (app : ℤ) (id gateway : String) (realtime : Bool)
      (current : SessionInfo)
      → Spends outcome_budget 1 (await_created J rounds v app id gateway realtime current)
  await_created-Spends rounds v app id gateway realtime current =
      quiet-Spends 1 (fetch_last_session J) _ (fetch_last_session-NoStart J) (λ last.
        quiet-Spends 1 (details_of_last J gateway (for_app app last)) _
          (details_of_last-NoStart gateway (for_app app last))
          (λ r. or_ready-Spends 1 _ r (
            quiet-Spends 1 now _ now-NoStart (λ t.
              await_loop-Spends rounds v (new_awaiting app id gateway realtime current t v)))))

  resumed-Spends :
      (rounds : ℕ) (v : Intervals) (app : ℤ) (id gateway : String) (realtime : Bool)
      (current : SessionInfo) (host : Option String)
      → Spends outcome_budget 1
          (resumed current (await_created J rounds v app id gateway realtime current) host)
  resumed-Spends rounds v app id gateway realtime current none =
      await_created-Spends rounds v app id gateway realtime current
  resumed-Spends rounds v app id gateway realtime current (some host) =
      pure-Spends outcome_budget 1 (ready current) (omega arith)

  -- Whatever the server answers, whatever the socket delivers, however often, and whatever the
  -- caller and the clock do, one call of `CreateAndAwaitSession` asks the server to start a session
  -- once at most.
  pub create_and_await_session-starts_once :
      (rounds : ℕ) (v : Intervals) (app : ℤ) (id gateway : String) (realtime : Bool) (w : World)
      → starts (create_and_await_session J rounds v app id gateway realtime w).1.sent
        ≤ starts w.sent + 1
  unfolding create_and_await_session
  create_and_await_session-starts_once rounds v app id gateway realtime w =
      let h =
        quiet-Spends 1 (create_session J gateway app) _ (create_session-NoStart J gateway app)
          (λ current.
            quiet-Spends 1 report _ report-NoStart (λ u.
              resumed-Spends rounds v app id gateway realtime current current.node_base_url)) in
      omega (arith, h.spent w)
