-- ===== src/Client/Await/Ready.antt =====
-- app/src/boosteroid_client.cpp: what a session that is ready has.
use text.Mathlib.Text.{◌==◌ as str_eq}
use booster_nx.Common.{
  ℕ, zero, suc, ◌+◌, ◌≡◌, refl, Bool, true, false, ◌==◌, not, Option, none, some, String, ltb,
}
use booster_nx.Common.Int.{ℤ}
use booster_nx.Client.Json.{Jansson}
use booster_nx.Client.World.{
  Result, ok, throws, World, M, pure, ◌>>=◌, send, post_enqueue, now, report, client_error,
}
use booster_nx.Client.Session.{
  SessionInfo, LastSession, fetch_last_session, details_if_ready, try_resume, enqueue_session,
  resume_or, create_session, is_empty, for_app, release, dequeue,
}
use booster_nx.Client.Await.{
  sleep, poll_own, poll_last, poll_server, await_round, await_loop, await_created,
  create_and_await_session, details_of_last,
}
use booster_nx.Client.Waiting.{
  Awaiting, Intervals, Outcome, waiting, ready, await_setup, setup_deadline_of, or_ready, go_on,
  note_current, slices, is_confirmed, new_awaiting, resumed,
}
use booster_nx.Client.Await.Ensures.{
  Ensures, Holds, pure-Ensures, if-Ensures, catch-Ensures, fail-Ensures, bind-Ensures, then-Ensures,
}
use booster_nx.Client.Await.Found.{IsHost, HasHost, Found, details_if_ready-Found}

abbrev IsReady : Outcome → Type 0
IsReady (waiting s) = Unit {0}
IsReady (ready info) = HasHost info

module _ (J : Jansson) where
  or_ready-IsReady :
      (later : M Outcome) (o : Option SessionInfo)
      → Found o
      → Ensures IsReady later
      → Ensures IsReady (or_ready later o)
  or_ready-IsReady later none f h = h
  or_ready-IsReady later (some info) f h = pure-Ensures IsReady (ready info) f

  await_setup-IsReady : (v : Intervals) (s : Awaiting) → Ensures IsReady (await_setup v s)
  await_setup-IsReady v s = then-Ensures IsReady (setup_deadline_of v s.setup_deadline) _ (λ d.
      then-Ensures IsReady now _ (λ t.
        if-Ensures IsReady (ltb d t) _ _ (fail-Ensures Outcome IsReady client_error)
          (pure-Ensures IsReady _ tt)))

  poll_details-IsReady :
      (gateway id : String) (later : M Outcome)
      → Ensures IsReady later
      → Ensures IsReady (details_if_ready J gateway id >>= or_ready later)
  poll_details-IsReady gateway id later h =
      bind-Ensures Found IsReady (details_if_ready J gateway id) (or_ready later)
        (details_if_ready-Found J gateway id) (λ r f. or_ready-IsReady later r f h)

  poll_own-IsReady :
      (v : Intervals) (last : LastSession) (s : Awaiting) → Ensures IsReady (poll_own J v last s)
  poll_own-IsReady v last s = then-Ensures IsReady report _ (λ u.
      if-Ensures IsReady (str_eq last.status "EN") _ _
        (then-Ensures IsReady now _ (λ t.
          if-Ensures IsReady (ltb s.queued_deadline t) _ _
            (fail-Ensures Outcome IsReady client_error) (pure-Ensures IsReady _ tt)))
        (poll_details-IsReady s.preferred_gateway last.session_id _ (await_setup-IsReady v s)))

  poll_last-IsReady :
      (v : Intervals) (s : Awaiting) (o : Option LastSession) → Ensures IsReady (poll_last J v s o)
  poll_last-IsReady v s none =
      then-Ensures IsReady report _ (λ u. pure-Ensures IsReady (waiting s) tt)
  poll_last-IsReady v s (some last) = poll_own-IsReady v last (note_current last s)

  poll_server-IsReady : (v : Intervals) (s : Awaiting) → Ensures IsReady (poll_server J v s)
  poll_server-IsReady v s =
      if-Ensures IsReady (is_confirmed s) _ _
        (then-Ensures IsReady report _ (λ u.
          poll_details-IsReady s.preferred_gateway s.preferred_session_id _
            (await_setup-IsReady v (record s { reacted_to_confirmation = true }))))
        (then-Ensures IsReady (fetch_last_session J) _
          (λ last. poll_last-IsReady v s (for_app s.app_id last)))

  go_on-IsReady :
      (k : Awaiting → M Outcome)
      → ((t : Awaiting) → Ensures IsReady (k t))
      → (o : Outcome) → IsReady o
      → Ensures IsReady (go_on k o)
  go_on-IsReady k h (waiting t) f = h t
  go_on-IsReady k h (ready info) f = pure-Ensures IsReady (ready info) f

  await_loop-IsReady : (n : ℕ) (v : Intervals) (s : Awaiting) → Ensures IsReady (await_loop J n v s)
  unfolding await_loop await_round
  await_loop-IsReady zero v s = pure-Ensures IsReady (waiting s) tt
  await_loop-IsReady (suc n) v s =
      bind-Ensures IsReady IsReady (await_round J v s) _
        (then-Ensures IsReady (sleep J (slices s.interval_ms) s) _
          (λ t. poll_server-IsReady v (record t { attempt = t.attempt + 1 })))
        (go_on-IsReady (await_loop J n v) (await_loop-IsReady n v))

  -- A session that has been created has a host only if it is live already.
  abbrev IsHostIfAny : Option String → Type 0
  IsHostIfAny none = Unit {0}
  IsHostIfAny (some host) = is_empty host ≡ false

  IsHost-IsHostIfAny : (o : Option String) → IsHost o → IsHostIfAny o
  IsHost-IsHostIfAny none h = tt
  IsHost-IsHostIfAny (some host) h = h

  abbrev IsCreated : SessionInfo → Type 0
  IsCreated info = IsHostIfAny info.node_base_url

  enqueue_session-IsCreated : (app : ℤ) → Ensures IsCreated (enqueue_session J app)
  enqueue_session-IsCreated app = then-Ensures IsCreated (fetch_last_session J) _ (λ existing.
      then-Ensures IsCreated (release J existing) _ (λ b. then-Ensures IsCreated (dequeue J) _ (λ c.
        then-Ensures IsCreated (send (post_enqueue app)) _ (λ r.
          if-Ensures IsCreated (not (r.status_code == 204)) _ _
            (fail-Ensures SessionInfo IsCreated client_error)
            (then-Ensures IsCreated (fetch_last_session J) _
              (λ queued. pure-Ensures IsCreated _ tt))))))

  try_resume-Found :
      (gateway : String) (o : Option LastSession) → Ensures Found (try_resume J gateway o)
  try_resume-Found gateway none = pure-Ensures Found none tt
  try_resume-Found gateway (some last) =
      catch-Ensures Found _ (pure none) (details_if_ready-Found J gateway last.session_id)
        (pure-Ensures Found none tt)

  resume_or-IsCreated :
      (fresh : M SessionInfo) (o : Option SessionInfo)
      → Found o
      → Ensures IsCreated fresh
      → Ensures IsCreated (resume_or J fresh o)
  resume_or-IsCreated fresh none f h = h
  resume_or-IsCreated fresh (some live) f h =
      pure-Ensures IsCreated live (IsHost-IsHostIfAny live.node_base_url f)

  create_session-IsCreated :
      (gateway : String) (app : ℤ) → Ensures IsCreated (create_session J gateway app)
  unfolding create_session
  create_session-IsCreated gateway app = then-Ensures IsCreated (fetch_last_session J) _ (λ last.
      bind-Ensures Found IsCreated (try_resume J gateway (for_app app last)) _
        (try_resume-Found gateway (for_app app last))
        (λ live f.
          resume_or-IsCreated (enqueue_session J app) live f (enqueue_session-IsCreated app)))

  await_created-IsReady :
      (rounds : ℕ) (v : Intervals) (app : ℤ) (id gateway : String) (realtime : Bool)
      (current : SessionInfo)
      → Ensures IsReady (await_created J rounds v app id gateway realtime current)
  await_created-IsReady rounds v app id gateway realtime current =
      then-Ensures IsReady (fetch_last_session J) _ (λ last.
        bind-Ensures Found IsReady (details_of_last J gateway (for_app app last)) _
          (of_last (for_app app last))
          (λ r f. or_ready-IsReady _ r f (
            then-Ensures IsReady now _ (λ t.
              await_loop-IsReady rounds v (new_awaiting app id gateway realtime current t v)))))
    where
      of_last : (o : Option LastSession) → Ensures Found (details_of_last J gateway o)
      of_last none = pure-Ensures Found none tt
      of_last (some last) = details_if_ready-Found J gateway last.session_id

  resumed-IsReady :
      (current : SessionInfo) (await : M Outcome) (o : Option String)
      → current.node_base_url ≡ o
      → IsHostIfAny o
      → Ensures IsReady await
      → Ensures IsReady (resumed current await o)
  resumed-IsReady current await none e f h = h
  resumed-IsReady current await (some host) e f h = pure-Ensures IsReady (ready current) (rw e f)

  created-IsReady :
      (rounds : ℕ) (v : Intervals) (app : ℤ) (id gateway : String) (realtime : Bool)
      → Ensures IsReady (create_and_await_session J rounds v app id gateway realtime)
  unfolding create_and_await_session
  created-IsReady rounds v app id gateway realtime =
      bind-Ensures IsCreated IsReady (create_session J gateway app) _
        (create_session-IsCreated gateway app)
        (λ current f. then-Ensures IsReady report _ (λ u.
          resumed-IsReady current (await_created J rounds v app id gateway realtime current)
            current.node_base_url refl f
            (await_created-IsReady rounds v app id gateway realtime current)))

  IsReady-HasHost :
      (r : Result Outcome) (info : SessionInfo)
      → Holds IsReady r
      → r ≡ ok (ready info)
      → HasHost info
  IsReady-HasHost (ok (ready other)) info h e = let same : other ≡ info = cc (e) in rw (← same) h
  IsReady-HasHost (ok (waiting s)) info h e = absurd (cc (e))
  IsReady-HasHost (throws x) info h e = absurd (cc (e))

  -- Whatever the server answers: a session that `CreateAndAwaitSession` returns, resumed or awaited,
  -- has a host to connect to, which is not empty.
  pub create_and_await_session-HasHost :
      (rounds : ℕ) (v : Intervals) (app : ℤ) (id gateway : String) (realtime : Bool) (w : World)
      (info : SessionInfo)
      → (create_and_await_session J rounds v app id gateway realtime w).0 ≡ ok (ready info)
      → HasHost info
  create_and_await_session-HasHost rounds v app id gateway realtime w info e =
      IsReady-HasHost (create_and_await_session J rounds v app id gateway realtime w).0 info
        ((created-IsReady rounds v app id gateway realtime).ensured w) e
