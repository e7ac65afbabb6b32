-- ===== src/Client/Await/Quiet.antt =====
-- app/src/boosteroid_client.cpp: the requests that do not start a session.
use booster_nx.Common.{refl, Bool, false, not, Option, none, some, String, ◌==◌}
use booster_nx.Common.Int.{ℤ}
use booster_nx.Client.Json.{Jansson}
use booster_nx.Client.World.{
  HttpResponse, get_last_session, post_dequeue, post_details, post_hangup, post_enqueue,
  client_error, json_error, M, pure, fail, ◌>>=◌, send,
}
use booster_nx.Client.Session.{
  SessionInfo, LastSession, fetch_last_session, details_if_ready, fetch_session_details,
  details_round, parsed_details, refused, hang_up_at, try_details, hang_up_session, dequeue,
  try_resume, release, enqueue_session, resume_or, create_session, is_empty, for_app, is_success,
}
use booster_nx.Client.Await.Spends.{
  NoStart, send-NoStart, bind-NoStart, catch-NoStart, pure-NoStart, if-NoStart, fail-NoStart,
}

module _ (J : Jansson) where
  pub fetch_last_session-NoStart : NoStart (fetch_last_session J)
  unfolding fetch_last_session
  fetch_last_session-NoStart =
      bind-NoStart (send get_last_session) _ (send-NoStart get_last_session refl)
        (λ r. pure-NoStart _)

  pub details_if_ready-NoStart : (gateway id : String) → NoStart (details_if_ready J gateway id)
  unfolding details_if_ready
  details_if_ready-NoStart gateway id =
      bind-NoStart (send (post_details id)) _ (send-NoStart (post_details id) refl)
        (λ r. pure-NoStart _)

  details_round-NoStart :
      (id : String) (again : M SessionInfo) (r : HttpResponse)
      → NoStart again
      → NoStart (details_round J id again r)
  details_round-NoStart id again r h =
      if-NoStart (r.status_code == 406) _ _ (fail-NoStart SessionInfo (refused J r.body)) (
        if-NoStart (not (r.status_code == 200)) _ _ (fail-NoStart SessionInfo client_error)
          (if-NoStart (is_empty r.body) again _ h (parsed-NoStart (J.loads r.body))))
    where
      parsed-NoStart : (o : Option J.Json) → NoStart (parsed_details J id o)
      parsed-NoStart none = fail-NoStart SessionInfo json_error
      parsed-NoStart (some root) = pure-NoStart _

  try_details-NoStart : (id : String) → NoStart (try_details J id)
  unfolding fetch_session_details
  try_details-NoStart id =
      catch-NoStart _ (pure none)
        (bind-NoStart _ _
          (bind-NoStart (send (post_details id)) _ (send-NoStart (post_details id) refl) (λ r.
            details_round-NoStart id (fail client_error) r (fail-NoStart SessionInfo client_error)))
          (λ d. pure-NoStart _))
        (pure-NoStart _)

  hang_up_at-NoStart : (id : String) (o : Option SessionInfo) → NoStart (hang_up_at J id o)
  hang_up_at-NoStart id none = pure-NoStart _
  hang_up_at-NoStart id (some d) = host-NoStart d.node_base_url
    where
      host-NoStart :
          (o : Option String)
          → NoStart {A = Bool} (elim o [
            | none ↦ pure false
            | some host ↦ send (post_hangup id) >>= λ r. pure (is_success J r)
          ])
      host-NoStart none = pure-NoStart _
      host-NoStart (some host) =
          bind-NoStart (send (post_hangup id)) _ (send-NoStart (post_hangup id) refl)
            (λ r. pure-NoStart _)

  release-NoStart : (o : Option LastSession) → NoStart (release J o)
  unfolding hang_up_session
  release-NoStart none = pure-NoStart _
  release-NoStart (some existing) =
      bind-NoStart (try_details J existing.session_id) _ (try_details-NoStart existing.session_id)
        (hang_up_at-NoStart existing.session_id)

  enqueue_session-NoStart : (app : ℤ) → NoStart (enqueue_session J app)
  unfolding dequeue
  enqueue_session-NoStart app =
      bind-NoStart (fetch_last_session J) _ fetch_last_session-NoStart (λ existing.
        bind-NoStart (release J existing) _ (release-NoStart existing) (λ b.
          bind-NoStart (dequeue J) _
            (bind-NoStart (send post_dequeue) _ (send-NoStart post_dequeue refl)
              (λ r. pure-NoStart _))
            (λ c.
              bind-NoStart (send (post_enqueue app)) _ (send-NoStart (post_enqueue app) refl) (λ r.
                if-NoStart (not (r.status_code == 204)) _ _ (fail-NoStart SessionInfo client_error)
                  (bind-NoStart (fetch_last_session J) _ fetch_last_session-NoStart
                    (λ queued. pure-NoStart _))))))

  try_resume-NoStart :
      (gateway : String) (o : Option LastSession) → NoStart (try_resume J gateway o)
  try_resume-NoStart gateway none = pure-NoStart _
  try_resume-NoStart gateway (some last) =
      catch-NoStart _ (pure none) (details_if_ready-NoStart gateway last.session_id)
        (pure-NoStart _)

  resume_or-NoStart :
      (fresh : M SessionInfo) (o : Option SessionInfo)
      → NoStart fresh
      → NoStart (resume_or J fresh o)
  resume_or-NoStart fresh (some live) h = pure-NoStart _
  resume_or-NoStart fresh none h = h

  pub create_session-NoStart : (gateway : String) (app : ℤ) → NoStart (create_session J gateway app)
  unfolding create_session
  create_session-NoStart gateway app =
      bind-NoStart (fetch_last_session J) _ fetch_last_session-NoStart (λ last.
        bind-NoStart (try_resume J gateway (for_app app last)) _
          (try_resume-NoStart gateway (for_app app last))
          (λ live. resume_or-NoStart (enqueue_session J app) live (enqueue_session-NoStart app)))
