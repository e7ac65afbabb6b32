-- ===== src/Client/Await/Push.antt =====
-- app/src/boosteroid_client.cpp: the push of the realtime socket, and the start that it leads to.
use booster_nx.Common.{
  ℕ, zero, suc, ◌≡◌, refl, Bool, true, false, ◌&&◌, ◌||◌, not, Option, none, some, List, [], ◌∷◌,
  String, arith, if◌then◌else◌,
}
use booster_nx.Client.Json.{Jansson, get_string, get_integer}
use booster_nx.Client.World.{HttpResponse, post_start, pure, send, poll_messages, report}
use booster_nx.Client.Session.{start_streaming_session, same_int}
use booster_nx.Client.Await.{
  note_started, confirm, is_start_push, on_parsed, on_message, on_messages, poll_realtime, sleep,
  note_position, message_body, note_eta, is_integer,
}
use booster_nx.Client.Waiting.{
  Awaiting, report_position, stops_sleeping, minus_one, change_position,
}
use booster_nx.Client.Await.Spends.{
  Spends, poll_messages-NoStart, bind-Spends, NoStart-Spends, if-Spends, report-NoStart,
  pure-Spends, catch-Spends, weaken-Spends, send-Spends,
}

-- The start that may still be sent.
abbrev pub budget : Awaiting → ℕ
budget s = if s.confirmation_attempted then 0 else 1

budget-if :
    (b : Bool) (s t : Awaiting) (n : ℕ)
    → budget s ≡ n
    → budget t ≡ n
    → budget (if b then s else t) ≡ n
budget-if true s t n e f = e
budget-if false s t n e f = f

module _ (J : Jansson) where
  budget-note_position : (body : J.Json) (s : Awaiting) → budget (note_position J body s) ≡ budget s
  budget-note_position body s =
      let p = get_integer J (some body) "position" minus_one in
      let t = change_position p s in
      let moved : budget t ≡ budget s =
        budget-if (same_int p s.queue_position) s
          (record s { queue_position = p; position_changed = true }) (budget s) refl refl in
      budget-if
        (is_integer J (J.member body "position")
          && same_int (get_integer J (some body) "appId" s.app_id) s.app_id)
        (note_eta J body t) s (budget s)
        (budget-if (is_integer J (J.member body "eta"))
          (record t { queue_eta = get_integer J (some body) "eta" minus_one }) t (budget s) moved
          moved)
        refl

  budget-note_started :
      (s : Awaiting) (r : HttpResponse)
      → s.confirmation_attempted ≡ true
      → budget (note_started J s r) ≡ 0
  budget-note_started s r e = let spent : budget s ≡ 0 = rw e refl in budget-if _ _ s 0 spent spent

  confirm-Spends :
      (token : String) (s : Awaiting)
      → s.confirmation_attempted ≡ true
      → Spends budget 1 (confirm J token s)
  unfolding start_streaming_session
  confirm-Spends token s e =
      catch-Spends budget 1 _ (pure s)
        (bind-Spends (λ r. 0) budget 1 (send (post_start s.app_id token)) _
          (send-Spends s.app_id token)
          (λ r.
            pure-Spends budget 0 (note_started J s r) (omega (arith, budget-note_started s r e))))
        (pure-Spends budget 0 s (rw e (omega arith)))

  push-Spends :
      (t : Bool) (token : String) (s : Awaiting)
      → (t ≡ false → s.confirmation_attempted ≡ false)
      → Spends budget
          (budget s)
          (if t then pure s else confirm J token (record s { confirmation_attempted = true }))
  push-Spends true token s h = pure-Spends budget (budget s) s (omega arith)
  push-Spends false token s h =
      weaken-Spends budget 1 (budget s) _ (rw (h refl) (omega arith))
        (confirm-Spends token (record s { confirmation_attempted = true }) refl)

  on_parsed-Spends : (o : Option J.Json) (s : Awaiting) → Spends budget (budget s) (on_parsed J o s)
  on_parsed-Spends none s = pure-Spends budget (budget s) s (omega arith)
  on_parsed-Spends (some msg) s =
      let body = message_body J msg in
      let t = note_position J body s in
      weaken-Spends budget (budget t) (budget s) _ (omega (arith, budget-note_position body s)) (
        push-Spends (t.confirmation_attempted || not (is_start_push J msg body t))
          (get_string J (some body) "token") t (λ h. ground (arith, h)))

  on_messages-Spends :
      (ms : List String) (s : Awaiting) → Spends budget (budget s) (on_messages J ms s)
  unfolding on_messages on_message
  on_messages-Spends [] s = pure-Spends budget (budget s) s (omega arith)
  on_messages-Spends (m ∷ ms) s =
      bind-Spends budget budget (budget s) (on_message J m s) _ (on_parsed-Spends (J.loads m) s)
        (λ t. on_messages-Spends ms t)

  poll_realtime-Spends : (s : Awaiting) → Spends budget (budget s) (poll_realtime J s)
  poll_realtime-Spends s =
      if-Spends budget (budget s) s.realtime _ (pure s)
        (bind-Spends (λ ms. budget s) budget (budget s) poll_messages _
          (NoStart-Spends (budget s) poll_messages poll_messages-NoStart)
          (λ ms. on_messages-Spends ms s))
        (pure-Spends budget (budget s) s (omega arith))

  report_position-Spends : (s : Awaiting) → Spends budget (budget s) (report_position s)
  report_position-Spends s =
      if-Spends budget (budget s) s.position_changed _ (pure s)
        (bind-Spends (λ u. budget s) budget (budget s) report _
          (NoStart-Spends (budget s) report report-NoStart)
          (λ u.
            pure-Spends budget (budget s) (record s { position_changed = false }) (omega arith)))
        (pure-Spends budget (budget s) s (omega arith))

  pub sleep-Spends : (n : ℕ) (s : Awaiting) → Spends budget (budget s) (sleep J n s)
  unfolding sleep
  sleep-Spends zero s = pure-Spends budget (budget s) s (omega arith)
  sleep-Spends (suc n) s =
      bind-Spends budget budget (budget s) (poll_realtime J s) _ (poll_realtime-Spends s) (λ t.
        if-Spends budget (budget t) (stops_sleeping t) (pure t) _
          (pure-Spends budget (budget t) t (omega arith))
          (bind-Spends budget budget (budget t) (report_position t) _ (report_position-Spends t)
            (λ u. sleep-Spends n u)))
