-- ===== src/Client/Await/Found.antt =====
-- app/src/boosteroid_client.cpp: the host that `DetailsIfReady` finds.
use booster_nx.Common.{
  ◌≡◌, false, ◌&&◌, ◌||◌, ◌==◌, not, Option, none, some, String, arith, Bool-cases, inl, inr,
}
use booster_nx.Client.Json.{Jansson, get_gateway_address, get_string, member_of}
use booster_nx.Client.World.{HttpResponse, send, post_details}
use booster_nx.Client.Session.{SessionInfo, details_if_ready, ready_answer, ready_session, is_empty}
use booster_nx.Client.Await.Ensures.{Ensures, pure-Ensures, then-Ensures}

-- A host to connect to.
abbrev pub IsHost : Option String → Type 0
IsHost none = ⊥
IsHost (some host) = is_empty host ≡ false

abbrev pub HasHost : SessionInfo → Type 0
HasHost info = IsHost info.node_base_url

abbrev pub Found : Option SessionInfo → Type 0
Found none = Unit {0}
Found (some info) = HasHost info

module _ (J : Jansson) where
  ready_session-Found :
      (gateway id : String) (root : Option J.Json) → Found (ready_session J gateway id root)
  ready_session-Found gateway id root =
      let gw = get_gateway_address J (member_of J root "data") "gw" in
      let qs = get_string J (member_of J root "data") "queryString" in
      elim (Bool-cases (is_empty gw)) [
        | inl none' ↦ rw none' (elim (Bool-cases (not (is_empty gateway) && not (is_empty qs))) [
          | inl known ↦ rw known (ground (arith, known))
          | inr unknown ↦ rw unknown tt
        ])
        | inr named ↦ rw named named
      ]

  parsed-Found :
      (gateway id : String) (o : Option J.Json)
      → Found (elim o [ none ↦ none | some root ↦ ready_session J gateway id (some root) ])
  parsed-Found gateway id none = tt
  parsed-Found gateway id (some root) = ready_session-Found gateway id (some root)

  ready_answer-Found :
      (gateway id : String) (r : HttpResponse) → Found (ready_answer J gateway id r)
  ready_answer-Found gateway id r =
      elim (Bool-cases (not (r.status_code == 200) || is_empty r.body)) [
        | inl refused' ↦ rw refused' tt
        | inr answered ↦ rw answered (parsed-Found gateway id (J.loads r.body))
      ]

  pub details_if_ready-Found : (gateway id : String) → Ensures Found (details_if_ready J gateway id)
  unfolding details_if_ready
  details_if_ready-Found gateway id =
      then-Ensures Found (send (post_details id)) _
        (λ r. pure-Ensures Found (ready_answer J gateway id r) (ready_answer-Found gateway id r))
