-- ===== src/Session/Ice/Local.antt =====
-- app/src/webrtc/session.cpp: local candidates on their way to the server.
use mathlib.Core.List.{append_assoc, append-nil}
use booster_nx.Common.{
  ◌≡◌, refl, ap, sym, ◌∙◌, true, List, [], ◌∷◌, ◌++◌, ℕ, Bool-cases, inl, inr, arith,
}
use booster_nx.Session.Ice.{post_candidate, Ice, candidate_lines, trickle, on_ice_candidate, flush}

pub data Event : Type 0 where
  gathered : List ℕ → Event
  answered : Event

abbrev pub step : Ice → Event → Ice
step s (gathered sdp) = on_ice_candidate s sdp
step s answered = flush s

unfoldable pub run : Ice → List Event → Ice
run s [] = s
run s (v ∷ vs) = run (step s v) vs

-- All candidates that were gathered, in order.
unfoldable pub gathered_in : List Event → List (List ℕ)
gathered_in [] = []
gathered_in (gathered sdp ∷ vs) = candidate_lines sdp ++ gathered_in vs
gathered_in (answered ∷ vs) = gathered_in vs

-- Nothing waits once candidates may be sent.
abbrev pub IsFlushed : Ice → Type 0
IsFlushed s = s.can_send ≡ true → s.pending ≡ []

-- Posted or waiting.
abbrev pub known : Ice → List (List ℕ)
known s = s.posted ++ s.pending

post_candidate-known :
    (s : Ice) (c : List ℕ)
    → IsFlushed s
    → IsFlushed (post_candidate s c) × (known (post_candidate s c) ≡ known s ++ (c ∷ []))
post_candidate-known s c h = elim (Bool-cases s.can_send) [
  | inl e ↦ rw e (
    (λ on. h e),
    ap (λ l. (s.posted ++ (c ∷ [])) ++ l) (h e)
        ∙ append-nil _
        ∙ sym (
            ap (λ l. (s.posted ++ l) ++ (c ∷ [])) (h e)
            ∙ ap (λ l. l ++ (c ∷ [])) (append-nil s.posted)),
  )
  | inr e ↦
      rw e ((λ on. absurd (ground (arith, e, on))), sym (append_assoc s.posted s.pending (c ∷ [])))
]

trickle-known :
    (cs : List (List ℕ)) (s : Ice)
    → IsFlushed s
    → IsFlushed (trickle s cs) × (known (trickle s cs) ≡ known s ++ cs)
unfolding trickle
trickle-known [] s h = (h, sym (append-nil (known s)))
trickle-known (c ∷ cs) s h =
    let one = post_candidate-known s c h in
    let more = trickle-known cs (post_candidate s c) one.0 in
    (more.0, more.1 ∙ ap (λ l. l ++ cs) one.1 ∙ append_assoc (known s) (c ∷ []) cs)

flush-known : (s : Ice) → IsFlushed (flush s) × (known (flush s) ≡ known s)
flush-known s = ((λ on. refl), append-nil (known s))

-- However gathering and the answer are interleaved, the candidates posted and those that wait are the
-- ones known before and all those gathered since, in the order of gathering, and none waits once
-- candidates may be sent.
pub run-known :
    (s : Ice) (vs : List Event)
    → IsFlushed s
    → IsFlushed (run s vs) × (known (run s vs) ≡ known s ++ gathered_in vs)
unfolding run gathered_in
run-known s [] h = (h, sym (append-nil (known s)))
run-known s (gathered sdp ∷ vs) h =
    let one = trickle-known (candidate_lines sdp) s h in
    let more = run-known (on_ice_candidate s sdp) vs one.0 in
    (
      more.0,
      more.1
          ∙ ap (λ l. l ++ gathered_in vs) one.1
          ∙ append_assoc (known s) (candidate_lines sdp) (gathered_in vs),
    )
run-known s (answered ∷ vs) h =
    let one = flush-known s in
    let more = run-known (flush s) vs one.0 in
    (more.0, more.1 ∙ ap (λ l. l ++ gathered_in vs) one.1)
