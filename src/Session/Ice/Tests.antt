-- ===== src/Session/Ice/Tests.antt =====
-- Runs of the ICE functions, and their theorems at a session with three candidates.
use booster_nx.Common.{ℕ, ◌≡◌, refl, true, false, List, [], ◌∷◌, ◌++◌, All, map}
use booster_nx.Session.Ice.{
  Ice, contains, split_newlines, strip_cr, keep_lines, candidates_of, summarize,
  summarize_candidate_types, candidate_lines, derived_stun, before_query, is_member,
}
use booster_nx.Session.Ice.Local.{
  Event, gathered, answered, run, gathered_in, IsFlushed, known, run-known,
}
use booster_nx.Session.Ice.Remote.{Distinct, poll_all, poll_all-Distinct}

-- "v=0\r\na=candidate:1 typ host\r\n\na=candidate:2".
abbrev description : List ℕ
description =
    (118 ∷ 61 ∷ 48 ∷ 13 ∷ 10 ∷ 97 ∷ 61 ∷ 99 ∷ 97 ∷ 110 ∷ 100 ∷ 105 ∷ 100 ∷ 97 ∷ 116 ∷ 101 ∷ 58 ∷ 49
      ∷ 32 ∷ 116 ∷ 121 ∷ 112 ∷ 32 ∷ 104 ∷ 111 ∷ 115 ∷ 116 ∷ 13 ∷ 10 ∷ 10 ∷ 97 ∷ 61 ∷ 99 ∷ 97 ∷ 110
      ∷ 100 ∷ 105 ∷ 100 ∷ 97 ∷ 116 ∷ 101 ∷ 58 ∷ 50 ∷ [])

-- "candidate:1 typ host" and "candidate:2".
abbrev first_candidate : List ℕ
first_candidate =
    (99 ∷ 97 ∷ 110 ∷ 100 ∷ 105 ∷ 100 ∷ 97 ∷ 116 ∷ 101 ∷ 58 ∷ 49 ∷ 32 ∷ 116 ∷ 121 ∷ 112 ∷ 32 ∷ 104
      ∷ 111 ∷ 115 ∷ 116 ∷ [])

abbrev second_candidate : List ℕ
second_candidate = (99 ∷ 97 ∷ 110 ∷ 100 ∷ 105 ∷ 100 ∷ 97 ∷ 116 ∷ 101 ∷ 58 ∷ 50 ∷ [])

lines_found : candidate_lines description ≡ first_candidate ∷ second_candidate ∷ []
unfolding contains split_newlines strip_cr keep_lines candidates_of
lines_found = refl

counted :
    summarize_candidate_types description
    ≡ record { host = 1; srflx = 0; relay = 0; prflx = 0; other = 1 }
unfolding summarize contains split_newlines
counted = refl

-- "turn:h:1?t" gives "stun:h:1"; an empty host gives none.
derived :
    map
      (λ s. s.url)
      (derived_stun (
        record {
          url = (116 ∷ 117 ∷ 114 ∷ 110 ∷ 58 ∷ 104 ∷ 58 ∷ 49 ∷ 63 ∷ 116 ∷ []);
          username = [];
          credential = [];
        }
        ∷ record {
          url = (116 ∷ 117 ∷ 114 ∷ 110 ∷ 58 ∷ 63 ∷ 116 ∷ []);
          username = [];
          credential = [];
        }
        ∷ []))
    ≡ (115 ∷ 116 ∷ 117 ∷ 110 ∷ 58 ∷ 104 ∷ 58 ∷ 49 ∷ []) ∷ []
unfolding derived_stun before_query
derived = refl

abbrev new_ice : Ice
new_ice = record { can_send = false; pending = []; posted = []; added = [] }

abbrev history : List Event
history = gathered description ∷ answered ∷ gathered second_candidate ∷ []

run-known_example :
    IsFlushed (run new_ice history) × (known (run new_ice history) ≡ [] ++ gathered_in history)
run-known_example = run-known new_ice history (λ on. refl)

abbrev answers : List (List (List ℕ))
answers = (first_candidate ∷ []) ∷ (first_candidate ∷ second_candidate ∷ first_candidate ∷ []) ∷ []

poll_all-Distinct_example :
    Distinct (poll_all new_ice answers).added
    × All (λ cs. All (λ c. is_member c (poll_all new_ice answers).added ≡ true) cs) answers
poll_all-Distinct_example = poll_all-Distinct new_ice answers tt
