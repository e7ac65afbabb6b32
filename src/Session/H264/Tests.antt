-- ===== src/Session/H264/Tests.antt =====
-- Runs of `ContainsH264Idr`, and its theorem at an access unit.
use booster_nx.Common.{ℕ, ◌≡◌, refl, ◌↔◌, ◌⊎◌, true, false, List, [], ◌∷◌}
use booster_nx.Session.H264.{HasIdr, EndsInHeader, contains_idr, idr_at, contains_idr_iff}

abbrev access_unit : List ℕ
access_unit = 0 ∷ 0 ∷ 0 ∷ 1 ∷ 103 ∷ 66 ∷ 0 ∷ 0 ∷ 1 ∷ 101 ∷ 136 ∷ []

idr_found : contains_idr access_unit ≡ true
unfolding contains_idr idr_at
idr_found = refl

-- A short start code whose header ends the unit is not seen.
idr_at_end : contains_idr (9 ∷ 9 ∷ 0 ∷ 0 ∷ 1 ∷ 101 ∷ []) ≡ false
unfolding contains_idr idr_at
idr_at_end = refl

contains_idr_iff_example :
    (contains_idr access_unit ≡ true) ↔ (HasIdr access_unit ⊎ EndsInHeader access_unit)
contains_idr_iff_example = contains_idr_iff access_unit
