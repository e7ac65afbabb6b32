-- ===== src/App/History.antt =====
-- app/src/play_history.cpp: `NewerTimestamp` and `ApplyPlayHistory`, and app/src/app_state.cpp:
-- `MarkGamePlayed`. Texts are lists of bytes; the maps are lists of entries with distinct keys.
use booster_nx.Common.{
  ℕ, ◌≡◌, refl, ap, ◌∙◌, Bool, true, false, not, ◌&&◌, ◌||◌, List, [], ◌∷◌, map, ltb, ◌==◌, arith,
  Bool-cases, inl, inr, if◌then◌else◌,
}

abbrev pub is_empty : List ℕ → Bool
is_empty [] = true
is_empty (b ∷ bs) = false

abbrev pub same_text : List ℕ → List ℕ → Bool
same_text [] [] = true
same_text [] (y ∷ ys) = false
same_text (x ∷ xs) [] = false
same_text (x ∷ xs) (y ∷ ys) = (x == y) && same_text xs ys

-- `operator<` of std::string.
unfoldable pub less_text : List ℕ → List ℕ → Bool
less_text xs [] = false
less_text [] (y ∷ ys) = true
less_text (x ∷ xs) (y ∷ ys) = ltb x y || ((x == y) && less_text xs ys)

-- `NewerTimestamp`; `std::max` returns its first argument unless that is less.
abbrev pub newer_timestamp : List ℕ → List ℕ → List ℕ
newer_timestamp [] second = second
newer_timestamp first [] = first
newer_timestamp first second = if less_text first second then second else first

pub record GameInfo : Type 0 where
  pub id : List ℕ
  pub title : List ℕ
  pub last_played : List ℕ

pub record PlayHistory : Type 0 where
  pub by_id : List (List ℕ × List ℕ)
  pub by_title : List (List ℕ × List ℕ)

-- The time stamp of a key, or the empty text.
unfoldable pub find_timestamp : List ℕ → List (List ℕ × List ℕ) → List ℕ
find_timestamp key [] = []
find_timestamp key (e ∷ es) =
    let rest = find_timestamp key es in if same_text e.0 key then e.1 else rest

abbrev pub local_timestamp : PlayHistory → GameInfo → List ℕ
local_timestamp h g =
    newer_timestamp (newer_timestamp [] (find_timestamp g.id h.by_id))
      (find_timestamp g.title h.by_title)

abbrev pub apply_history : PlayHistory → GameInfo → GameInfo
apply_history h g = record g { last_played = newer_timestamp g.last_played (local_timestamp h g) }

abbrev pub apply_play_history : List GameInfo → PlayHistory → List GameInfo
apply_play_history games h = map (λ g. apply_history h g) games

abbrev pub is_played : List ℕ → List ℕ → GameInfo → Bool
is_played id title g =
    (not (is_empty id) && same_text g.id id) || (not (is_empty title) && same_text g.title title)

abbrev pub mark_game_played : List GameInfo → List ℕ → List ℕ → List ℕ → List GameInfo
mark_game_played games id title timestamp =
    map (λ g. if is_played id title g then record g { last_played = timestamp } else g) games

less_text_irrefl : (xs : List ℕ) → less_text xs xs ≡ false
unfolding less_text
less_text_irrefl [] = refl
less_text_irrefl (x ∷ xs) = ground (arith, less_text_irrefl xs)

newer_timestamp_twice :
    (first second : List ℕ)
    → newer_timestamp (newer_timestamp first second) second ≡ newer_timestamp first second
newer_timestamp_twice [] [] = refl
newer_timestamp_twice [] (y ∷ ys) = rw (less_text_irrefl (y ∷ ys)) refl
newer_timestamp_twice (x ∷ xs) [] = refl
newer_timestamp_twice (x ∷ xs) (y ∷ ys) = elim (Bool-cases (less_text (x ∷ xs) (y ∷ ys))) [
  | inl e ↦ rw (e, less_text_irrefl (y ∷ ys)) refl
  | inr e ↦ rw (e, e) refl
]

less_text_asym : (xs ys : List ℕ) → less_text xs ys ≡ true → less_text ys xs ≡ false
unfolding less_text
less_text_asym xs [] h = absurd (ground (arith, h))
less_text_asym [] (y ∷ ys) h = refl
less_text_asym (x ∷ xs) (y ∷ ys) h = ground (arith, h, less_text_asym xs ys)

newer_timestamp_mono :
    (first second : List ℕ) → less_text (newer_timestamp first second) first ≡ false
unfolding less_text
newer_timestamp_mono [] second = refl
newer_timestamp_mono (x ∷ xs) [] = less_text_irrefl (x ∷ xs)
newer_timestamp_mono (x ∷ xs) (y ∷ ys) = elim (Bool-cases (less_text (x ∷ xs) (y ∷ ys))) [
  | inl e ↦ rw e (less_text_asym (x ∷ xs) (y ∷ ys) e)
  | inr e ↦ rw e (less_text_irrefl (x ∷ xs))
]

-- No game is played earlier than before.
abbrev pub NeverEarlier : List GameInfo → List GameInfo → Type 0
NeverEarlier [] [] = Unit {0}
NeverEarlier (g ∷ gs) (f ∷ fs) =
    (less_text f.last_played g.last_played ≡ false) × NeverEarlier gs fs
NeverEarlier gs fs = ⊥

-- Applying the play history makes no game's time stamp earlier, and applying it once more changes
-- nothing.
pub apply_play_history_stable :
    (games : List GameInfo) (h : PlayHistory)
    → NeverEarlier games (apply_play_history games h)
      × (apply_play_history (apply_play_history games h) h ≡ apply_play_history games h)
apply_play_history_stable [] h = (tt, refl)
apply_play_history_stable (g ∷ games) h =
    let rest = apply_play_history_stable games h in
    (
      (newer_timestamp_mono g.last_played (local_timestamp h g), rest.0),
      ap (λ t. record g { last_played = t } ∷ apply_play_history (apply_play_history games h) h)
            (newer_timestamp_twice g.last_played (local_timestamp h g))
          ∙ ap (λ fs. apply_history h g ∷ fs) rest.1,
    )
