-- ===== src/App/Journal.antt =====
-- app/src/runtime_journal.cpp: `SingleLine` and `SanitizeRuntimeUrl` on lists of bytes.
use booster_nx.Common.{
  ℕ, zero, suc, ◌≤◌, ◌≢◌, Bool, false, ◌&&◌, ◌||◌, List, [], ◌∷◌, All, length, length-take, take,
  map, Option, none, some, ◌==◌, arith, Bool-cases, inl, inr, if◌then◌else◌,
}

-- Carriage return, newline and tab.
abbrev pub is_break : ℕ → Bool
is_break b = (b == 13) || ((b == 10) || (b == 9))

abbrev pub blank : ℕ → ℕ
blank b = if is_break b then 32 else b

unfoldable pub single_line : List ℕ → List ℕ
single_line text = take 700 (map blank text)

-- `url.substr(0, url.find_first_of("?#"))`.
unfoldable pub before_query : List ℕ → List ℕ
before_query [] = []
before_query (b ∷ bs) =
    let rest = before_query bs in if (b == 63) || (b == 35) then [] else b ∷ rest

-- What stands behind the first `@`, if that comes before the first `/`.
unfoldable pub after_userinfo : List ℕ → Option (List ℕ)
after_userinfo [] = none
after_userinfo (b ∷ bs) =
    let rest = after_userinfo bs in if b == 64 then some bs else (if b == 47 then none else rest)

abbrev pub drop_userinfo : List ℕ → Option (List ℕ) → List ℕ
drop_userinfo authority none = authority
drop_userinfo authority (some rest) = rest

abbrev pub is_scheme_end : List ℕ → Bool
is_scheme_end (a ∷ b ∷ c ∷ bs) = (a == 58) && ((b == 47) && (c == 47))
is_scheme_end bs = false

abbrev pub erase_userinfo : List ℕ → List ℕ
erase_userinfo (a ∷ b ∷ c ∷ bs) = a ∷ b ∷ c ∷ drop_userinfo bs (after_userinfo bs)
erase_userinfo bs = bs

-- From the first `://` on.
unfoldable pub sanitize_authority : List ℕ → List ℕ
sanitize_authority [] = []
sanitize_authority (b ∷ bs) =
    let rest = sanitize_authority bs in
    if is_scheme_end (b ∷ bs) then erase_userinfo (b ∷ bs) else b ∷ rest

abbrev pub sanitize_runtime_url : List ℕ → List ℕ
sanitize_runtime_url url = single_line (sanitize_authority (before_query url))

-- No query, fragment or line break.
abbrev pub IsSafe : ℕ → Type 0
IsSafe b = (b ≢ 63) × (b ≢ 35) × (b ≢ 13) × (b ≢ 10) × (b ≢ 9)

abbrev NoQuery : ℕ → Type 0
NoQuery b = (b ≢ 63) × (b ≢ 35)

before_query-NoQuery : (url : List ℕ) → All NoQuery (before_query url)
unfolding before_query
before_query-NoQuery [] = tt
before_query-NoQuery (b ∷ bs) = elim (Bool-cases ((b == 63) || (b == 35))) [
  | inl e ↦ rw e tt
  | inr e ↦
      rw e (((λ q. ground (arith, e, q)), (λ q. ground (arith, e, q))), before_query-NoQuery bs)
]

abbrev AllOf : Option (List ℕ) → Type 0
AllOf none = Unit {0}
AllOf (some rest) = All NoQuery rest

after_userinfo-AllOf : (bs : List ℕ) → All NoQuery bs → AllOf (after_userinfo bs)
unfolding after_userinfo
after_userinfo-AllOf [] h = tt
after_userinfo-AllOf (b ∷ bs) h = elim (Bool-cases (b == 64)) [
  | inl e ↦ rw e h.1
  | inr e ↦
      rw e (elim (Bool-cases (b == 47)) [
        | inl f ↦ rw f tt
        | inr f ↦ rw f (after_userinfo-AllOf bs h.1)
      ])
]

drop_userinfo-NoQuery :
    (authority : List ℕ) (found : Option (List ℕ))
    → All NoQuery authority
    → AllOf found
    → All NoQuery (drop_userinfo authority found)
drop_userinfo-NoQuery authority none h k = h
drop_userinfo-NoQuery authority (some rest) h k = k

erase_userinfo-NoQuery : (bs : List ℕ) → All NoQuery bs → All NoQuery (erase_userinfo bs)
erase_userinfo-NoQuery [] h = h
erase_userinfo-NoQuery (a ∷ []) h = h
erase_userinfo-NoQuery (a ∷ b ∷ []) h = h
erase_userinfo-NoQuery (a ∷ b ∷ c ∷ bs) h = (
  h.0,
  (
    h.1.0,
    (
      h.1.1.0,
      drop_userinfo-NoQuery bs (after_userinfo bs) h.1.1.1 (after_userinfo-AllOf bs h.1.1.1),
    ),
  ),
)

sanitize_authority-NoQuery : (bs : List ℕ) → All NoQuery bs → All NoQuery (sanitize_authority bs)
unfolding sanitize_authority
sanitize_authority-NoQuery [] h = tt
sanitize_authority-NoQuery (b ∷ bs) h = elim (Bool-cases (is_scheme_end (b ∷ bs))) [
  | inl e ↦ rw e (erase_userinfo-NoQuery (b ∷ bs) h)
  | inr e ↦ rw e (h.0, sanitize_authority-NoQuery bs h.1)
]

blank-IsSafe : (b : ℕ) → NoQuery b → IsSafe (blank b)
blank-IsSafe b h = elim (Bool-cases (is_break b)) [
  | inl e ↦ rw e (
    λ q. ground (arith, q),
    λ q. ground (arith, q),
    λ q. ground (arith, q),
    λ q. ground (arith, q),
    λ q. ground (arith, q),
  )
  | inr e ↦
      rw e
        (h.0, h.1, λ q. ground (arith, e, q), λ q. ground (arith, e, q), λ q. ground (arith, e, q))
]

take-IsSafe : (n : ℕ) (bs : List ℕ) → All NoQuery bs → All IsSafe (take n (map blank bs))
take-IsSafe zero bs h = tt
take-IsSafe (suc n) [] h = tt
take-IsSafe (suc n) (b ∷ bs) h = (blank-IsSafe b h.0, take-IsSafe n bs h.1)

-- Whatever the URL, what is logged of it has no query and no fragment mark, no line break and no tab,
-- and is no longer than 700 bytes.
pub sanitize_runtime_url-IsSafe :
    (url : List ℕ)
    → All IsSafe (sanitize_runtime_url url) × (length (sanitize_runtime_url url) ≤ 700)
unfolding single_line
sanitize_runtime_url-IsSafe url = (
  take-IsSafe 700 (sanitize_authority (before_query url))
      (sanitize_authority-NoQuery (before_query url) (before_query-NoQuery url)),
  omega (arith, length-take 700 (map blank (sanitize_authority (before_query url)))),
)
