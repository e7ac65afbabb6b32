-- ===== src/Session/Ice/Remote.antt =====
-- app/src/webrtc/session.cpp: the remote candidates that the peer connection gets.
use booster_nx.Common.{
  ◌≡◌, refl, true, false, ◌||◌, List, [], ◌∷◌, ◌++◌, All, ℕ, Bool-cases, inl, inr, arith,
}
use booster_nx.Session.Ice.{add_candidate, Ice, same_text, is_member, add_remote}

abbrev pub Distinct : List (List ℕ) → Type 0
Distinct [] = Unit {0}
Distinct (x ∷ xs) = (is_member x xs ≡ false) × Distinct xs

same_text_comm : (x y : List ℕ) → same_text x y ≡ same_text y x
same_text_comm [] [] = refl
same_text_comm [] (y ∷ ys) = refl
same_text_comm (x ∷ xs) [] = refl
same_text_comm (x ∷ xs) (y ∷ ys) = ground (arith, same_text_comm xs ys)

same_text_refl : (x : List ℕ) → same_text x x ≡ true
same_text_refl [] = refl
same_text_refl (x ∷ xs) = ground (arith, same_text_refl xs)

is_member-append :
    (c d : List ℕ) (xs : List (List ℕ))
    → is_member c (xs ++ (d ∷ [])) ≡ (is_member c xs || same_text c d)
unfolding is_member
is_member-append c d [] = ground arith
is_member-append c d (x ∷ xs) = ground (arith, is_member-append c d xs)

Distinct-snoc :
    (xs : List (List ℕ)) (c : List ℕ)
    → Distinct xs
    → is_member c xs ≡ false
    → Distinct (xs ++ (c ∷ []))
unfolding is_member
Distinct-snoc [] c h new = (refl, tt)
Distinct-snoc (x ∷ xs) c h new = (
  ground (arith, is_member-append x c xs, same_text_comm x c, h.0, new),
  Distinct-snoc xs c h.1 (ground (arith, new)),
)

add_candidate-Distinct :
    (s : Ice) (c : List ℕ) → Distinct s.added → Distinct (add_candidate true s c).added
add_candidate-Distinct s c h = elim (Bool-cases (is_member c s.added)) [
  | inl e ↦ rw e h
  | inr e ↦ rw e (Distinct-snoc s.added c h e)
]

add_candidate-keeps :
    (s : Ice) (c d : List ℕ)
    → is_member d s.added ≡ true
    → is_member d (add_candidate true s c).added ≡ true
add_candidate-keeps s c d h = elim (Bool-cases (is_member c s.added)) [
  | inl e ↦ rw e h
  | inr e ↦ rw e (ground (arith, is_member-append d c s.added, h))
]

add_candidate-adds : (s : Ice) (c : List ℕ) → is_member c (add_candidate true s c).added ≡ true
add_candidate-adds s c = elim (Bool-cases (is_member c s.added)) [
  | inl e ↦ rw e e
  | inr e ↦ rw e (ground (arith, is_member-append c c s.added, same_text_refl c))
]

add_remote-Distinct :
    (cs : List (List ℕ)) (s : Ice) → Distinct s.added → Distinct (add_remote true s cs).added
unfolding add_remote
add_remote-Distinct [] s h = h
add_remote-Distinct (c ∷ cs) s h =
    add_remote-Distinct cs (add_candidate true s c) (add_candidate-Distinct s c h)

add_remote-keeps :
    (cs : List (List ℕ)) (s : Ice) (d : List ℕ)
    → is_member d s.added ≡ true
    → is_member d (add_remote true s cs).added ≡ true
unfolding add_remote
add_remote-keeps [] s d h = h
add_remote-keeps (c ∷ cs) s d h =
    add_remote-keeps cs (add_candidate true s c) d (add_candidate-keeps s c d h)

add_remote-adds :
    (cs : List (List ℕ)) (s : Ice) → All (λ c. is_member c (add_remote true s cs).added ≡ true) cs
unfolding add_remote
add_remote-adds [] s = tt
add_remote-adds (c ∷ cs) s = (
  add_remote-keeps cs (add_candidate true s c) c (add_candidate-adds s c),
  add_remote-adds cs (add_candidate true s c),
)

-- The answers of the polls one after the other.
unfoldable pub poll_all : Ice → List (List (List ℕ)) → Ice
poll_all s [] = s
poll_all s (cs ∷ rest) = poll_all (add_remote true s cs) rest

poll_all-keeps :
    (polls : List (List (List ℕ))) (s : Ice) (d : List ℕ)
    → is_member d s.added ≡ true
    → is_member d (poll_all s polls).added ≡ true
unfolding poll_all
poll_all-keeps [] s d h = h
poll_all-keeps (cs ∷ rest) s d h =
    poll_all-keeps rest (add_remote true s cs) d (add_remote-keeps cs s d h)

All-keeps :
    (cs : List (List ℕ)) (polls : List (List (List ℕ))) (s : Ice)
    → All (λ c. is_member c s.added ≡ true) cs
    → All (λ c. is_member c (poll_all s polls).added ≡ true) cs
All-keeps [] polls s h = tt
All-keeps (c ∷ cs) polls s h = (poll_all-keeps polls s c h.0, All-keeps cs polls s h.1)

-- With a peer connection, whatever the polls return and however often they repeat it, every candidate
-- they return is passed to the peer connection, and none is passed twice.
pub poll_all-Distinct :
    (s : Ice) (polls : List (List (List ℕ)))
    → Distinct s.added
    → Distinct (poll_all s polls).added
      × All (λ cs. All (λ c. is_member c (poll_all s polls).added ≡ true) cs) polls
unfolding poll_all
poll_all-Distinct s [] h = (h, tt)
poll_all-Distinct s (cs ∷ rest) h =
    let r = poll_all-Distinct (add_remote true s cs) rest (add_remote-Distinct cs s h) in
    (r.0, (All-keeps cs rest (add_remote true s cs) (add_remote-adds cs s), r.1))
