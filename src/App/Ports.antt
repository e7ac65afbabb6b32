-- ===== src/App/Ports.antt =====
-- app/src/stream/RemoteCandidatePolicy.hpp: `PrioritizeRemoteCandidatePorts`.
use booster_nx.Common.{
  ℕ, ◌≤◌, ◌<◌, ◌≡◌, refl, Bool, false, ◌||◌, List, [], ◌∷◌, ◌++◌, All, ltb, ◌==◌, arith, Bool-cases,
  inl, inr, if◌then◌else◌,
}
use booster_nx.Common.Int.{ℤ, pos, negsuc}

unfoldable pub is_listed : ℕ → List ℕ → Bool
is_listed port [] = false
is_listed port (p ∷ ps) = (port == p) || is_listed port ps

-- A port outside 1 to 65535 is passed over.
abbrev pub add_unique : List ℕ → ℤ → List ℕ
add_unique ports (negsuc n) = ports
add_unique ports (pos port) =
    if (port == 0) || (ltb 65535 port || is_listed port ports) then ports else ports ++ (port ∷ [])

unfoldable pub add_all : List ℕ → List ℤ → List ℕ
add_all ports [] = ports
add_all ports (p ∷ ps) = add_all (add_unique ports p) ps

abbrev pub is_control_port : ℤ → Bool
is_control_port (negsuc n) = false
is_control_port (pos port) = port == 443

abbrev pub prioritize_ports : ℤ → List ℤ → List ℕ
prioritize_ports media_port fallback_ports =
    add_all (if is_control_port media_port then [] else add_unique [] media_port) fallback_ports

abbrev pub Distinct : List ℕ → Type 0
Distinct [] = Unit {0}
Distinct (p ∷ ps) = (is_listed p ps ≡ false) × Distinct ps

-- Ports that can be used, each once.
abbrev pub ArePorts : List ℕ → Type 0
ArePorts ps = Distinct ps × All (λ p. (0 < p) × (p ≤ 65535)) ps

is_listed-append :
    (p q : ℕ) (ps : List ℕ) → is_listed p (ps ++ (q ∷ [])) ≡ (is_listed p ps || (p == q))
unfolding is_listed
is_listed-append p q [] = ground arith
is_listed-append p q (x ∷ ps) = ground (arith, is_listed-append p q ps)

snoc-ArePorts :
    (ps : List ℕ) (q : ℕ)
    → ArePorts ps
    → is_listed q ps ≡ false
    → 0 < q
    → q ≤ 65535
    → ArePorts (ps ++ (q ∷ []))
unfolding is_listed
snoc-ArePorts [] q h new lo hi = ((refl, tt), ((lo, hi), tt))
snoc-ArePorts (p ∷ ps) q h new lo hi =
    let rest = snoc-ArePorts ps q (h.0.1, h.1.1) (ground (arith, new)) lo hi in
    ((ground (arith, is_listed-append p q ps, h.0.0, new), rest.0), (h.1.0, rest.1))

add_unique-ArePorts : (ps : List ℕ) (q : ℤ) → ArePorts ps → ArePorts (add_unique ps q)
add_unique-ArePorts ps (negsuc n) h = h
add_unique-ArePorts ps (pos q) h = elim (Bool-cases ((q == 0) || (ltb 65535 q || is_listed q ps))) [
  | inl e ↦ rw e h
  | inr e ↦ rw e (snoc-ArePorts ps q h (ground (arith, e)) (ground (arith, e)) (ground (arith, e)))
]

add_all-ArePorts : (qs : List ℤ) (ps : List ℕ) → ArePorts ps → ArePorts (add_all ps qs)
unfolding add_all
add_all-ArePorts [] ps h = h
add_all-ArePorts (q ∷ qs) ps h = add_all-ArePorts qs (add_unique ps q) (add_unique-ArePorts ps q h)

-- The ports are valid and distinct, whatever the session and the fallbacks name.
pub prioritize_ports-ArePorts :
    (media_port : ℤ) (fallback_ports : List ℤ)
    → ArePorts (prioritize_ports media_port fallback_ports)
prioritize_ports-ArePorts media_port fallback_ports =
    elim (Bool-cases (is_control_port media_port)) [
      | inl e ↦ rw e (add_all-ArePorts fallback_ports [] (tt, tt))
      | inr e ↦ rw e (
          add_all-ArePorts fallback_ports (add_unique [] media_port)
            (add_unique-ArePorts [] media_port (tt, tt)))
    ]
