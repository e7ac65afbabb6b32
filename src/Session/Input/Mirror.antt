-- ===== src/Session/Input/Mirror.antt =====
-- app/src/webrtc/input.cpp: what the server makes of the messages for one controller.
use mathlib.Core.List.{append_assoc}
use booster_nx.Common.{
  ℕ, zero, suc, ◌+◌, ◌≡◌, refl, ap, sym, ◌∙◌, Bool, true, false, ◌||◌, List, [], ◌∷◌, ◌++◌, length,
  length-append, set, ◌==◌, arith, Bool-cases, inl, inr, if◌then◌else◌,
}
use booster_nx.Common.Int.{ℤ, pos, negsuc, ◌-ℤ◌, ltb_ℤ, int_laws}
use booster_nx.Session.Input.{
  Message, connected_as, disconnected, button, axis, pad, ControllerState, has_moved,
  update_buttons, update_axes, update,
}

-- The state of a controller as the server sees it.
pub record View : Type 0 where
  pub buttons : List Bool
  pub axes : List ℤ
  pub hat : ℕ

abbrev pub receive : View → Message → View
receive v (connected_as name) = v
receive v (disconnected id) = v
receive v (button id i b) = record v { buttons = set v.buttons i b }
receive v (axis id i a) = record v { axes = set v.axes i a }
receive v (pad id h) = record v { hat = h }

abbrev pub receive_all : View → List Message → View
receive_all v [] = v
receive_all v (m ∷ ms) = receive_all (receive v m) ms

receive_all-append :
    (v : View) (ms ns : List Message) → receive_all v (ms ++ ns) ≡ receive_all (receive_all v ms) ns
receive_all-append v [] ns = refl
receive_all-append v (m ∷ ms) ns = receive_all-append (receive v m) ms ns

set-append {ℓ} :
    {A : Type ℓ} (i : ℕ) (pre : List A) (x y : A) (xs : List A)
    → i ≡ length pre
    → set (pre ++ (x ∷ xs)) i y ≡ pre ++ (y ∷ xs)
set-append zero [] x y xs e = refl
set-append zero (p ∷ pre) x y xs e = absurd (omega (arith, e))
set-append (suc i) [] x y xs e = absurd (omega (arith, e))
set-append (suc i) (p ∷ pre) x y xs e = ap (λ l. p ∷ l) (set-append i pre x y xs (omega (arith, e)))

-- A view whose buttons from the index on are the last ones is brought up to date.
receive-update_buttons :
    (id : ℤ) (bs ls pre : List Bool) (i : ℕ) (v : View)
    → i ≡ length pre
    → v.buttons ≡ pre ++ ls
    → receive_all v (update_buttons id i ls bs).1
      ≡ record v { buttons = pre ++ (update_buttons id i ls bs).0 }
unfolding update_buttons
receive-update_buttons id bs [] pre i v n e = ap (λ l. record v { buttons = l }) e
receive-update_buttons id [] (l ∷ ls) pre i v n e = ap (λ l. record v { buttons = l }) e
receive-update_buttons id (true ∷ bs) (true ∷ ls) pre i v n e =
    receive-update_buttons id bs ls (pre ++ (true ∷ [])) (i + 1) v
      (omega (arith, n, length-append pre (true ∷ []))) (e ∙ sym (append_assoc pre (true ∷ []) ls))
    ∙ ap (λ k. record v { buttons = k })
        (append_assoc pre (true ∷ []) (update_buttons id (i + 1) ls bs).0)
receive-update_buttons id (false ∷ bs) (true ∷ ls) pre i v n e =
    receive-update_buttons id bs ls (pre ++ (false ∷ [])) (i + 1)
      (record v { buttons = set v.buttons i false })
      (omega (arith, n, length-append pre (false ∷ [])))
      (ap (λ k. set k i false) e
        ∙ set-append i pre true false ls n
        ∙ sym (append_assoc pre (false ∷ []) ls))
    ∙ ap (λ k. record v { buttons = k })
        (append_assoc pre (false ∷ []) (update_buttons id (i + 1) ls bs).0)
receive-update_buttons id (true ∷ bs) (false ∷ ls) pre i v n e =
    receive-update_buttons id bs ls (pre ++ (true ∷ [])) (i + 1)
      (record v { buttons = set v.buttons i true })
      (omega (arith, n, length-append pre (true ∷ [])))
      (ap (λ k. set k i true) e
        ∙ set-append i pre false true ls n
        ∙ sym (append_assoc pre (true ∷ []) ls))
    ∙ ap (λ k. record v { buttons = k })
        (append_assoc pre (true ∷ []) (update_buttons id (i + 1) ls bs).0)
receive-update_buttons id (false ∷ bs) (false ∷ ls) pre i v n e =
    receive-update_buttons id bs ls (pre ++ (false ∷ [])) (i + 1) v
      (omega (arith, n, length-append pre (false ∷ [])))
      (e ∙ sym (append_assoc pre (false ∷ []) ls))
    ∙ ap (λ k. record v { buttons = k })
        (append_assoc pre (false ∷ []) (update_buttons id (i + 1) ls bs).0)

-- The same for the axes.
receive-update_axes :
    (id : ℤ) (news ls pre : List ℤ) (i : ℕ) (v : View)
    → i ≡ length pre
    → v.axes ≡ pre ++ ls
    → receive_all v (update_axes id i ls news).1
      ≡ record v { axes = pre ++ (update_axes id i ls news).0 }
unfolding update_axes
receive-update_axes id news [] pre i v n e = ap (λ l. record v { axes = l }) e
receive-update_axes id [] (l ∷ ls) pre i v n e = ap (λ l. record v { axes = l }) e
receive-update_axes id (a ∷ news) (l ∷ ls) pre i v n e = elim (Bool-cases (has_moved a l)) [
  | inl moved ↦ rw moved (
      receive-update_axes id news ls (pre ++ (a ∷ [])) (i + 1) (record v { axes = set v.axes i a })
        (omega (arith, n, length-append pre (a ∷ [])))
        (ap (λ k. set k i a) e ∙ set-append i pre l a ls n ∙ sym (append_assoc pre (a ∷ []) ls))
      ∙ ap (λ k. record v { axes = k })
          (append_assoc pre (a ∷ []) (update_axes id (i + 1) ls news).0))
  | inr still ↦ rw still (
      receive-update_axes id news ls (pre ++ (l ∷ [])) (i + 1) v
        (omega (arith, n, length-append pre (l ∷ []))) (e ∙ sym (append_assoc pre (l ∷ []) ls))
      ∙ ap (λ k. record v { axes = k })
          (append_assoc pre (l ∷ []) (update_axes id (i + 1) ls news).0))
]

-- All buttons are taken over, and no axis stays further than the threshold from its new value.
abbrev pub AreNear : List ℤ → List ℤ → Type 0
AreNear [] [] = Unit {0}
AreNear (x ∷ xs) (a ∷ rest) = (has_moved a x ≡ false) × AreNear xs rest
AreNear xs rest = ⊥

buttons-update_buttons :
    (id : ℤ) (i : ℕ) (ls bs : List Bool)
    → length ls ≡ length bs
    → (update_buttons id i ls bs).0 ≡ bs
unfolding update_buttons
buttons-update_buttons id i [] [] e = refl
buttons-update_buttons id i [] (b ∷ bs) e = absurd (omega (arith, e))
buttons-update_buttons id i (l ∷ ls) [] e = absurd (omega (arith, e))
buttons-update_buttons id i (l ∷ ls) (b ∷ bs) e =
    ap (λ k. b ∷ k) (buttons-update_buttons id (i + 1) ls bs (omega (arith, e)))

has_moved_same : (a : ℤ) → has_moved a a ≡ false
has_moved_same a = ap (λ d. ltb_ℤ (pos 1200) d || ltb_ℤ d (negsuc 1199)) (no_change a)
  where
    no_change : (b : ℤ) → b -ℤ b ≡ pos 0
    no_change b = omega int_laws

update_axes-AreNear :
    (id : ℤ) (i : ℕ) (ls news : List ℤ)
    → length ls ≡ length news
    → AreNear (update_axes id i ls news).0 news
unfolding update_axes
update_axes-AreNear id i [] [] e = tt
update_axes-AreNear id i [] (a ∷ news) e = absurd (omega (arith, e))
update_axes-AreNear id i (l ∷ ls) [] e = absurd (omega (arith, e))
update_axes-AreNear id i (l ∷ ls) (a ∷ news) e = elim (Bool-cases (has_moved a l)) [
  | inl moved ↦
      rw moved (has_moved_same a, update_axes-AreNear id (i + 1) ls news (omega (arith, e)))
  | inr still ↦ rw still (still, update_axes-AreNear id (i + 1) ls news (omega (arith, e)))
]

-- The server's view is what the session has noted down.
abbrev pub IsMirror : View → ControllerState → Type 0
IsMirror v c = (v.buttons ≡ c.last_buttons) × (v.axes ≡ c.last_axes) × (v.hat ≡ c.last_hat)

-- The server knows these buttons and this hat, and these axes within the threshold.
abbrev pub Knows : View → List Bool → List ℤ → ℕ → Type 0
Knows v buttons axes hat = (v.buttons ≡ buttons) × AreNear v.axes axes × (v.hat ≡ hat)

receive-pad :
    (id : ℤ) (v : View) (last hat : ℕ)
    → v.hat ≡ last
    → receive_all v (if last == hat then [] else pad id hat ∷ []) ≡ record v { hat = hat }
receive-pad id v last hat e = elim (Bool-cases (last == hat)) [
  | inl same ↦ rw same (ap (λ h. record v { hat = h }) (ground (arith, e, same)))
  | inr differ ↦ rw differ refl
]

receive-update :
    (c : ControllerState) (v : View) (buttons : List Bool) (axes : List ℤ) (hat : ℕ)
    → c.connected ≡ true
    → IsMirror v c
    → receive_all v (update c buttons axes hat).1 ≡ record {
      buttons = (update_buttons c.server_id 0 c.last_buttons buttons).0;
      axes = (update_axes c.server_id 0 c.last_axes axes).0;
      hat = hat;
    }
receive-update c v buttons axes hat on h =
    ap
      (λ b.
        receive_all v
          (if◌then◌else◌ {A = ControllerState × List Message} b
            (record c { last_buttons = bs; last_axes = xs; last_hat = hat }, m₁ ++ (m₂ ++ m₃))
            (c, [])).1)
      on
    ∙ receive_all-append v m₁ (m₂ ++ m₃)
    ∙ receive_all-append (receive_all v m₁) m₂ m₃
    ∙ ap (λ w. receive_all (receive_all w m₂) m₃)
        (receive-update_buttons c.server_id buttons c.last_buttons [] 0 v refl h.0)
    ∙ ap (λ w. receive_all w m₃)
        (receive-update_axes c.server_id axes c.last_axes [] 0 (record v { buttons = bs }) refl h.1)
    ∙ receive-pad c.server_id (record v { buttons = bs; axes = xs }) c.last_hat hat h.2
  where
    bs : List Bool
    bs = (update_buttons c.server_id 0 c.last_buttons buttons).0

    xs : List ℤ
    xs = (update_axes c.server_id 0 c.last_axes axes).0

    m₁ : List Message
    m₁ = (update_buttons c.server_id 0 c.last_buttons buttons).1

    m₂ : List Message
    m₂ = (update_axes c.server_id 0 c.last_axes axes).1

    m₃ : List Message
    m₃ = if c.last_hat == hat then [] else pad c.server_id hat ∷ []

-- When the server's view of a connected controller is what the session has noted down, then after an
-- update it is so again, and the server knows every button and the hat exactly and every axis within
-- the threshold, although only changes are sent.
pub update-Knows :
    (c : ControllerState) (v : View) (buttons : List Bool) (axes : List ℤ) (hat : ℕ)
    → c.connected ≡ true
    → IsMirror v c
    → length c.last_buttons ≡ length buttons
    → length c.last_axes ≡ length axes
    → let w = receive_all v (update c buttons axes hat).1 in
      IsMirror w (update c buttons axes hat).0 × Knows w buttons axes hat
update-Knows c v buttons axes hat on h lb la =
    rw (receive-update c v buttons axes hat on h, on)
      (
        (refl, refl, refl),
        (
          buttons-update_buttons c.server_id 0 c.last_buttons buttons lb,
          update_axes-AreNear c.server_id 0 c.last_axes axes la,
          refl,
        ),
      )
