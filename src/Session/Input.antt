-- ===== src/Session/Input.antt =====
-- app/src/webrtc/input.cpp and session.cpp: the controllers of a session and what is sent for them.
-- `sent` lists the calls of the control channel, newest last. Button states are lists of ten, axes
-- lists of six. The scaling of a float axis is not here: `controller_update` takes the scaled values.
pub mod Mirror
mod Tests
use booster_nx.Common.{
  ℕ, zero, suc, ◌+◌, ◌-◌, Bool, true, false, not, ◌&&◌, ◌||◌, Option, none, some, List, [], ◌∷◌,
  ◌++◌, length, replicate, get_elem?, set, ltb, leb, ◌==◌, if◌then◌else◌,
}
use booster_nx.Common.Int.{ℤ, pos, negsuc, ◌-ℤ◌, ltb_ℤ}

-- The messages of `BoosteroidControlChannel` for controllers. A server id is an int.
pub data Message : Type 0 where
  connected_as : List ℕ → Message
  disconnected : ℤ → Message
  button : ℤ → ℕ → Bool → Message
  axis : ℤ → ℕ → ℤ → Message
  pad : ℤ → ℕ → Message

pub record ControllerState : Type 0 where
  pub connected : Bool
  pub acked : Bool
  pub server_id : ℤ
  pub pending_name : List ℕ
  pub last_buttons : List Bool
  pub last_axes : List ℤ
  pub last_hat : ℕ

-- `ControllerState{}`.
abbrev pub no_controller : ControllerState
no_controller = record {
  connected = false;
  acked = false;
  server_id = negsuc 0;
  pending_name = [];
  last_buttons = replicate 10 false;
  last_axes = replicate 6 (pos 0);
  last_hat = 0;
}

-- Triggers rest at -32767.
abbrev pub resting_axes : List ℤ
resting_axes = pos 0 ∷ pos 0 ∷ negsuc 32766 ∷ pos 0 ∷ pos 0 ∷ negsuc 32766 ∷ []

abbrev pub axis_change_threshold : ℕ
axis_change_threshold = 1200

-- `std::abs(scaled - last) > kAxisChangeThreshold`.
abbrev pub has_moved : ℤ → ℤ → Bool
has_moved scaled last =
    ltb_ℤ (pos axis_change_threshold) (scaled -ℤ last) || ltb_ℤ (scaled -ℤ last) (negsuc 1199)

-- `vendor_name + "#" + std::to_string(local_index)`; the index is below eight.
abbrev pub token : List ℕ → ℕ → List ℕ
token vendor index = vendor ++ (35 ∷ (48 + index) ∷ [])

abbrev pub connect : ControllerState → ℕ → List ℕ → ControllerState × List Message
connect c index vendor = if c.connected then (c, []) else (
  record {
    connected = true;
    acked = false;
    server_id = pos index;
    pending_name = token vendor index;
    last_buttons = replicate 10 false;
    last_axes = resting_axes;
    last_hat = 0;
  },
  connected_as (token vendor index) ∷ [],
)

abbrev pub disconnect : ControllerState → ControllerState × List Message
disconnect c = if c.connected then (no_controller, disconnected c.server_id ∷ []) else (c, [])

abbrev pub same_state : Bool → Bool → Bool
same_state true b = b
same_state false b = not b

-- The loop over the buttons from index `i` on: the new `last_buttons`, and what is sent.
pub update_buttons : ℤ → ℕ → List Bool → List Bool → List Bool × List Message
update_buttons id i [] buttons = ([], [])
update_buttons id i (l ∷ ls) [] = (l ∷ ls, [])
update_buttons id i (l ∷ ls) (b ∷ bs) =
    let (rest, ms) = update_buttons id (i + 1) ls bs in
    (b ∷ rest, if same_state l b then ms else button id i b ∷ ms)

-- The loop over the axes.
pub update_axes : ℤ → ℕ → List ℤ → List ℤ → List ℤ × List Message
update_axes id i [] axes = ([], [])
update_axes id i (l ∷ ls) [] = (l ∷ ls, [])
update_axes id i (l ∷ ls) (a ∷ as_rest) =
    let (rest, ms) = update_axes id (i + 1) ls as_rest in
    if has_moved a l then (a ∷ rest, axis id i a ∷ ms) else (l ∷ rest, ms)

abbrev pub update : ControllerState → List Bool → List ℤ → ℕ → ControllerState × List Message
update c buttons axes hat =
    if c.connected
    then (let (bs, m₁) = update_buttons c.server_id 0 c.last_buttons buttons in
        let (xs, m₂) = update_axes c.server_id 0 c.last_axes axes in
        (
          record c { last_buttons = bs; last_axes = xs; last_hat = hat },
          m₁ ++ (m₂ ++ (if c.last_hat == hat then [] else pad c.server_id hat ∷ [])),
        ))
    else (c, [])

pub record Controllers : Type 0 where
  pub states : List ControllerState
  pub sent : List Message

-- `find_or_create_controller`: `none` is the null pointer.
abbrev pub find_controller : List ControllerState → ℤ → Option ℕ
find_controller cs (negsuc n) = none
find_controller cs (pos i) = if ltb i (length cs) then some i else none

abbrev pub apply_at :
    (ℕ → ControllerState → ControllerState × List Message) → Controllers → Option ℕ → Controllers
apply_at f s none = s
apply_at f s (some i) = elim (get_elem? s.states i) [
  | none ↦ s
  | some c ↦ record { states = set s.states i (f i c).0; sent = s.sent ++ (f i c).1 }
]

pub controller_connect : Controllers → ℤ → List ℕ → Controllers
controller_connect s index vendor =
    apply_at (λ i c. connect c i vendor) s (find_controller s.states index)

pub controller_disconnect : Controllers → ℤ → Controllers
controller_disconnect s index = apply_at (λ i c. disconnect c) s (find_controller s.states index)

pub controller_update : Controllers → ℤ → List Bool → List ℤ → ℕ → Controllers
controller_update s index buttons axes hat =
    apply_at (λ i c. update c buttons axes hat) s (find_controller s.states index)

abbrev pub same_name : List ℕ → List ℕ → Bool
same_name [] [] = true
same_name [] (y ∷ ys) = false
same_name (x ∷ xs) [] = false
same_name (x ∷ xs) (y ∷ ys) = (x == y) && same_name xs ys

-- What `std::strtol` makes of the id, when it reads all of it.
abbrev pub acknowledged : ControllerState → Option ℤ → ControllerState
acknowledged c none = record c { acked = true }
acknowledged c (some id) = record c { acked = true; server_id = id }

-- `ControllerAck` of `handle_control_event`: the first controller that waits for this name.
pub handle_ack : List ControllerState → List ℕ → Option ℤ → List ControllerState
handle_ack [] name id = []
handle_ack (c ∷ cs) name id =
    let rest = handle_ack cs name id in
    if c.connected && not c.acked && same_name c.pending_name name
    then acknowledged c id ∷ cs
    else c ∷ rest
