-- ===== src/Session/Input/Tests.antt =====
-- Runs of the controllers, and their theorem at one that is connected.
use booster_nx.Common.{◌≡◌, refl, Bool, true, false, some, List, [], ◌∷◌, replicate, map}
use booster_nx.Common.Int.{ℤ, pos, negsuc, ◌-ℤ◌, ◌+ℤ◌}
use booster_nx.Session.Input.{
  button, axis, pad, connected_as, disconnected, ControllerState, Controllers, no_controller,
  resting_axes, update, update_buttons, update_axes, controller_connect, controller_disconnect,
  handle_ack,
}
use booster_nx.Session.Input.Mirror.{View, receive_all, IsMirror, Knows, update-Knows}

abbrev held : ControllerState
held = record no_controller { connected = true; server_id = pos 4; last_axes = resting_axes }

abbrev seen : View
seen = record { buttons = replicate 10 false; axes = resting_axes; hat = 0 }

abbrev pressed : List Bool
pressed = true ∷ replicate 9 false

-- The stick moves by more than the threshold, a trigger by less.
abbrev moved : List ℤ
moved = pos 1300 ∷ pos 0 ∷ negsuc 31999 ∷ pos 0 ∷ pos 0 ∷ negsuc 32766 ∷ []

sent_for_moves :
    (update held pressed moved 2).1
    ≡ button (pos 4) 0 true ∷ axis (pos 4) 0 (pos 1300) ∷ pad (pos 4) 2 ∷ []
unfolding update_buttons update_axes ◌-ℤ◌ ◌+ℤ◌
sent_for_moves = refl

abbrev none_connected : Controllers
none_connected = record { states = replicate 8 no_controller; sent = [] }

-- Index 8 is out of range, and a second connect of the same index sends nothing.
connects :
    (controller_connect
      (controller_connect (controller_connect none_connected (pos 1) (80 ∷ [])) (pos 8) (80 ∷ []))
      (pos 1)
      (81 ∷ [])).sent
    ≡ connected_as (80 ∷ 35 ∷ 49 ∷ []) ∷ []
unfolding controller_connect
connects = refl

disconnects :
    (controller_disconnect (controller_connect none_connected (pos 1) []) (pos 1)).sent
    ≡ connected_as (35 ∷ 49 ∷ []) ∷ disconnected (pos 1) ∷ []
unfolding controller_connect controller_disconnect
disconnects = refl

-- The acknowledgement goes to the controller of that name.
acks :
    map
      (λ c. c.server_id)
      (handle_ack
        (no_controller ∷ record held { pending_name = 35 ∷ [] } ∷ held ∷ [])
        []
        (some (pos 77)))
    ≡ negsuc 0 ∷ pos 4 ∷ pos 77 ∷ []
unfolding handle_ack
acks = refl

update-Knows_example :
    IsMirror (receive_all seen (update held pressed moved 2).1) (update held pressed moved 2).0
    × Knows (receive_all seen (update held pressed moved 2).1) pressed moved 2
update-Knows_example = update-Knows held seen pressed moved 2 refl (refl, refl, refl) refl refl
