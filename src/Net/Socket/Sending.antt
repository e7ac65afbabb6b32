-- ===== src/Net/Socket/Sending.antt =====
-- app/src/WebSocketClient.cpp, `send_all` and `send_frame`: what reaches the wire.
use mathlib.Core.List.{append_assoc, append-nil}
use mathlib.Core.Path.{subst}
use mathlib.Core.Bool.{true≢false}
use booster_nx.Common.{
  ℕ, zero, suc, ◌-◌, ◌<◌, ◌≡◌, refl, ap, sym, ◌∙◌, Bool, true, false, List, [], ◌∷◌, ◌++◌, length,
  take, drop, take-append-drop, leb, not, arith, some, Bool-cases, inl, inr, if◌then◌else◌,
}
use booster_nx.Net.Socket.{
  fail, send_timeout, Client, SendOutcome, send_again, send_failed, accepted, send_loop, send_all,
  send_frame, send_message, build_frame, random_key,
}
use booster_nx.Net.Socket.Wire.{Key, key_bytes, wire_frame}
use booster_nx.Net.Socket.Masking.{build_frame-eq-wire_frame}

-- What sending comes to: the bytes are on the wire and the connection is as it was, or the
-- connection is down and some of the bytes are missing.
abbrev pub Sends : Client → List ℕ → Client × Bool → Type 0
Sends c bytes (d, true) =
    (d.wire ≡ c.wire ++ bytes) × (d.connected ≡ c.connected) × (d.rx_buffer ≡ c.rx_buffer)
Sends c bytes (d, false) =
    (d.connected ≡ false) × (b : ℕ) × (unsent : List ℕ) × (d.wire ++ (b ∷ unsent) ≡ c.wire ++ bytes)

Sends-step :
    (c : Client) (b : ℕ) (sent unsent : List ℕ) (r : Client × Bool)
    → Sends (record c { wire = c.wire ++ (b ∷ sent) }) unsent r
    → Sends c (b ∷ (sent ++ unsent)) r
Sends-step c b sent unsent (d, true) h = (h.0 ∙ append_assoc c.wire (b ∷ sent) unsent, h.1, h.2)
Sends-step c b sent unsent (d, false) h =
    (h.0, h.1, h.2, h.3 ∙ append_assoc c.wire (b ∷ sent) unsent)

Sends-either :
    (c : Client) (bytes : List ℕ) (b : Bool) (x y : Client × Bool)
    → Sends c bytes x
    → Sends c bytes y
    → Sends c bytes (elim b [ true ↦ x | false ↦ y ])
Sends-either c bytes true x y hx hy = hx
Sends-either c bytes false x y hx hy = hy

send_loop-Sends :
    (os : List SendOutcome) (bytes : List ℕ) (budget : ℕ) (c : Client)
    → Sends c bytes (send_loop os bytes budget c)
unfolding send_loop
send_loop-Sends os [] budget c = (sym (append-nil c.wire), refl, refl)
send_loop-Sends [] (b ∷ bs) budget c = (refl, b, bs, refl)
send_loop-Sends (send_again ∷ os) (b ∷ bs) budget c =
    Sends-either c (b ∷ bs) (leb (budget - 1) 0)
      (fail (record c { outgoing = os }) send_timeout, false) (send_loop os (b ∷ bs) (budget - 1) c)
      (refl, b, bs, refl) (send_loop-Sends os (b ∷ bs) (budget - 1) c)
send_loop-Sends (send_failed e ∷ os) (b ∷ bs) budget c = (refl, b, bs, refl)
send_loop-Sends (accepted zero ∷ os) (b ∷ bs) budget c = (refl, b, bs, refl)
send_loop-Sends (accepted (suc n) ∷ os) (b ∷ bs) budget c = rw (take-append-drop n bs) at (
    Sends-step c b (take n bs) (drop n bs)
      (send_loop os (drop n bs) 100 (record c { wire = c.wire ++ (b ∷ take n bs) }))
      (send_loop-Sends os (drop n bs) 100 (record c { wire = c.wire ++ (b ∷ take n bs) })))

Sends-entropy :
    (c : Client) (es : List ℕ) (bytes : List ℕ) (r : Client × Bool)
    → Sends (record c { entropy = es }) bytes r
    → Sends c bytes r
Sends-entropy c es bytes (d, true) h = h
Sends-entropy c es bytes (d, false) h = h

-- However libcurl cuts up, delays or refuses the bytes, `send_all` returns true with all of them on
-- the wire in order and the connection as it was, or false with the connection down and a rest of at
-- least one byte unsent behind those that are on the wire.
pub send_all-Sends : (c : Client) (bytes : List ℕ) → Sends c bytes (send_all c bytes)
unfolding send_all
send_all-Sends c bytes = send_loop-Sends c.outgoing bytes 100 c

Sends-connected :
    (c : Client) (bytes : List ℕ) (r : Client × Bool)
    → Sends c bytes r
    → r.0.connected ≡ true
    → r.0.wire ≡ c.wire ++ bytes
Sends-connected c bytes (d, true) h on = h.0
Sends-connected c bytes (d, false) h on = absurd (true≢false (sym on ∙ h.0))

send_frame-Sends :
    (c : Client) (opcode : ℕ) (payload : List ℕ)
    → c.connected ≡ true
    → Sends c (build_frame opcode (random_key c) payload) (send_frame c opcode payload)
unfolding send_frame
send_frame-Sends c opcode payload on =
    subst
      (λ b. Sends c (build_frame opcode (random_key c) payload) (
        if not b
        then (c, false)
        else send_all (record c { entropy = drop 4 c.entropy })
            (build_frame opcode (random_key c) payload)))
      (sym on)
      (Sends-entropy c (drop 4 c.entropy) (build_frame opcode (random_key c) payload)
        (send_all (record c { entropy = drop 4 c.entropy })
          (build_frame opcode (random_key c) payload))
        (send_all-Sends (record c { entropy = drop 4 c.entropy })
          (build_frame opcode (random_key c) payload)))

send_frame-off :
    (c : Client) (opcode : ℕ) (payload : List ℕ)
    → c.connected ≡ false
    → send_frame c opcode payload ≡ (c, false)
unfolding send_frame
send_frame-off c opcode payload off =
    ap
      (λ b.
        if not b
        then (c, false)
        else send_all (record c { entropy = drop 4 c.entropy })
            (build_frame opcode (random_key c) payload))
      off

-- When `send_message` leaves the client connected, the wire has got exactly the final, masked text
-- frame of RFC 6455 for the message, under the four random bytes that were next.
pub send_message-wire :
    (c : Client) (k : Key) (msg : List ℕ)
    → random_key c ≡ key_bytes k
    → length msg < 18446744073709551616
    → (send_message c msg).connected ≡ true
    → (send_message c msg).wire ≡ c.wire ++ wire_frame 129 (some k) msg
unfolding send_message
send_message-wire c k msg key short on = elim (Bool-cases c.connected) [
  | inl e ↦
      Sends-connected c (build_frame 129 (random_key c) msg) (send_frame c 129 msg)
        (send_frame-Sends c 129 msg e) on
      ∙ ap (λ l. c.wire ++ build_frame 129 l msg) key
      ∙ ap (λ l. c.wire ++ l)
          (build_frame-eq-wire_frame 129 k msg (omega arith) (omega arith) short)
  | inr e ↦ absurd (true≢false (sym on ∙ ap (λ r. r.0.connected) (send_frame-off c 129 msg e) ∙ e))
]
