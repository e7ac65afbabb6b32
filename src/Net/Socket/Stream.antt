-- ===== src/Net/Socket/Stream.antt =====
-- app/src/WebSocketClient.cpp: the second loop of `poll` before and after more bytes come.
use booster_nx.Common.{
  ℕ, zero, suc, ◌+◌, ◌≤◌, ◌<◌, ◌≡◌, refl, ap, ◌∙◌, Bool, true, false, List, [], ◌∷◌, ◌++◌, length,
  length-append, take, drop, ◌-◌, not, ◌==◌, arith, Bool-cases, inl, inr,
}
use booster_nx.Net.Socket.{
  take_round, frame_too_large, Client, Parse, frame, need_more, too_large, out_of_bounds, size_mod,
  parse_frame, handle_frame, handle_close, send_frame, send_all, send_loop, drain, fail,
  SendOutcome, send_again, send_failed, accepted, RecvOutcome, build_frame, random_key, close_code,
  signaling_closed,
}
use booster_nx.Net.Socket.Stable.{Stable, parse_frame-Stable}

-- The client with more bytes in its buffer, and `rs` still to come.
abbrev pub append_rx : Client → List ℕ → List RecvOutcome → Client
append_rx c ys rs = record c { rx_buffer = c.rx_buffer ++ ys; incoming = rs }

abbrev Blind : (Client → Client × Bool) → Client → List ℕ → List RecvOutcome → Type 0
Blind f c ys rs = (f (append_rx c ys rs)) ≡ (append_rx (f c).0 ys rs, (f c).1)

-- Sending neither reads nor changes the receive buffer.
send_loop-append_rx :
    (os : List SendOutcome) (bytes : List ℕ) (budget : ℕ) (c : Client) (ys : List ℕ)
    (rs : List RecvOutcome)
    → Blind (send_loop os bytes budget) c ys rs
unfolding send_loop
send_loop-append_rx os [] budget c ys rs = refl
send_loop-append_rx [] (b ∷ bs) budget c ys rs = refl
send_loop-append_rx (send_again ∷ os) (b ∷ bs) budget c ys rs =
    ground (arith, send_loop-append_rx os (b ∷ bs) (budget - 1) c ys rs)
send_loop-append_rx (send_failed e ∷ os) (b ∷ bs) budget c ys rs = refl
send_loop-append_rx (accepted zero ∷ os) (b ∷ bs) budget c ys rs = refl
send_loop-append_rx (accepted (suc n) ∷ os) (b ∷ bs) budget c ys rs =
    send_loop-append_rx os (drop n bs) 100 (record c { wire = c.wire ++ (b ∷ take n bs) }) ys rs

send_frame-append_rx :
    (opcode : ℕ) (payload : List ℕ) (c : Client) (ys : List ℕ) (rs : List RecvOutcome)
    → Blind (λ d. send_frame d opcode payload) c ys rs
unfolding send_frame send_all
send_frame-append_rx opcode payload c ys rs = elim (Bool-cases (not c.connected)) [
  | inl e ↦ rw e refl
  | inr e ↦ rw e (
      send_loop-append_rx c.outgoing (build_frame opcode (random_key c) payload) 100
        (record c { entropy = drop 4 c.entropy }) ys rs)
]

handle_close-append_rx :
    (c : Client) (payload ys : List ℕ) (rs : List RecvOutcome)
    → handle_close (append_rx c ys rs) payload ≡ append_rx (handle_close c payload) ys rs
unfolding handle_close
handle_close-append_rx c payload ys rs =
    ap (λ r. record r.0 { connected = false })
      (send_frame-append_rx 136 payload
        (record c { last_error = signaling_closed (close_code payload) (drop 2 payload) }) ys rs)

handle_frame-append_rx :
    (c : Client) (opcode : ℕ) (payload ys : List ℕ) (rs : List RecvOutcome)
    → handle_frame (append_rx c ys rs) opcode payload
      ≡ append_rx (handle_frame c opcode payload) ys rs
unfolding handle_frame
handle_frame-append_rx c opcode payload ys rs = elim (Bool-cases (opcode == 1)) [
  | inl e ↦ rw e refl
  | inr e ↦ rw e (elim (Bool-cases (opcode == 8)) [
    | inl f ↦ rw f (handle_close-append_rx c payload ys rs)
    | inr f ↦ rw f (elim (Bool-cases (opcode == 9)) [
      | inl g ↦ rw g (ap (λ r. r.0) (send_frame-append_rx 138 payload c ys rs))
      | inr g ↦ rw g refl
    ])
  ])
]

rx-send_loop :
    (os : List SendOutcome) (bytes : List ℕ) (budget : ℕ) (c : Client)
    → (send_loop os bytes budget c).0.rx_buffer ≡ c.rx_buffer
unfolding send_loop
rx-send_loop os [] budget c = refl
rx-send_loop [] (b ∷ bs) budget c = refl
rx-send_loop (send_again ∷ os) (b ∷ bs) budget c =
    ground (arith, rx-send_loop os (b ∷ bs) (budget - 1) c)
rx-send_loop (send_failed e ∷ os) (b ∷ bs) budget c = refl
rx-send_loop (accepted zero ∷ os) (b ∷ bs) budget c = refl
rx-send_loop (accepted (suc n) ∷ os) (b ∷ bs) budget c =
    rx-send_loop os (drop n bs) 100 (record c { wire = c.wire ++ (b ∷ take n bs) })

rx-send_frame :
    (c : Client) (opcode : ℕ) (payload : List ℕ)
    → (send_frame c opcode payload).0.rx_buffer ≡ c.rx_buffer
unfolding send_frame send_all
rx-send_frame c opcode payload = ground (
  arith,
  rx-send_loop c.outgoing (build_frame opcode (random_key c) payload) 100
      (record c { entropy = drop 4 c.entropy }),
)

rx-handle_frame :
    (c : Client) (opcode : ℕ) (payload : List ℕ)
    → (handle_frame c opcode payload).rx_buffer ≡ c.rx_buffer
unfolding handle_frame handle_close
rx-handle_frame c opcode payload = ground (
  arith,
  rx-send_frame c 138 payload,
  rx-send_frame (record c { last_error = signaling_closed (close_code payload) (drop 2 payload) })
      136 payload,
)

-- A buffer of less than two bytes holds no frame.
parse_frame-short : (bytes : List ℕ) → length bytes < 2 → parse_frame bytes ≡ need_more
unfolding parse_frame
parse_frame-short bytes h = ground arith

-- What the rest of the buffer is given to matters only on shorter buffers.
take_round-cong :
    (f g : Client → Client) (c : Client) (ys : List ℕ) (p q : Parse)
    → Stable c.rx_buffer ys p q
    → ((d : Client) → length d.rx_buffer + 2 ≤ length c.rx_buffer → f d ≡ g d)
    → take_round f c p ≡ take_round g c p
take_round-cong f g c ys need_more q st same = refl
take_round-cong f g c ys too_large q st same = refl
take_round-cong f g c ys out_of_bounds q st same = refl
take_round-cong f g c ys (frame op payload rest) q st same =
    same (handle_frame (record c { rx_buffer = rest }) op payload)
      (omega (arith, st.1, ap length (rx-handle_frame (record c { rx_buffer = rest }) op payload)))

-- Each round takes two bytes at least, so more fuel than bytes changes nothing.
pub drain_fuel :
    (n k : ℕ) (c : Client)
    → length c.rx_buffer ≤ n
    → length c.rx_buffer ≤ k
    → length c.rx_buffer < size_mod
    → drain n c ≡ drain k c
unfolding drain
drain_fuel zero zero c hn hk small = refl
drain_fuel zero (suc k) c hn hk small = rw (parse_frame-short c.rx_buffer (omega arith)) refl
drain_fuel (suc n) zero c hn hk small = rw (parse_frame-short c.rx_buffer (omega arith)) refl
drain_fuel (suc n) (suc k) c hn hk small =
    take_round-cong (λ d. drain n d) (λ d. drain k d) c [] (parse_frame c.rx_buffer)
      (parse_frame (c.rx_buffer ++ [])) (parse_frame-Stable c.rx_buffer [] (omega arith))
      (λ d h. drain_fuel n k d (omega arith) (omega arith) (omega arith))

-- A round before more bytes come, when all that is left is then drained by `final`, is a round after.
take_round-append_rx :
    (early late final : Client → Client) (c : Client) (ys : List ℕ) (rs : List RecvOutcome)
    (p q : Parse)
    → Stable c.rx_buffer ys p q
    → ((d : Client)
        → d.rx_buffer ≡ c.rx_buffer
        → final (append_rx d ys rs) ≡ take_round late (append_rx d ys rs) q)
    → ((d : Client)
        → length d.rx_buffer + 2 ≤ length c.rx_buffer
        → final (append_rx (early d) ys rs) ≡ late (append_rx d ys rs))
    → final (append_rx (take_round early c p) ys rs) ≡ final (append_rx c ys rs)
take_round-append_rx early late final c ys rs need_more q st once rest_later = refl
take_round-append_rx early late final c ys rs too_large q st once rest_later = cc (
  once (fail c frame_too_large) refl,
  once c refl,
  ap (take_round late (append_rx (fail c frame_too_large) ys rs)) st.0,
  ap (take_round late (append_rx c ys rs)) st.0,
)
take_round-append_rx early late final c ys rs out_of_bounds q st once rest_later = cc (
  once (record c { faulted = true }) refl,
  once c refl,
  ap (take_round late (append_rx (record c { faulted = true }) ys rs)) st.0,
  ap (take_round late (append_rx c ys rs)) st.0,
)
take_round-append_rx early late final c ys rs (frame op payload rest) q st once rest_later = cc (
  once c refl,
  ap (take_round late (append_rx c ys rs)) st.0,
  rest_later (handle_frame (record c { rx_buffer = rest }) op payload)
      (omega (arith, st.1, ap length (rx-handle_frame (record c { rx_buffer = rest }) op payload))),
  ap late (handle_frame-append_rx (record c { rx_buffer = rest }) op payload ys rs),
)

-- The buffer may be emptied before more bytes come, or after.
pub drain-append_rx :
    (m n : ℕ) (c : Client) (ys : List ℕ) (rs : List RecvOutcome)
    → length c.rx_buffer ≤ m
    → length c.rx_buffer + length ys ≤ n
    → length c.rx_buffer + length ys < size_mod
    → drain n (append_rx (drain m c) ys rs) ≡ drain n (append_rx c ys rs)
unfolding drain
drain-append_rx zero n c ys rs hm hn small = refl
drain-append_rx (suc m) zero c ys rs hm hn small =
    rw (parse_frame-short c.rx_buffer (omega arith)) refl
drain-append_rx (suc m) (suc n) c ys rs hm hn small =
    take_round-append_rx (λ d. drain m d) (λ d. drain n d) (λ d. drain (suc n) d) c ys rs
      (parse_frame c.rx_buffer) (parse_frame (c.rx_buffer ++ ys))
      (parse_frame-Stable c.rx_buffer ys small) (λ d e. rw e refl)
      (λ d h.
        drain-append_rx m (suc n) d ys rs (omega arith) (omega arith) (omega arith)
        ∙ drain_fuel (suc n) n (append_rx d ys rs) (omega (arith, length-append d.rx_buffer ys))
            (omega (arith, length-append d.rx_buffer ys))
            (omega (arith, length-append d.rx_buffer ys)))

take_round-le :
    (again : Client → Client) (c : Client) (ys : List ℕ) (p q : Parse)
    → Stable c.rx_buffer ys p q
    → ((d : Client)
        → length d.rx_buffer + 2 ≤ length c.rx_buffer
        → length (again d).rx_buffer ≤ length d.rx_buffer)
    → length (take_round again c p).rx_buffer ≤ length c.rx_buffer
take_round-le again c ys need_more q st shrinks = omega arith
take_round-le again c ys too_large q st shrinks = omega arith
take_round-le again c ys out_of_bounds q st shrinks = omega arith
take_round-le again c ys (frame op payload rest) q st shrinks = ground (
  arith,
  st.1,
  ap length (rx-handle_frame (record c { rx_buffer = rest }) op payload),
  shrinks (handle_frame (record c { rx_buffer = rest }) op payload)
      (omega (arith, st.1, ap length (rx-handle_frame (record c { rx_buffer = rest }) op payload))),
)

-- What `poll` leaves in the buffer is no longer than the buffer was.
pub drain-le :
    (n : ℕ) (c : Client)
    → length c.rx_buffer < size_mod
    → length (drain n c).rx_buffer ≤ length c.rx_buffer
unfolding drain
drain-le zero c small = omega arith
drain-le (suc n) c small =
    take_round-le (λ d. drain n d) c [] (parse_frame c.rx_buffer) (parse_frame (c.rx_buffer ++ []))
      (parse_frame-Stable c.rx_buffer [] (omega arith)) (λ d h. drain-le n d (omega arith))
