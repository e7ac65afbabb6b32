-- ===== src/Net/Socket/Feed.antt =====
-- app/src/WebSocketClient.cpp, `poll` on the bytes that libcurl has for it, cut into reads and into
-- calls of `poll`.
use mathlib.Core.List.{append_assoc, append-nil}
use booster_nx.Common.{
  ℕ, ◌+◌, ◌≤◌, ◌<◌, ◌≡◌, refl, suc, Option, ap, sym, ◌∙◌, true, List, [], ◌∷◌, ◌++◌, All, length,
  length-append, arith, map, not, if◌then◌else◌,
}
use booster_nx.Net.Socket.{
  Client, received, read_loop, poll, drain, size_mod, handle_frame, parse_frame, take_round,
}
use booster_nx.Net.Socket.Wire.{Key, AreBytes, wire_frame}
use booster_nx.Net.Socket.Parsing.{IsMask, parse_frame-wire_frame}
use booster_nx.Net.Socket.Stream.{append_rx, drain_fuel, drain-append_rx, drain-le}

-- One call of `poll` for which these reads, and then CURLE_AGAIN, are there.
abbrev pub poll_reads : Client → List (List ℕ) → Client
poll_reads c chunks = poll (record c { incoming = map received chunks })

abbrev pub joined : List (List ℕ) → List ℕ
joined [] = []
joined (x ∷ xs) = x ++ joined xs

abbrev pub AreReads : List (List ℕ) → Type 0
AreReads = All (λ x. 1 ≤ length x)

joined-append : (xs ys : List (List ℕ)) → joined (xs ++ ys) ≡ joined xs ++ joined ys
joined-append [] ys = refl
joined-append (x ∷ xs) ys =
    ap (λ l. x ++ l) (joined-append xs ys) ∙ sym (append_assoc x (joined xs) (joined ys))

AreReads-append : (xs ys : List (List ℕ)) → AreReads xs → AreReads ys → AreReads (xs ++ ys)
AreReads-append [] ys hx hy = hy
AreReads-append (x ∷ xs) ys hx hy = (hx.0, AreReads-append xs ys hx.1 hy)

read_loop-received :
    (chunks : List (List ℕ)) (c : Client)
    → AreReads chunks
    → read_loop (map received chunks) c ≡ append_rx c (joined chunks) []
unfolding read_loop
read_loop-received [] c h =
    ap (λ l. record c { rx_buffer = l; incoming = [] }) (sym (append-nil c.rx_buffer))
read_loop-received ([] ∷ chunks) c h = absurd (omega (arith, h.0))
read_loop-received ((b ∷ bs) ∷ chunks) c h =
    read_loop-received chunks (record c { rx_buffer = c.rx_buffer ++ (b ∷ bs) }) h.1
    ∙ ap (λ l. record c { rx_buffer = l; incoming = [] })
        (append_assoc c.rx_buffer (b ∷ bs) (joined chunks))

poll-connected :
    (c : Client)
    → c.connected ≡ true
    → poll c ≡ (let d = read_loop c.incoming c in drain (length d.rx_buffer) d)
unfolding poll
poll-connected c on =
    ap (λ b. if not b then c else (let d = read_loop c.incoming c in drain (length d.rx_buffer) d))
      on

poll_reads_lem :
    (c : Client) (chunks : List (List ℕ)) (n : ℕ)
    → c.connected ≡ true
    → AreReads chunks
    → length c.rx_buffer + length (joined chunks) ≤ n
    → length c.rx_buffer + length (joined chunks) < size_mod
    → poll_reads c chunks ≡ drain n (append_rx c (joined chunks) [])
poll_reads_lem c chunks n on h fuel small =
    poll-connected (record c { incoming = map received chunks }) on
    ∙ ap (λ d. drain (length d.rx_buffer) d)
        (read_loop-received chunks (record c { incoming = map received chunks }) h)
    ∙ drain_fuel (length (c.rx_buffer ++ joined chunks)) n (append_rx c (joined chunks) [])
        (omega (arith, length-append c.rx_buffer (joined chunks)))
        (omega (arith, length-append c.rx_buffer (joined chunks)))
        (omega (arith, length-append c.rx_buffer (joined chunks)))

-- When `poll` leaves the client connected, a second `poll` gives the client, with the same messages,
-- replies and error, that one `poll` gives which finds the reads of both at once, as long as the
-- bytes in the buffer do not reach the size of the address space.
pub poll_reads-append :
    (c : Client) (first second : List (List ℕ))
    → c.connected ≡ true
    → AreReads first
    → AreReads second
    → length c.rx_buffer + length (joined first) + length (joined second) < size_mod
    → (poll_reads c first).connected ≡ true
    → poll_reads (poll_reads c first) second ≡ poll_reads c (first ++ second)
poll_reads-append c first second on hf hs small still =
    poll_reads_lem (poll_reads c first) second bound still hs (omega (arith, left))
      (omega (arith, left))
    ∙ ap (λ d. drain bound (append_rx d (joined second) [])) once
    ∙ drain-append_rx bound bound start (joined second) [] (omega (arith, filled))
        (omega (arith, filled)) (omega (arith, filled))
    ∙ ap (λ l. drain bound (record c { rx_buffer = l; incoming = [] })) rejoined
    ∙ sym (
        poll_reads_lem c (first ++ second) bound on (AreReads-append first second hf hs)
          (omega (arith, both)) (omega (arith, both)))
  where
    bound : ℕ
    bound = length c.rx_buffer + length (joined first) + length (joined second)

    start : Client
    start = append_rx c (joined first) []

    filled : length start.rx_buffer ≡ length c.rx_buffer + length (joined first)
    filled = length-append c.rx_buffer (joined first)

    once : poll_reads c first ≡ drain bound start
    once = poll_reads_lem c first bound on hf (omega arith) (omega arith)

    left : length (poll_reads c first).rx_buffer ≤ length c.rx_buffer + length (joined first)
    left = omega (
      arith,
      ap (λ d. length d.rx_buffer) once,
      drain-le bound start (omega (arith, filled)),
      filled,
    )

    rejoined :
        (c.rx_buffer ++ joined first) ++ joined second ≡ c.rx_buffer ++ joined (first ++ second)
    rejoined =
        append_assoc c.rx_buffer (joined first) (joined second)
        ∙ ap (λ l. c.rx_buffer ++ l) (sym (joined-append first second))

    both : length (joined (first ++ second)) ≡ length (joined first) + length (joined second)
    both = ap length (joined-append first second) ∙ length-append (joined first) (joined second)

-- A text frame of RFC 6455, masked or not, that comes in any number of reads to a connected client
-- with an empty buffer is delivered as one message with its payload, and leaves nothing else behind.
pub poll_reads-wire_frame :
    (c : Client) (mask : Option Key) (payload : List ℕ) (chunks : List (List ℕ))
    → c.connected ≡ true
    → c.rx_buffer ≡ []
    → IsMask mask
    → AreBytes payload
    → length payload + 14 < size_mod
    → AreReads chunks
    → joined chunks ≡ wire_frame 129 mask payload
    → length (joined chunks) < size_mod
    → poll_reads c chunks
      ≡ record c { rx_buffer = []; messages = c.messages ++ (payload ∷ []); incoming = [] }
unfolding drain handle_frame parse_frame
poll_reads-wire_frame c mask payload chunks on empty hm hb short hc whole small =
    poll_reads_lem c chunks (suc (suc (length (joined chunks)))) on hc
      (omega (arith, ap length empty)) (omega (arith, ap length empty))
    ∙ ap
        (λ l.
          drain (suc (suc (length (joined chunks)))) (record c { rx_buffer = l; incoming = [] }))
        front
    ∙ ap
        (take_round (λ d. drain (suc (length (joined chunks))) d)
          (record c { rx_buffer = wire_frame 129 mask payload ++ []; incoming = [] }))
        (parse_frame-wire_frame 129 mask payload [] hm hb short)
  where
    front : c.rx_buffer ++ joined chunks ≡ wire_frame 129 mask payload ++ []
    front = rw (empty, whole) (sym (append-nil _))
