-- ===== src/Audio/Pipeline/Inv.antt =====
-- app/src/stream/audio/AudioPipeline.cpp: the well-formed states of the jitter buffer.
use booster_nx.Common.{
  ℕ, suc, ◌+◌, ◌≤◌, ◌<◌, ◌≡◌, refl, true, List, [], ◌∷◌, length, All, not, ◌||◌, ◌==◌, arith,
  Bool-cases, inl, inr,
}
use booster_nx.Audio.Pipeline.{
  Call, starts, stops, takes, submits, start, stop, step, run, Packet, Jitter, Impl,
  PeerAudioPacket, max_packets, pop_front, insert_packet, arm_hold, enqueue, admit, submit,
  clear_epoch, receive, new_packet, erase_sequence, prime, take_missing, take_expected, take_next,
}

abbrev pub IsPacket : Packet → Type 0
IsPacket p = (p.sequence < 65536) × (0 < length p.payload)

pub record IsValid (j : Jitter) : Type 0 where
  pub bounded : length j.packets ≤ max_packets
  pub filled : All IsPacket j.packets
  pub expected_in_range : j.expected_sequence < 65536
  pub in_step : j.have_expected ≡ j.primed
  pub not_held : j.primed ≡ true → j.hold_until_us ≡ 0

pub length-insert_packet :
    (p : Packet) (ps : List Packet) → length (insert_packet p ps) ≡ suc (length ps)
unfolding insert_packet
length-insert_packet p [] = refl
length-insert_packet p (q ∷ qs) = ground (arith, length-insert_packet p qs)

insert_packet-All :
    (p : Packet) (ps : List Packet)
    → IsPacket p
    → All IsPacket ps
    → All IsPacket (insert_packet p ps)
unfolding insert_packet
insert_packet-All p [] h v = (h, tt)
insert_packet-All p (q ∷ qs) h v = ground (arith, insert_packet-All p qs h v.1)

pop_front-All : (ps : List Packet) → All IsPacket ps → All IsPacket (pop_front ps)
pop_front-All [] v = tt
pop_front-All (p ∷ ps) v = v.1

pop_front_lt : (ps : List Packet) → length ps ≤ max_packets → length (pop_front ps) < max_packets
pop_front_lt [] h = omega arith
pop_front_lt (p ∷ ps) h = omega arith

erase_sequence-All :
    (n : ℕ) (ps : List Packet) → All IsPacket ps → All IsPacket (erase_sequence n ps)
unfolding erase_sequence
erase_sequence-All n [] v = tt
erase_sequence-All n (p ∷ ps) v = ground (arith, erase_sequence-All n ps v.1)

length-erase_sequence : (n : ℕ) (ps : List Packet) → length (erase_sequence n ps) ≤ length ps
unfolding erase_sequence
length-erase_sequence n [] = omega arith
length-erase_sequence n (p ∷ ps) = ground (arith, length-erase_sequence n ps)

enqueue-IsValid :
    (s : Impl) (p : Packet) → IsPacket p → IsValid s.jitter → IsValid (enqueue s p).jitter
unfolding enqueue
enqueue-IsValid s p h v = ground (
  arith,
  length-insert_packet p s.jitter.packets,
  length-insert_packet p (pop_front s.jitter.packets),
  insert_packet-All p s.jitter.packets h v.filled,
  insert_packet-All p (pop_front s.jitter.packets) h (pop_front-All s.jitter.packets v.filled),
  pop_front_lt s.jitter.packets v.bounded,
)

arm_hold-IsValid : (j : Jitter) (until : ℕ) → IsValid j → IsValid (arm_hold j until)
arm_hold-IsValid j until v = ground arith

admit-IsValid :
    (before s : Impl) (p : Packet) (now : ℕ)
    → IsPacket p
    → IsValid s.jitter
    → IsValid (admit before s p now).jitter
unfolding admit
admit-IsValid before s p now h v = ground (
  arith,
  enqueue-IsValid
      (record s {
        jitter =
            clear_epoch (arm_hold s.jitter (now + s.settings.initial_hold_us))
              (now + s.settings.resync_hold_us);
        reset_epoch_requested = true;
      })
      p h
      (record {
        bounded = omega arith;
        filled = tt;
        expected_in_range = ground arith;
        in_step = refl;
        not_held = λ e. cc;
      }),
  enqueue-IsValid (record s { jitter = arm_hold s.jitter (now + s.settings.initial_hold_us) }) p h
      (arm_hold-IsValid s.jitter (now + s.settings.initial_hold_us) v),
)

-- Every arrival keeps the jitter buffer within its twelve packets and its other invariants: packets
-- with a payload, sequence numbers of 16 bits, an expected number exactly when it is primed, and no
-- hold once it is primed.
pub submit-IsValid :
    (s : Impl) (source : PeerAudioPacket) (now : ℕ)
    → source.sequence < 65536
    → IsValid s.jitter
    → IsValid (submit s source now).jitter
unfolding submit
submit-IsValid s source now h v = elim (Bool-cases (not s.running || length source.payload == 0)) [
  | inl e ↦ rw e v
  | inr e ↦
      rw e (admit-IsValid s (receive s source now) (new_packet source now) now (h, ground arith) v)
]

prime-IsValid : (j : Jitter) (n : ℕ) → IsValid j → IsValid (prime j n)
prime-IsValid j n v = ground arith

take_missing-IsValid : (s : Impl) → IsValid s.jitter → IsValid (take_missing s).0.jitter
unfolding take_missing
take_missing-IsValid s v = ground arith

take_expected-IsValid : (s : Impl) → IsValid s.jitter → IsValid (take_expected s).0.jitter
unfolding take_expected
take_expected-IsValid s v = ground (
  arith,
  take_missing-IsValid s v,
  length-erase_sequence s.jitter.expected_sequence s.jitter.packets,
  erase_sequence-All s.jitter.expected_sequence s.jitter.packets v.filled,
)

-- So does every take.
pub take_next-IsValid : (s : Impl) → IsValid s.jitter → IsValid (take_next s).0.jitter
unfolding take_next
take_next-IsValid s v = ground (
  arith,
  take_expected-IsValid (record s { jitter = prime s.jitter s.settings.prime_packets })
      (prime-IsValid s.jitter s.settings.prime_packets v),
  prime-IsValid s.jitter s.settings.prime_packets v,
)

start-IsValid : (s : Impl) → IsValid s.jitter → IsValid (start s).jitter
unfolding start
start-IsValid s v = ground arith

stop-IsValid : (s : Impl) → IsValid s.jitter → IsValid (stop s).jitter
unfolding stop
stop-IsValid s v = ground arith

abbrev pub IsCall : Call → Type 0
IsCall (submits source now) = source.sequence < 65536
IsCall _ = Unit {0}

step-IsValid : (s : Impl) (c : Call) → IsCall c → IsValid s.jitter → IsValid (step s c).jitter
unfolding step
step-IsValid s starts h v = start-IsValid s v
step-IsValid s stops h v = stop-IsValid s v
step-IsValid s takes h v = take_next-IsValid s v
step-IsValid s (submits source now) h v = submit-IsValid s source now h v

-- Whatever the interleaving of starts, stops, arrivals and takes, the jitter buffer stays valid: at
-- most twelve packets, each with a payload and a 16-bit sequence number, an expected number exactly
-- when it is primed, and no hold once it is primed.
pub run-IsValid :
    (s : Impl) (cs : List Call) → All IsCall cs → IsValid s.jitter → IsValid (run s cs).jitter
unfolding run
run-IsValid s [] h v = v
run-IsValid s (c ∷ cs) h v = run-IsValid (step s c) cs h.1 (step-IsValid s c h.0 v)
