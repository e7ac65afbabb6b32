-- ===== src/Audio/Pipeline/Order.antt =====
-- app/src/stream/audio/AudioPipeline.cpp, `submit`: the order of the packets by sequence numbers that
-- wrap round.
use booster_nx.Common.{
  ℕ, ◌+◌, ◌≤◌, ◌<◌, ◌≡◌, true, List, [], ◌∷◌, arith, Bool-cases, inl, inr, not, ◌||◌, ◌==◌, length,
  ltb,
}
use booster_nx.Common.Word.{sub16}
use booster_nx.Audio.Pipeline.{
  Packet, Impl, PeerAudioPacket, precedes, pop_front, insert_packet, arm_hold, clear_epoch, receive,
  new_packet, enqueue, admit, submit,
}

-- How far a sequence number lies past `base`, modulo 2 ^ 16.
abbrev pub ahead : ℕ → ℕ → ℕ
ahead base n = sub16 n base

-- The packets lie less than half the range past `base`, from `from` on, each no nearer than the one
-- before it.
abbrev pub Ordered : ℕ → ℕ → List Packet → Type 0
Ordered base from [] = Unit {0}
Ordered base from (p ∷ ps) =
    (from ≤ ahead base p.sequence)
    × (ahead base p.sequence < 32768)
    × Ordered base (ahead base p.sequence) ps

precedes-eq-ltb :
    (base a b : ℕ)
    → ahead base a < 32768
    → ahead base b < 32768
    → precedes a b ≡ ltb (ahead base a) (ahead base b)
precedes-eq-ltb base a b ha hb = ground arith

Ordered-mono : (base m n : ℕ) (ps : List Packet) → m ≤ n → Ordered base n ps → Ordered base m ps
Ordered-mono base m n [] h o = tt
Ordered-mono base m n (p ∷ ps) h o = (omega arith, o.1, o.2)

insert_packet-Ordered :
    (base from : ℕ) (p : Packet) (ps : List Packet)
    → from ≤ ahead base p.sequence
    → ahead base p.sequence < 32768
    → Ordered base from ps
    → Ordered base from (insert_packet p ps)
unfolding insert_packet
insert_packet-Ordered base from p [] h w o = (h, w, tt)
insert_packet-Ordered base from p (q ∷ qs) h w o = ground (
  arith,
  precedes-eq-ltb base p.sequence q.sequence w o.1,
  insert_packet-Ordered base (ahead base q.sequence) p qs,
)

pop_front-Ordered :
    (base from : ℕ) (ps : List Packet) → Ordered base from ps → Ordered base from (pop_front ps)
pop_front-Ordered base from [] o = tt
pop_front-Ordered base from (p ∷ ps) o = Ordered-mono base from (ahead base p.sequence) ps o.0 o.2

enqueue-Ordered :
    (base : ℕ) (s : Impl) (p : Packet)
    → ahead base p.sequence < 32768
    → Ordered base 0 s.jitter.packets
    → Ordered base 0 (enqueue s p).jitter.packets
unfolding enqueue
enqueue-Ordered base s p w o = ground (
  arith,
  insert_packet-Ordered base 0 p s.jitter.packets (omega arith) w o,
  insert_packet-Ordered base 0 p (pop_front s.jitter.packets) (omega arith) w
      (pop_front-Ordered base 0 s.jitter.packets o),
)

packets-arm_hold : (s : Impl) (until : ℕ) → (arm_hold s.jitter until).packets ≡ s.jitter.packets
packets-arm_hold s until = ground arith

admit-Ordered :
    (base : ℕ) (before s : Impl) (p : Packet) (now : ℕ)
    → ahead base p.sequence < 32768
    → Ordered base 0 s.jitter.packets
    → Ordered base 0 (admit before s p now).jitter.packets
unfolding admit
admit-Ordered base before s p now w o = ground (
  arith,
  enqueue-Ordered base
      (record s {
        jitter =
            clear_epoch (arm_hold s.jitter (now + s.settings.initial_hold_us))
              (now + s.settings.resync_hold_us);
        reset_epoch_requested = true;
      })
      p w tt,
  enqueue-Ordered base (record s { jitter = arm_hold s.jitter (now + s.settings.initial_hold_us) })
      p w (rw (packets-arm_hold s (now + s.settings.initial_hold_us)) o),
)

-- If the packets in the buffer and an arrival lie within half the range of the sequence numbers past
-- some number, and the buffer is in order, it is in order after the arrival, on every path: also
-- where the packet is late, evicts the oldest or begins a new epoch.
pub submit-Ordered :
    (base : ℕ) (s : Impl) (source : PeerAudioPacket) (now : ℕ)
    → ahead base source.sequence < 32768
    → Ordered base 0 s.jitter.packets
    → Ordered base 0 (submit s source now).jitter.packets
unfolding submit
submit-Ordered base s source now w o =
    elim (Bool-cases (not s.running || length source.payload == 0)) [
      | inl e ↦ rw e o
      | inr e ↦ rw e (admit-Ordered base s (receive s source now) (new_packet source now) now w o)
    ]
