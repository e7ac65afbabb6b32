-- ===== src/Audio/Pipeline/Delivery.antt =====
-- app/src/stream/audio/AudioPipeline.cpp, `take_next`: what the worker is handed, and when.
use booster_nx.Common.{
  ℕ, zero, suc, ◌+◌, ◌%◌, ◌<◌, ◌≡◌, ◌≢◌, refl, true, none, some, List, [], ◌∷◌, length, arith,
}
use booster_nx.Common.Word.{sub32}
use booster_nx.Audio.Rtp.Encode.{Block, IsBlock, AreBlocks, encode_red}
use booster_nx.Audio.Rtp.Red.{parse_first_redundant-encode_red}
use booster_nx.Audio.Pipeline.{
  Packet, Impl, find_sequence, erase_sequence, find_red, next_sequence, take_missing, take_expected,
  take_next,
}

find_sequence-erase_sequence :
    (n m : ℕ) (ps : List Packet)
    → n ≢ m
    → find_sequence n (erase_sequence m ps) ≡ find_sequence n ps
unfolding find_sequence erase_sequence
find_sequence-erase_sequence n m [] h = refl
find_sequence-erase_sequence n m (p ∷ ps) h = ground (arith, find_sequence-erase_sequence n m ps h)

-- The worker may take: it runs and the buffer is primed.
abbrev pub IsFlowing : Impl → Type 0
IsFlowing s = (s.running ≡ true) × (s.jitter.primed ≡ true)

-- What a take leaves behind for a packet that is not its own.
take_expected-keeps :
    (s : Impl) (n : ℕ)
    → n ≢ s.jitter.expected_sequence
    → let t = (take_expected s).0 in
      (find_sequence n t.jitter.packets ≡ find_sequence n s.jitter.packets)
      × (t.running ≡ s.running)
      × (t.jitter.primed ≡ s.jitter.primed)
      × (t.jitter.expected_sequence ≡ next_sequence s.jitter.expected_sequence)
unfolding take_expected take_missing
take_expected-keeps s n h =
    ground (arith, find_sequence-erase_sequence n s.jitter.expected_sequence s.jitter.packets h)

packets_of_found : (n : ℕ) (ps : List Packet) (p : Packet) → find_sequence n ps ≡ some p → ps ≢ []
unfolding find_sequence
packets_of_found n [] p e h = cc
packets_of_found n (q ∷ qs) p e h = cc

packets_of_red : (n : ℕ) (ps : List Packet) (p : Packet) → find_red n ps ≡ some p → ps ≢ []
unfolding find_red
packets_of_red n [] p e h = cc
packets_of_red n (q ∷ qs) p e h = cc

-- With a packet in a primed buffer, a take is a take of the expected number.
take_next_flowing :
    (s : Impl) (n : ℕ) (p : Packet)
    → IsFlowing s
    → find_sequence n s.jitter.packets ≡ some p
    → take_next s ≡ take_expected s
unfolding take_next
take_next_flowing s n p f e = ground (arith, packets_of_found n s.jitter.packets p e)

abbrev pub after_takes : ℕ → Impl → Impl
after_takes zero s = s
after_takes (suc k) s = after_takes k (take_next s).0

take_here :
    (s : Impl) (p : Packet)
    → find_sequence s.jitter.expected_sequence s.jitter.packets ≡ some p
    → (take_expected s).1 ≡ some p
unfolding take_expected
take_here s p e = ground arith

turn_step :
    (k : ℕ) (s : Impl) (p : Packet)
    → IsFlowing s
    → s.jitter.expected_sequence < 65536
    → suc k < 65536
    → find_sequence ((s.jitter.expected_sequence + suc k) % 65536) s.jitter.packets ≡ some p
    → let t = (take_expected s).0 in
      (IsFlowing t)
      × (t.jitter.expected_sequence < 65536)
      × (find_sequence ((t.jitter.expected_sequence + k) % 65536) t.jitter.packets ≡ some p)
turn_step k s p f h hk e =
    (ground (arith, kept), ground (arith, kept), ground (arith, kept, same_turn))
  where
    n : ℕ
    n = (s.jitter.expected_sequence + suc k) % 65536

    kept :
        let t = (take_expected s).0 in
        (find_sequence n t.jitter.packets ≡ find_sequence n s.jitter.packets)
        × (t.running ≡ s.running)
        × (t.jitter.primed ≡ s.jitter.primed)
        × (t.jitter.expected_sequence ≡ next_sequence s.jitter.expected_sequence)
    kept = take_expected-keeps s n (omega arith)

    same_turn : ((take_expected s).0.jitter.expected_sequence + k) % 65536 ≡ n
    same_turn = omega (arith, kept.3)

-- A packet of a primed buffer is handed out exactly at its turn: the one `k` numbers past the
-- expected number comes after `k` takes, whatever else is in the buffer or missing from it.
pub take_next_in_turn :
    (k : ℕ) (s : Impl) (p : Packet)
    → IsFlowing s
    → s.jitter.expected_sequence < 65536
    → k < 65536
    → find_sequence ((s.jitter.expected_sequence + k) % 65536) s.jitter.packets ≡ some p
    → (take_next (after_takes k s)).1 ≡ some p
take_next_in_turn zero s p f h hk e =
    let here : find_sequence s.jitter.expected_sequence s.jitter.packets ≡ some p =
      ground (arith, e) in
    rw (take_next_flowing s _ p f here) (take_here s p here)
take_next_in_turn (suc k) s p f h hk e =
    let later = turn_step k s p f h hk e in
    rw (take_next_flowing s _ p f e)
      (take_next_in_turn k (take_expected s).0 p later.0 later.1 (omega arith) later.2)

-- A lost packet whose successor is in the buffer, as a RED packet with a first redundant block that
-- is not empty, is rebuilt from that block: its payload is the block's data, its sequence number is
-- the expected one and its timestamp the successor's less the block's offset. The successor stays.
pub take_next_recovers :
    (s : Impl) (next : Packet) (b : Block) (bs : List Block) (payload_type : ℕ) (primary : List ℕ)
    → IsFlowing s
    → find_sequence s.jitter.expected_sequence s.jitter.packets ≡ none
    → find_red (next_sequence s.jitter.expected_sequence) s.jitter.packets ≡ some next
    → next.payload ≡ encode_red (b ∷ bs) payload_type primary
    → IsBlock b
    → AreBlocks bs
    → payload_type < 128
    → 0 < length b.content
    → let (t, taken) = take_next s in
      (taken
        ≡ some (record {
          payload = b.content;
          timestamp = sub32 next.timestamp b.timestamp_offset;
          ssrc = next.ssrc;
          sequence = s.jitter.expected_sequence;
          payload_type = 111;
          arrival_us = next.arrival_us;
        }))
      × (t.jitter.packets ≡ s.jitter.packets)
      × (t.jitter.expected_sequence ≡ next_sequence s.jitter.expected_sequence)
unfolding take_next take_expected take_missing
take_next_recovers s next b bs payload_type primary f missing found coded vb vbs h p = ground (
  arith,
  packets_of_red (next_sequence s.jitter.expected_sequence) s.jitter.packets next found,
  parse_first_redundant-encode_red b bs payload_type primary vb vbs h p,
)
