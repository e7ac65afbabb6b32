-- ===== src/Session/Keyframe.antt =====
-- app/src/webrtc/media.cpp and session.cpp: when the session asks the peer for a keyframe. Times are
-- microseconds of the steady clock, where 0 stands for a time point that was never set.
mod Tests
use booster_nx.Common.{
  ℕ, zero, suc, ◌+◌, ◌-◌, ◌/◌, ◌≤◌, ◌≡◌, refl, ap, sym, ◌∙◌, ◌<◌, All, Bool, true, false, ◌&&◌,
  ◌||◌, not, List, [], ◌∷◌, length, ltb, leb, ◌==◌, arith, Bool-cases, inl, inr, if◌then◌else◌,
}
use booster_nx.Session.Decode.{Decoder, give_up_queue}

-- `requests` are the times of the calls of `peer_connection_request_video_keyframe`, newest first.
pub record Keyframes : Type 0 where
  pub last_request_at : ℕ
  pub last_startup_at : ℕ
  pub last_stall_at : ℕ
  pub attempts : ℕ
  pub initial_requested : Bool
  pub requests : List ℕ

-- What `poll` finds at the peer connection, if there is one: whether it is completed, and the access
-- units received so far.
pub data Peer : Type 0 where
  no_peer : Peer
  peer : Bool → ℕ → Peer

-- `last != 0 && now - last < interval`. The difference is signed: a clock behind `last` is below.
abbrev pub too_soon : ℕ → ℕ → ℕ → Bool
too_soon last now interval = not (last == 0) && ltb now (last + interval)

-- `kMinimumPliInterval`.
abbrev pub min_interval : ℕ
min_interval = 1500000

-- `request_keyframe` with a peer connection: the new state, and `keyframe_needed_`.
pub request_keyframe : Keyframes → Decoder → ℕ → Keyframes × Decoder
request_keyframe k d now =
    if too_soon k.last_request_at now min_interval
    then (k, record d { keyframe_needed = d.keyframe_needed || d.resync_required })
    else (
      record k { last_request_at = now; attempts = k.attempts + 1; requests = now ∷ k.requests },
      d,
    )

-- `maybe_request_startup_keyframe_retry`.
pub startup_retry : Keyframes → Decoder → Bool → ℕ → ℕ → Keyframes × Decoder
startup_retry k d completed packets now =
    if ltb 0 packets || not completed || too_soon k.last_startup_at now 3000000 || leb 5 k.attempts
    then (k, d)
    else request_keyframe (record k { last_startup_at = now }) d now

-- `maybe_recover_decode_stall`.
pub recover_stall : Keyframes → Decoder → ℕ → Keyframes × Decoder
recover_stall k d now =
    if (d.frames_decoded == 0)
      || (d.last_decoded_us == 0)
      || ltb ((now - d.last_decoded_us) / 1000) 1500
      || too_soon k.last_stall_at now 2000000
      || leb 12 k.attempts
    then (k, d)
    else request_keyframe (record k { last_stall_at = now }) (give_up_queue d) now

-- The first request, when the connection is completed.
abbrev pub initial_request : Keyframes → Decoder → Bool → ℕ → Keyframes × Decoder
initial_request k d completed now =
    if completed && not k.initial_requested
    then (let (l, e) = request_keyframe (record k { last_startup_at = now }) d now in
        (record l { initial_requested = true }, e))
    else (k, d)

-- The part of `poll` that looks after the peer connection.
pub poll_peer : Keyframes → Decoder → Peer → ℕ → Keyframes × Decoder
poll_peer k d no_peer now = (k, d)
poll_peer k d (peer completed packets) now =
    let (k₁, d₁) = initial_request k d completed now in
    let (k₂, d₂) = startup_retry k₁ d₁ completed packets now in recover_stall k₂ d₂ now

-- The calls of `poll`, each with the state in which it finds the decoder and the connection.
pub record Poll : Type 0 where
  pub decoder : Decoder
  pub connection : Peer
  pub time : ℕ

pub polls : Keyframes → List Poll → Keyframes
polls k [] = k
polls k (p ∷ ps) = polls (poll_peer k p.decoder p.connection p.time).0 ps

-- Newest first, none at time 0, each 1.5 seconds at least behind the one before.
abbrev pub AreSpaced : List ℕ → Type 0
AreSpaced [] = Unit {0}
AreSpaced (t ∷ []) = 0 < t
AreSpaced (t ∷ u ∷ ts) = (u + min_interval ≤ t) × AreSpaced (u ∷ ts)

abbrev last_of : List ℕ → ℕ
last_of [] = 0
last_of (t ∷ ts) = t

-- The attempts that the limits leave, before and after the first request.
abbrev budget : Bool → ℕ
budget initial = if initial then 13 else 12

-- `last_request_at` and `attempts` tell of the requests that were made, which are spaced.
abbrev pub IsRecorded : Keyframes → Type 0
IsRecorded k =
    AreSpaced k.requests
    × (k.last_request_at ≡ last_of k.requests)
    × (k.attempts ≡ length k.requests)

-- They are within the limits as well.
abbrev pub IsPaced : Keyframes → Type 0
IsPaced k = IsRecorded k × (k.attempts ≤ budget k.initial_requested)

AreSpaced-pos : (t : ℕ) (ts : List ℕ) → AreSpaced (t ∷ ts) → 0 < t
AreSpaced-pos t [] h = h
AreSpaced-pos t (u ∷ ts) h = omega (arith, h.0)

AreSpaced-cons :
    (ts : List ℕ) (now : ℕ)
    → too_soon (last_of ts) now min_interval ≡ false
    → AreSpaced ts
    → 0 < now
    → AreSpaced (now ∷ ts)
AreSpaced-cons [] now e h pos = pos
AreSpaced-cons (t ∷ ts) now e h pos = (ground (arith, e, AreSpaced-pos t ts h), h)

request_keyframe-IsRecorded :
    (k : Keyframes) (d : Decoder) (now : ℕ)
    → IsRecorded k
    → 0 < now
    → IsRecorded (request_keyframe k d now).0
      × ((request_keyframe k d now).0.attempts ≤ k.attempts + 1)
      × ((request_keyframe k d now).0.initial_requested ≡ k.initial_requested)
unfolding request_keyframe
request_keyframe-IsRecorded k d now h pos =
    elim (Bool-cases (too_soon k.last_request_at now min_interval)) [
      | inl e ↦ rw e (h, omega arith, refl)
      | inr e ↦ rw e (
        (
          AreSpaced-cons k.requests now (ap (λ t. too_soon t now min_interval) (sym h.1) ∙ e) h.0
              pos,
          refl,
          omega (arith, h.2),
        ),
        omega arith,
        refl,
      )
    ]

request_keyframe-IsPaced :
    (k : Keyframes) (d : Decoder) (now : ℕ)
    → IsRecorded k
    → 0 < now
    → k.attempts < 12
    → IsPaced (request_keyframe k d now).0
request_keyframe-IsPaced k d now h pos room =
    let r = request_keyframe-IsRecorded k d now h pos in (r.0, ground (arith, r.1))

initial_request-IsPaced :
    (k : Keyframes) (d : Decoder) (completed : Bool) (now : ℕ)
    → IsPaced k
    → 0 < now
    → IsPaced (initial_request k d completed now).0
initial_request-IsPaced k d completed now h pos =
    elim (Bool-cases (completed && not k.initial_requested)) [
      | inl e ↦
          let r = request_keyframe-IsRecorded (record k { last_startup_at = now }) d now h.0 pos in
          let unasked : k.initial_requested ≡ false = ground (arith, e) in
          rw e (r.0, omega (arith, r.1, h.1, ap budget unasked))
      | inr e ↦ rw e h
    ]

startup_retry-IsPaced :
    (k : Keyframes) (d : Decoder) (completed : Bool) (packets now : ℕ)
    → IsPaced k
    → 0 < now
    → IsPaced (startup_retry k d completed packets now).0
unfolding startup_retry
startup_retry-IsPaced k d completed packets now h pos =
    elim (Bool-cases (
      ltb 0 packets
      || not completed
      || too_soon k.last_startup_at now 3000000
      || leb 5 k.attempts)) [
        | inl e ↦ rw e h
        | inr e ↦ rw e (
            request_keyframe-IsPaced (record k { last_startup_at = now }) d now h.0 pos
              (ground (arith, e)))
      ]

recover_stall-IsPaced :
    (k : Keyframes) (d : Decoder) (now : ℕ)
    → IsPaced k
    → 0 < now
    → IsPaced (recover_stall k d now).0
unfolding recover_stall
recover_stall-IsPaced k d now h pos =
    elim (Bool-cases (
      (d.frames_decoded == 0)
      || (d.last_decoded_us == 0)
      || ltb ((now - d.last_decoded_us) / 1000) 1500
      || too_soon k.last_stall_at now 2000000
      || leb 12 k.attempts)) [
        | inl e ↦ rw e h
        | inr e ↦ rw e (
            request_keyframe-IsPaced (record k { last_stall_at = now }) (give_up_queue d) now h.0
              pos (ground (arith, e)))
      ]

poll_peer-IsPaced :
    (k : Keyframes) (d : Decoder) (p : Peer) (now : ℕ)
    → IsPaced k
    → 0 < now
    → IsPaced (poll_peer k d p now).0
unfolding poll_peer
poll_peer-IsPaced k d no_peer now h pos = h
poll_peer-IsPaced k d (peer completed packets) now h pos =
    recover_stall-IsPaced _ _ now
      (startup_retry-IsPaced _ _ completed packets now
        (initial_request-IsPaced k d completed now h pos) pos)
      pos

abbrev pub HavePositiveTimes : List Poll → Type 0
HavePositiveTimes = All (λ p. 0 < p.time)

-- Whatever the decoder and the connection do between the polls, any two keyframe requests are at
-- least 1.5 seconds apart, and a session makes thirteen at most.
pub polls-IsPaced :
    (k : Keyframes) (ps : List Poll) → IsPaced k → HavePositiveTimes ps → IsPaced (polls k ps)
unfolding polls
polls-IsPaced k [] h pos = h
polls-IsPaced k (p ∷ ps) h pos =
    polls-IsPaced (poll_peer k p.decoder p.connection p.time).0 ps
      (poll_peer-IsPaced k p.decoder p.connection p.time h pos.0) pos.1
