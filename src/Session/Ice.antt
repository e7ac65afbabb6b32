-- ===== src/Session/Ice.antt =====
-- app/src/webrtc/session.cpp: ICE servers and candidates. Texts are lists of bytes.
pub mod Local
pub mod Remote
mod Tests
use booster_nx.Common.{
  ℕ, zero, suc, ◌+◌, ◌-◌, Bool, true, false, not, ◌&&◌, ◌||◌, Option, none, some, List, [], ◌∷◌,
  ◌++◌, length, take, drop, ltb, ◌==◌, if◌then◌else◌,
}

-- `text.rfind(prefix, 0) == 0`.
abbrev pub starts_with : List ℕ → List ℕ → Bool
starts_with text [] = true
starts_with [] (p ∷ ps) = false
starts_with (t ∷ ts) (p ∷ ps) = (t == p) && starts_with ts ps

-- `text.find(needle) != npos`.
pub contains : List ℕ → List ℕ → Bool
contains [] needle = starts_with [] needle
contains (t ∷ ts) needle = starts_with (t ∷ ts) needle || contains ts needle

abbrev pub is_empty : List ℕ → Bool
is_empty [] = true
is_empty (b ∷ bs) = false

-- The text up to the first newline, and the pieces behind it.
pub split_newlines : List ℕ → List ℕ × List (List ℕ)
split_newlines [] = ([], [])
split_newlines (b ∷ bs) =
    let (piece, pieces) = split_newlines bs in
    if b == 10 then ([], piece ∷ pieces) else (b ∷ piece, pieces)

-- `while (line.back() == '\r') line.pop_back()`.
pub strip_cr : List ℕ → List ℕ
strip_cr [] = []
strip_cr (b ∷ bs) = let rest = strip_cr bs in if is_empty rest && (b == 13) then [] else b ∷ rest

pub keep_lines : List (List ℕ) → List (List ℕ)
keep_lines [] = []
keep_lines (l ∷ ls) =
    let rest = keep_lines ls in if is_empty (strip_cr l) then rest else strip_cr l ∷ rest

abbrev pub split_lines : List ℕ → List (List ℕ)
split_lines text = let (piece, pieces) = split_newlines text in keep_lines (piece ∷ pieces)

-- "v=0", "m=", "a=", "a=candidate:", "candidate:".
abbrev pub version_line : List ℕ
version_line = 118 ∷ 61 ∷ 48 ∷ []

abbrev pub media_line : List ℕ
media_line = 109 ∷ 61 ∷ []

abbrev pub attribute : List ℕ
attribute = 97 ∷ 61 ∷ []

abbrev pub candidate_word : List ℕ
candidate_word = 99 ∷ 97 ∷ 110 ∷ 100 ∷ 105 ∷ 100 ∷ 97 ∷ 116 ∷ 101 ∷ 58 ∷ []

pub candidates_of : List (List ℕ) → List (List ℕ)
candidates_of [] = []
candidates_of (l ∷ ls) =
    let rest = candidates_of ls in
    if starts_with l (attribute ++ candidate_word) then drop 2 l ∷ rest else rest

-- The candidates in what libpeer hands over: a whole description, or one candidate.
abbrev pub candidate_lines : List ℕ → List (List ℕ)
candidate_lines sdp =
    if contains sdp version_line || contains sdp media_line
    then candidates_of (split_lines sdp)
    else (if is_empty sdp then [] else (if starts_with sdp attribute then drop 2 sdp else sdp) ∷ [])

-- `posted` are the calls of `SendIceCandidate`, newest last; `added` those of
-- `peer_connection_add_ice_candidate`, which also stand for the set `added_remote_ice_`.
pub record Ice : Type 0 where
  pub can_send : Bool
  pub pending : List (List ℕ)
  pub posted : List (List ℕ)
  pub added : List (List ℕ)

-- The signaling client is there before a description is made.
abbrev pub post_candidate : Ice → List ℕ → Ice
post_candidate s c =
    if s.can_send
    then record s { posted = s.posted ++ (c ∷ []) }
    else record s { pending = s.pending ++ (c ∷ []) }

-- The loop of `on_ice_candidate`.
pub trickle : Ice → List (List ℕ) → Ice
trickle s [] = s
trickle s (c ∷ cs) = trickle (post_candidate s c) cs

abbrev pub on_ice_candidate : Ice → List ℕ → Ice
on_ice_candidate s sdp = trickle s (candidate_lines sdp)

-- Once the answer is set: the block of `start_webrtc_media` under the lock.
abbrev pub flush : Ice → Ice
flush s = record s { can_send = true; posted = s.posted ++ s.pending; pending = [] }

abbrev pub same_text : List ℕ → List ℕ → Bool
same_text [] [] = true
same_text [] (y ∷ ys) = false
same_text (x ∷ xs) [] = false
same_text (x ∷ xs) (y ∷ ys) = (x == y) && same_text xs ys

pub is_member : List ℕ → List (List ℕ) → Bool
is_member c [] = false
is_member c (x ∷ xs) = same_text c x || is_member c xs

-- One candidate of an answer, with a peer connection or without.
abbrev pub add_candidate : Bool → Ice → List ℕ → Ice
add_candidate has_peer s c =
    if not has_peer || is_member c s.added then s else record s { added = s.added ++ (c ∷ []) }

-- One answer of `PollRemoteIceCandidates`.
pub add_remote : Bool → Ice → List (List ℕ) → Ice
add_remote has_peer s [] = s
add_remote has_peer s (c ∷ cs) = add_remote has_peer (add_candidate has_peer s c) cs

-- The counts of `SummarizeCandidateTypes`.
pub record Summary : Type 0 where
  pub host : ℕ
  pub srflx : ℕ
  pub relay : ℕ
  pub prflx : ℕ
  pub other : ℕ

-- `" typ "` and the name of a type behind it.
abbrev pub typ : List ℕ → List ℕ
typ name = 32 ∷ 116 ∷ 121 ∷ 112 ∷ 32 ∷ name

abbrev pub count_line : List ℕ → Summary → Summary
count_line line s =
    if contains line (typ (104 ∷ 111 ∷ 115 ∷ 116 ∷ []))
    then record s { host = s.host + 1 }
    else (if contains line (typ (115 ∷ 114 ∷ 102 ∷ 108 ∷ 120 ∷ []))
        then record s { srflx = s.srflx + 1 }
        else (if contains line (typ (114 ∷ 101 ∷ 108 ∷ 97 ∷ 121 ∷ []))
            then record s { relay = s.relay + 1 }
            else (if contains line (typ (112 ∷ 114 ∷ 102 ∷ 108 ∷ 120 ∷ []))
                then record s { prflx = s.prflx + 1 }
                else record s { other = s.other + 1 })))

-- The loop from `pos` on. `skip` bytes are passed over after a match.
pub summarize : ℕ → List ℕ → Summary → Summary
summarize skip [] s = s
summarize (suc skip) (t ∷ ts) s = summarize skip ts s
summarize zero (t ∷ ts) s = elim (starts_with (t ∷ ts) candidate_word) [
  | true ↦ summarize 9 ts (count_line (split_newlines (t ∷ ts)).0 s)
  | false ↦ summarize 0 ts s
]

abbrev pub summarize_candidate_types : List ℕ → Summary
summarize_candidate_types text =
    summarize 0 text (record { host = 0; srflx = 0; relay = 0; prflx = 0; other = 0 })

pub record IceServerInfo : Type 0 where
  pub url : List ℕ
  pub username : List ℕ
  pub credential : List ℕ

-- "turn:" and "stun:".
abbrev pub turn_scheme : List ℕ
turn_scheme = 116 ∷ 117 ∷ 114 ∷ 110 ∷ 58 ∷ []

abbrev pub stun_scheme : List ℕ
stun_scheme = 115 ∷ 116 ∷ 117 ∷ 110 ∷ 58 ∷ []

-- `host_port.erase(query)`.
pub before_query : List ℕ → List ℕ
before_query [] = []
before_query (b ∷ bs) = let rest = before_query bs in if b == 63 then [] else b ∷ rest

abbrev pub stun_server : List ℕ → IceServerInfo
stun_server host_port = record { url = stun_scheme ++ host_port; username = []; credential = [] }

-- A STUN server for every TURN server that names a host.
pub derived_stun : List IceServerInfo → List IceServerInfo
derived_stun [] = []
derived_stun (s ∷ ss) =
    let rest = derived_stun ss in
    if starts_with s.url turn_scheme && not (is_empty (before_query (drop 5 s.url)))
    then stun_server (before_query (drop 5 s.url)) ∷ rest
    else rest

-- "stun.l.google.com:19302" and "stun1.l.google.com:19302".
abbrev pub public_servers : List IceServerInfo
public_servers =
    stun_server (
      115 ∷ 116 ∷ 117 ∷ 110 ∷ 46 ∷ 108 ∷ 46 ∷ 103 ∷ 111 ∷ 111 ∷ 103 ∷ 108 ∷ 101 ∷ 46 ∷ 99 ∷ 111
      ∷ 109 ∷ 58 ∷ 49 ∷ 57 ∷ 51 ∷ 48 ∷ 50 ∷ [])
    ∷ stun_server (
        115 ∷ 116 ∷ 117 ∷ 110 ∷ 49 ∷ 46 ∷ 108 ∷ 46 ∷ 103 ∷ 111 ∷ 111 ∷ 103 ∷ 108 ∷ 101 ∷ 46 ∷ 99
        ∷ 111 ∷ 109 ∷ 58 ∷ 49 ∷ 57 ∷ 51 ∷ 48 ∷ 50 ∷ [])
    ∷ []

-- What the configuration gets: at most five of the given servers, those derived and the public ones.
abbrev pub configured_servers : List IceServerInfo → List IceServerInfo
configured_servers given = take 5 (given ++ (derived_stun given ++ public_servers))
