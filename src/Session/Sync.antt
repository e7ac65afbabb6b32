-- ===== src/Session/Sync.antt =====
-- app/src/webrtc/media.cpp: the callbacks of libpeer for packets and sender reports, and the video
-- time stamp that the audio's media clock asks for. `peer_mutex_` makes the callbacks atomic.
pub mod Reports
pub mod Target
mod Tests
use booster_nx.Common.{
  ℕ, zero, suc, ◌+◌, Bool, true, false, not, ◌&&◌, ◌||◌, Option, none, some, List, [], ◌∷◌, ◌++◌,
  length, ◌==◌, if◌then◌else◌,
}
use booster_nx.Common.Int.{ℤ, pos, ltb_ℤ}
use booster_nx.Audio.Rtp.{rtp_timestamp_at_ntp}
use booster_nx.Audio.Pipeline.{Impl, PeerAudioPacket, submit, set_sender_report, playback_ntp_us}
use booster_nx.Session.Decode.{Decoder, enqueue}

pub record SenderReport : Type 0 where
  pub ssrc : ℕ
  pub ntp_us : ℕ
  pub rtp_timestamp : ℕ

-- `PeerVideoPacket` of libpeer.
pub record PeerVideoPacket : Type 0 where
  pub bytes : List ℕ
  pub timestamp : ℕ
  pub ssrc : ℕ

pub record Media : Type 0 where
  pub audio : Option Impl
  pub decoder : Decoder
  pub sender_reports : List SenderReport
  pub audio_ssrc : ℕ
  pub video_ssrc : ℕ
  pub video_sr_ntp_us : ℕ
  pub video_sr_rtp_timestamp : ℕ
  pub have_video_sender_report : Bool
  pub packets_received : ℕ
  pub access_unit_bytes : ℕ
  pub last_video_packet_us : ℕ
  pub got_video_track : Bool

-- The first report of a source.
pub find_report : ℕ → List SenderReport → Option SenderReport
find_report ssrc [] = none
find_report ssrc (r ∷ rs) =
    let rest = find_report ssrc rs in if r.ssrc == ssrc then some r else rest

-- `*found = ...`, or `push_back`.
pub store_report : SenderReport → List SenderReport → List SenderReport
store_report r [] = r ∷ []
store_report r (q ∷ qs) =
    let rest = store_report r qs in if q.ssrc == r.ssrc then r ∷ qs else q ∷ rest

abbrev pub use_video_report : Media → Option SenderReport → Media
use_video_report m none = m
use_video_report m (some r) = record m {
  video_sr_ntp_us = r.ntp_us;
  video_sr_rtp_timestamp = r.rtp_timestamp;
  have_video_sender_report = true;
}

abbrev pub note_packet : Media → PeerVideoPacket → ℕ → Media
note_packet m p now = record m {
  last_video_packet_us = now;
  access_unit_bytes = m.access_unit_bytes + length p.bytes;
  video_ssrc = p.ssrc;
}

abbrev pub enqueue_packet : Media → PeerVideoPacket → ℕ → Media
enqueue_packet m p now = record m {
  packets_received = m.packets_received + 1;
  got_video_track = true;
  decoder = enqueue m.decoder p.bytes p.timestamp now;
}

pub on_video_packet : Media → PeerVideoPacket → ℕ → Media
on_video_packet m p now =
    enqueue_packet (use_video_report (note_packet m p now) (find_report p.ssrc m.sender_reports)) p
      now

abbrev pub use_audio_report : Impl → Option SenderReport → Impl
use_audio_report a none = a
use_audio_report a (some r) = set_sender_report a r.ssrc r.ntp_us r.rtp_timestamp

abbrev pub audio_packet : Option Impl → Bool → List SenderReport → PeerAudioPacket → ℕ → Option Impl
audio_packet none new_ssrc rs p now = none
audio_packet (some a) new_ssrc rs p now =
    some (
      if new_ssrc
      then use_audio_report (submit a p now) (find_report p.ssrc rs)
      else submit a p now)

pub on_audio_packet : Media → PeerAudioPacket → ℕ → Media
on_audio_packet m p now = record m {
  audio_ssrc = p.ssrc;
  audio = audio_packet m.audio (not (m.audio_ssrc == p.ssrc)) m.sender_reports p now;
}

abbrev pub audio_report : Option Impl → SenderReport → Option Impl
audio_report none r = none
audio_report (some a) r = some (set_sender_report a r.ssrc r.ntp_us r.rtp_timestamp)

pub on_rtp_sender_report : Media → SenderReport → Media
on_rtp_sender_report m r =
    let n = record m {
      sender_reports = store_report r m.sender_reports;
      audio = if r.ssrc == m.audio_ssrc then audio_report m.audio r else m.audio;
    } in
    if r.ssrc == m.video_ssrc then use_video_report n (some r) else n

abbrev pub target_at : Media → ℤ → Option ℕ
target_at m audio_ntp =
    if ltb_ℤ audio_ntp (pos 0)
    then none
    else some
        (rtp_timestamp_at_ntp m.video_sr_rtp_timestamp (pos m.video_sr_ntp_us) audio_ntp 90000)

-- `none` is AV_NOPTS_VALUE.
pub video_target_rtp_timestamp : Media → Option ℕ
video_target_rtp_timestamp m = elim m.audio [
  | none ↦ none
  | some a ↦ if m.have_video_sender_report then target_at m (playback_ntp_us a) else none
]

pub data Callback : Type 0 where
  video_packet : PeerVideoPacket → ℕ → Callback
  audio_packet_at : PeerAudioPacket → ℕ → Callback
  sender_report : SenderReport → Callback

abbrev pub call : Media → Callback → Media
call m (video_packet p now) = on_video_packet m p now
call m (audio_packet_at p now) = on_audio_packet m p now
call m (sender_report r) = on_rtp_sender_report m r

pub calls : Media → List Callback → Media
calls m [] = m
calls m (c ∷ cs) = calls (call m c) cs
