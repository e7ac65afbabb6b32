-- ===== src/Session/Sync/Reports.antt =====
-- app/src/webrtc/media.cpp: the sender report that ties the video's clock to NTP.
use booster_nx.Common.{
  ℕ, ◌≡◌, refl, ap, ◌∙◌, true, false, Option, none, some, List, [], ◌∷◌, ◌==◌, arith, Bool-cases,
  inl, inr, if◌then◌else◌,
}
use mathlib.Core.Path.{subst}
use booster_nx.Session.Sync.{
  SenderReport, PeerVideoPacket, Media, Callback, video_packet, audio_packet_at, sender_report,
  find_report, store_report, use_video_report, on_video_packet, on_audio_packet,
  on_rtp_sender_report, call, calls, note_packet, enqueue_packet,
}

find_report-store_report :
    (v : ℕ) (r : SenderReport) (qs : List SenderReport)
    → find_report v (store_report r qs) ≡ (if r.ssrc == v then some r else find_report v qs)
unfolding find_report store_report
find_report-store_report v r [] = refl
find_report-store_report v r (q ∷ qs) = elim (Bool-cases (q.ssrc == r.ssrc)) [
  | inl e ↦ rw e (elim (Bool-cases (r.ssrc == v)) [
    | inl f ↦ rw f refl
    | inr f ↦ let g : (q.ssrc == v) ≡ false = ground (arith, e, f) in rw (f, g) refl
  ])
  | inr e ↦ rw e (elim (Bool-cases (q.ssrc == v)) [
    | inl f ↦ let g : (r.ssrc == v) ≡ false = ground (arith, e, f) in rw (f, g) refl
    | inr f ↦ rw f (find_report-store_report v r qs)
  ])
]

-- The newest report of a source among the callbacks, or else the one given.
unfoldable pub latest : ℕ → List Callback → Option SenderReport → Option SenderReport
latest v [] known = known
latest v (sender_report r ∷ cs) known = latest v cs (if r.ssrc == v then some r else known)
latest v (video_packet p now ∷ cs) known = latest v cs known
latest v (audio_packet_at p now ∷ cs) known = latest v cs known

-- The video's clock is tied by this report, if there is one.
abbrev pub IsTiedBy : Media → Option SenderReport → Type 0
IsTiedBy m none = Unit {0}
IsTiedBy m (some r) =
    (m.have_video_sender_report ≡ true)
    × (m.video_sr_ntp_us ≡ r.ntp_us)
    × (m.video_sr_rtp_timestamp ≡ r.rtp_timestamp)

abbrev pub IsTied : Media → Type 0
IsTied m = IsTiedBy m (find_report m.video_ssrc m.sender_reports)

enqueue_packet-IsTied :
    (m : Media) (p : PeerVideoPacket) (now : ℕ) (r : Option SenderReport)
    → find_report m.video_ssrc m.sender_reports ≡ r
    → IsTied (enqueue_packet (use_video_report m r) p now)
enqueue_packet-IsTied m p now none e = rw e tt
enqueue_packet-IsTied m p now (some r) e = rw e (refl, refl, refl)

on_rtp_sender_report-IsTied :
    (m : Media) (r : SenderReport) → IsTied m → IsTied (on_rtp_sender_report m r)
unfolding on_rtp_sender_report
on_rtp_sender_report-IsTied m r h = elim (Bool-cases (r.ssrc == m.video_ssrc)) [
  | inl e ↦ rw (e, find_report-store_report m.video_ssrc r m.sender_reports, e) (refl, refl, refl)
  | inr e ↦ rw (e, find_report-store_report m.video_ssrc r m.sender_reports, e) h
]

call-IsTied : (m : Media) (c : Callback) → IsTied m → IsTied (call m c)
unfolding on_video_packet on_audio_packet
call-IsTied m (video_packet p now) h =
    enqueue_packet-IsTied (note_packet m p now) p now (find_report p.ssrc m.sender_reports) refl
call-IsTied m (audio_packet_at p now) h = h
call-IsTied m (sender_report r) h = on_rtp_sender_report-IsTied m r h

calls-IsTied : (m : Media) (cs : List Callback) → IsTied m → IsTied (calls m cs)
unfolding calls
calls-IsTied m [] h = h
calls-IsTied m (c ∷ cs) h = calls-IsTied (call m c) cs (call-IsTied m c h)

sender_reports-use_video_report :
    (m : Media) (r : Option SenderReport) → (use_video_report m r).sender_reports ≡ m.sender_reports
sender_reports-use_video_report m none = refl
sender_reports-use_video_report m (some r) = refl

sender_reports-on_rtp_sender_report :
    (m : Media) (r : SenderReport)
    → (on_rtp_sender_report m r).sender_reports ≡ store_report r m.sender_reports
unfolding on_rtp_sender_report
sender_reports-on_rtp_sender_report m r = elim (Bool-cases (r.ssrc == m.video_ssrc)) [
  | inl e ↦ rw e refl
  | inr e ↦ rw e refl
]

find_report-calls :
    (v : ℕ) (m : Media) (cs : List Callback)
    → find_report v (calls m cs).sender_reports ≡ latest v cs (find_report v m.sender_reports)
unfolding calls latest on_video_packet on_audio_packet
find_report-calls v m [] = refl
find_report-calls v m (sender_report r ∷ cs) =
    find_report-calls v (on_rtp_sender_report m r) cs
    ∙ ap (λ rs. latest v cs (find_report v rs)) (sender_reports-on_rtp_sender_report m r)
    ∙ ap (latest v cs) (find_report-store_report v r m.sender_reports)
find_report-calls v m (video_packet p now ∷ cs) =
    find_report-calls v (on_video_packet m p now) cs
    ∙ ap (λ rs. latest v cs (find_report v rs))
        (sender_reports-use_video_report (note_packet m p now)
          (find_report p.ssrc m.sender_reports))
find_report-calls v m (audio_packet_at p now ∷ cs) =
    find_report-calls v (on_audio_packet m p now) cs

-- After any callbacks, the video's clock is tied by the newest sender report of the source of the
-- last video packet, when there has been one, however the reports and the packets were interleaved.
pub calls-IsTiedBy :
    (m : Media) (cs : List Callback)
    → IsTied m
    → IsTiedBy
        (calls m cs)
        (latest (calls m cs).video_ssrc cs (find_report (calls m cs).video_ssrc m.sender_reports))
calls-IsTiedBy m cs h =
    subst (IsTiedBy (calls m cs)) (find_report-calls (calls m cs).video_ssrc m cs)
      (calls-IsTied m cs h)
