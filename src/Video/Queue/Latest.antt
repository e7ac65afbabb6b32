-- ===== src/Video/Queue/Latest.antt =====
-- What a timed `pop` shows, said without the loop: the latest frame that is due.
use booster_nx.Common.{
  ℕ, ◌≡◌, ◌≢◌, refl, Bool, true, false, not, some, List, [], ◌∷◌, arith, if◌then◌else◌,
}
use booster_nx.Video.Timing.{decide_frame, is_early}
use booster_nx.Video.Queue.{
  Frame, FrameQueue, Popped, no_pts, timestamp_of, drop_front, drop_loop, take_front, hold_buffer,
  pop,
}

-- A frame is due when it is at most half a display interval ahead of the media clock.
abbrev pub is_due : ℕ → Frame → Bool
is_due target f = not (is_early (timestamp_of f.pts) (timestamp_of target))

-- The due frames at the front, and what is behind them.
abbrev pub due_frames : ℕ → List Frame → List Frame
due_frames target [] = []
due_frames target (f ∷ fs) = if is_due target f then f ∷ due_frames target fs else []

abbrev pub later_frames : ℕ → List Frame → List Frame
later_frames target [] = []
later_frames target (f ∷ fs) = if is_due target f then later_frames target fs else f ∷ fs

abbrev pub last_or : Frame → List Frame → Frame
last_or d [] = d
last_or d (f ∷ fs) = last_or f fs

abbrev pub is_empty {ℓ} : {A : Type ℓ} → List A → Bool
is_empty [] = true
is_empty (x ∷ xs) = false

abbrev pub AreTimed : List Frame → Type 0
AreTimed [] = Unit {0}
AreTimed (f ∷ fs) = (f.pts ≢ no_pts) × AreTimed fs

abbrev finish : FrameQueue × Bool → FrameQueue × Popped
finish (t, held) = if held then hold_buffer t else take_front t.queue t

loop_shows :
    (fs : List Frame) (s : FrameQueue) (b : Frame) (target : ℕ)
    → s.queue ≡ fs
    → s.buffer_frame ≡ some b
    → AreTimed fs
    → let (t, p) = finish (drop_loop fs s target) in
      (p.frame ≡ some (last_or b (due_frames target fs)))
      × (p.reused ≡ is_empty (due_frames target fs))
      × (t.queue ≡ later_frames target fs)
unfolding drop_loop decide_frame
loop_shows [] s b target e h timed = ground arith
loop_shows (f ∷ []) s b target e h timed = ground arith
loop_shows (f ∷ g ∷ fs) s b target e h timed =
    ground (arith, loop_shows (g ∷ fs) (drop_front s) b target)

-- With a frame on show, timestamps on all queued frames and a media clock, `pop` shows the last of
-- the due frames at the front of the queue and leaves the frames behind it. If none is due it shows
-- the same frame again, and says so.
pub pop_shows_latest_due :
    (s : FrameQueue) (b : Frame) (target : ℕ)
    → s.buffer_frame ≡ some b
    → AreTimed s.queue
    → target ≢ no_pts
    → let (t, p) = pop s target in
      (p.frame ≡ some (last_or b (due_frames target s.queue)))
      × (p.reused ≡ is_empty (due_frames target s.queue))
      × (t.queue ≡ later_frames target s.queue)
unfolding pop
pop_shows_latest_due s b target h timed clock =
    ground (arith, loop_shows s.queue s b target refl h timed)
