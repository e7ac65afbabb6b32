-- ===== src/Video/Queue/Tests.antt =====
-- Runs of the frame queue, and its theorems at states that meet their hypotheses.
use booster_nx.Common.{ℕ, ◌<◌, ◌≡◌, ◌⊎◌, refl, true, false, some, [], ◌∷◌, arith}
use booster_nx.Video.Timing.{decide_frame}
use booster_nx.Video.Queue.{Frame, FrameQueue, no_pts, new_queue, pop, drop_loop, cleanup}
use booster_nx.Video.Queue.Inv.{IsValid, pop-IsValid}
use booster_nx.Video.Queue.Ownership.{count, run, pushes, pops, freed-run-cleanup}
use booster_nx.Video.Queue.Latest.{pop_shows_latest_due}

abbrev frame_at : ℕ → ℕ → Frame
frame_at id pts = record { id = id; pts = pts }

-- Two frames are due at 4000, the third is not.
abbrev three : FrameQueue
three = record new_queue {
  limit = 4;
  queue = frame_at 2 3000 ∷ frame_at 3 4500 ∷ frame_at 4 6000 ∷ [];
  generations = 2 ∷ 3 ∷ 4 ∷ [];
  buffer_frame = some (frame_at 1 1500);
  next_generation = 4;
  buffer_generation = 1;
}

drops_superseded : (pop three 4000).0.freed ≡ frame_at 1 1500 ∷ frame_at 2 3000 ∷ []
unfolding pop drop_loop decide_frame
drops_superseded = refl

holds :
    (pop three 1500).1 ≡ record { frame = some (frame_at 1 1500); generation = 1; reused = true }
unfolding pop drop_loop decide_frame
holds = refl

pop-IsValid_example :
    let (t, p) = pop three 4000 in
    IsValid t
    × (p.generation ≡ t.buffer_generation)
    × (p.frame ≡ t.buffer_frame)
    × ((p.reused ≡ false) × (1 < p.generation)
        ⊎ (p.reused ≡ true) × (p.generation ≡ 1) × (p.frame ≡ some (frame_at 1 1500)))
pop-IsValid_example = pop-IsValid three 4000 (omega arith)

freed-run-cleanup_example :
    count 1
      (cleanup
        (run new_queue (pushes (some (frame_at 1 1500)) ∷ pops no_pts ∷ pops 3000 ∷ []))).freed
    ≡ 1
unfolding count
freed-run-cleanup_example =
    freed-run-cleanup new_queue (pushes (some (frame_at 1 1500)) ∷ pops no_pts ∷ pops 3000 ∷ []) 1
      refl

pop_shows_latest_due_example :
    let (t, p) = pop three 4000 in
    (p.frame ≡ some (frame_at 3 4500)) × (p.reused ≡ false) × (t.queue ≡ frame_at 4 6000 ∷ [])
pop_shows_latest_due_example =
    pop_shows_latest_due three (frame_at 1 1500) 4000 refl (omega arith) (omega arith)
