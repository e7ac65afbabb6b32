-- ===== src/Video/Queue/Ownership.antt =====
-- Who owns a cloned frame: the queue, the last shown frame, or nobody once it is freed.
use booster_nx.Common.{
  ℕ, suc, ◌+◌, ◌≡◌, refl, Option, none, some, List, [], ◌∷◌, ◌++◌, arith, ◌==◌, if◌then◌else◌,
}
use booster_nx.Video.Queue.{
  Frame, FrameQueue, pop_front, front_frames, buffer_list, push, drop_front, drop_loop, take_front,
  pop, cleanup,
}

unfoldable pub count : ℕ → List Frame → ℕ
count a [] = 0
count a (f ∷ fs) = if f.id == a then suc (count a fs) else count a fs

count-append : (a : ℕ) (xs ys : List Frame) → count a (xs ++ ys) ≡ count a xs + count a ys
unfolding count
count-append a [] ys = omega arith
count-append a (f ∷ fs) ys = ground (arith, count-append a fs ys)

-- The clones with identity `a` that the queue holds, and with those already freed.
abbrev pub held : ℕ → FrameQueue → ℕ
held a s = count a s.queue + count a (buffer_list s.buffer_frame)

abbrev pub accounted : ℕ → FrameQueue → ℕ
accounted a s = held a s + count a s.freed

count-pop_front :
    (a : ℕ) (fs : List Frame) → count a (pop_front fs) + count a (front_frames fs) ≡ count a fs
unfolding count
count-pop_front a [] = refl
count-pop_front a (f ∷ fs) = ground arith

-- `push` takes over the one clone that it is given, and loses none.
pub accounted-push :
    (s : FrameQueue) (item : Option Frame) (a : ℕ)
    → accounted a (push s item) ≡ accounted a s + count a (buffer_list item)
unfolding push count
accounted-push s none a = omega arith
accounted-push s (some f) a = ground (
  arith,
  count-append a s.queue (f ∷ []),
  count-pop_front a (s.queue ++ (f ∷ [])),
  count-append a (front_frames (s.queue ++ (f ∷ []))) s.freed,
)

accounted-drop_front : (s : FrameQueue) (a : ℕ) → accounted a (drop_front s) ≡ accounted a s
accounted-drop_front s a =
    omega (arith, count-pop_front a s.queue, count-append a (front_frames s.queue) s.freed)

accounted-drop_loop :
    (fs : List Frame) (s : FrameQueue) (target a : ℕ)
    → accounted a (drop_loop fs s target).0 ≡ accounted a s
unfolding drop_loop
accounted-drop_loop [] s target a = refl
accounted-drop_loop (f ∷ fs) s target a =
    ground (arith, accounted-drop_loop fs (drop_front s) target a, accounted-drop_front s a)

accounted-take_front :
    (fs : List Frame) (s : FrameQueue) (a : ℕ)
    → s.queue ≡ fs
    → accounted a (take_front fs s).0 ≡ accounted a s
unfolding count
accounted-take_front [] s a e = refl
accounted-take_front (f ∷ fs) s a e =
    ground (arith, count-append a (buffer_list s.buffer_frame) s.freed)

-- `pop` neither loses a clone nor frees one twice: what leaves the queue is shown or freed, and the
-- frame that was shown before is freed when another takes its place.
pub accounted-pop : (s : FrameQueue) (target a : ℕ) → accounted a (pop s target).0 ≡ accounted a s
unfolding pop
accounted-pop s target a = ground (
  arith,
  accounted-take_front s.queue s a refl,
  accounted-drop_loop s.queue s target a,
  accounted-take_front (drop_loop s.queue s target).0.queue (drop_loop s.queue s target).0 a refl,
)

-- `cleanup` frees all that the queue holds, each once.
pub accounted-cleanup :
    (s : FrameQueue) (a : ℕ) → (held a (cleanup s) ≡ 0) × (accounted a (cleanup s) ≡ accounted a s)
unfolding cleanup count
accounted-cleanup s a = ground (
  arith,
  count-append a s.queue (buffer_list s.buffer_frame ++ s.freed),
  count-append a (buffer_list s.buffer_frame) s.freed,
)

-- The calls on the queue, as the decoder, the renderer and the owner interleave them.
pub data Call : Type 0 where
  pushes : Option Frame → Call
  pops : ℕ → Call
  cleans : Call

pub step : FrameQueue → Call → FrameQueue
step s (pushes item) = push s item
step s (pops target) = (pop s target).0
step s cleans = cleanup s

pub run : FrameQueue → List Call → FrameQueue
run s [] = s
run s (c ∷ cs) = run (step s c) cs

abbrev pub given : Call → List Frame
given (pushes item) = buffer_list item
given _ = []

abbrev pub all_given : List Call → List Frame
all_given [] = []
all_given (c ∷ cs) = given c ++ all_given cs

accounted-step :
    (s : FrameQueue) (c : Call) (a : ℕ) → accounted a (step s c) ≡ accounted a s + count a (given c)
unfolding step count
accounted-step s (pushes item) a = accounted-push s item a
accounted-step s (pops target) a = omega (arith, accounted-pop s target a)
accounted-step s cleans a = omega (arith, accounted-cleanup s a)

accounted-run :
    (s : FrameQueue) (cs : List Call) (a : ℕ)
    → accounted a (run s cs) ≡ accounted a s + count a (all_given cs)
unfolding run
accounted-run s [] a = unfold count in omega arith
accounted-run s (c ∷ cs) a = omega (
  arith,
  accounted-run (step s c) cs a,
  accounted-step s c a,
  count-append a (given c) (all_given cs),
)

-- Over any history that ends with a cleanup, every clone given to the queue has been freed exactly
-- once: none leaks and none is freed twice.
pub freed-run-cleanup :
    (s : FrameQueue) (cs : List Call) (a : ℕ)
    → accounted a s ≡ 0
    → count a (cleanup (run s cs)).freed ≡ count a (all_given cs)
freed-run-cleanup s cs a fresh = omega (arith, accounted-cleanup (run s cs) a, accounted-run s cs a)
