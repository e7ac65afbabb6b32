-- ===== src/Video/Queue/Inv.antt =====
-- app/src/stream/ffmpeg/AVFrameHolder.cpp: the generations by which the renderer tells a new frame
-- from a repeated one.
use booster_nx.Common.{
  ℕ, suc, ◌+◌, ◌≤◌, ◌<◌, ◌≡◌, ◌⊎◌, inl, inr, refl, true, false, Option, none, some, List, [], ◌∷◌,
  ◌++◌, length, length-append, arith,
}
use booster_nx.Video.Queue.{
  Frame, FrameQueue, Popped, pop_front, push, drop_front, drop_loop, take_front, pop, cleanup,
  new_queue,
}

-- Strictly rising from above `lo` to at most `hi`.
abbrev pub Rising : ℕ → List ℕ → ℕ → Type 0
Rising lo [] hi = lo ≤ hi
Rising lo (g ∷ gs) hi = (lo < g) × Rising g gs hi

pub record IsValid (s : FrameQueue) : Type 0 where
  pub paired : length s.generations ≡ length s.queue
  pub rising : Rising s.buffer_generation s.generations s.next_generation
  pub bounded : length s.queue ≤ s.limit
  pub has_room : 2 ≤ s.limit

Rising-append :
    (lo hi : ℕ) (gs : List ℕ) → Rising lo gs hi → Rising lo (gs ++ (suc hi ∷ [])) (suc hi)
Rising-append lo hi [] r = omega arith
Rising-append lo hi (g ∷ gs) r = (r.0, Rising-append g hi gs r.1)

Rising-mono : (lo lo' hi : ℕ) (gs : List ℕ) → lo ≤ lo' → Rising lo' gs hi → Rising lo gs hi
Rising-mono lo lo' hi [] h r = omega arith
Rising-mono lo lo' hi (g ∷ gs) h r = (omega arith, r.1)

Rising-pop_front : (lo hi : ℕ) (gs : List ℕ) → Rising lo gs hi → Rising lo (pop_front gs) hi
Rising-pop_front lo hi [] r = r
Rising-pop_front lo hi (g ∷ gs) r = Rising-mono lo g hi gs (omega arith) r.1

length-pop_front {ℓ} :
    {A : Type ℓ} (xs : List A)
    → (length (pop_front xs) + 1 ≡ length xs)
      ⊎ (length (pop_front xs) ≡ length xs) × (length xs ≡ 0)
length-pop_front [] = inr (refl, refl)
length-pop_front (x ∷ xs) = inl (omega arith)

pub new_queue-IsValid : IsValid new_queue
new_queue-IsValid = omega arith

-- `push` keeps the queue within its limit and the generations in step with the frames and rising.
pub push-IsValid : (s : FrameQueue) (item : Option Frame) → IsValid s → IsValid (push s item)
unfolding push
push-IsValid s none v = v
push-IsValid s (some f) v = ground (
  arith,
  length-append s.queue (f ∷ []),
  length-append s.generations (suc s.next_generation ∷ []),
  length-pop_front (s.queue ++ (f ∷ [])),
  length-pop_front (s.generations ++ (suc s.next_generation ∷ [])),
  Rising-append s.buffer_generation s.next_generation s.generations v.rising,
  Rising-pop_front s.buffer_generation (suc s.next_generation)
      (s.generations ++ (suc s.next_generation ∷ []))
      (Rising-append s.buffer_generation s.next_generation s.generations v.rising),
)

drop_front-IsValid : (s : FrameQueue) → IsValid s → IsValid (drop_front s)
drop_front-IsValid s v = ground (
  arith,
  length-pop_front s.queue,
  length-pop_front s.generations,
  Rising-pop_front s.buffer_generation s.next_generation s.generations v.rising,
)

-- The loop drops frames and leaves the last shown frame alone.
drop_loop-IsValid :
    (fs : List Frame) (s : FrameQueue) (target : ℕ)
    → IsValid s
    → let t = (drop_loop fs s target).0 in
      (IsValid t) × (t.buffer_generation ≡ s.buffer_generation) × (t.buffer_frame ≡ s.buffer_frame)
unfolding drop_loop
drop_loop-IsValid [] s target v = (v, refl, refl)
drop_loop-IsValid (f ∷ fs) s target v =
    ground (arith, drop_loop-IsValid fs (drop_front s) target (drop_front-IsValid s v))

-- What `take_front` and `hold_buffer` say of the frame that they return.
abbrev Newer : FrameQueue → FrameQueue × Popped → Type 0
Newer s (t, p) =
    (p.generation ≡ t.buffer_generation)
    × (p.frame ≡ t.buffer_frame)
    × ((p.reused ≡ false) × (s.buffer_generation < p.generation)
        ⊎ (p.reused ≡ true) × (p.generation ≡ s.buffer_generation) × (p.frame ≡ s.buffer_frame))

take_front_lem :
    (fs : List Frame) (gs : List ℕ) (s : FrameQueue)
    → s.queue ≡ fs
    → s.generations ≡ gs
    → IsValid s
    → IsValid (take_front fs s).0 × Newer s (take_front fs s)
take_front_lem [] gs s e g v = ground arith
take_front_lem (f ∷ fs) [] s e g v = ground arith
take_front_lem (f ∷ fs) (x ∷ gs) s e g v = ground arith

-- `pop` keeps the invariant. A frame that it does not mark as reused has a larger generation than
-- the last one shown; a reused one is the last one shown, under its generation.
pub pop-IsValid :
    (s : FrameQueue) (target : ℕ)
    → IsValid s
    → let (t, p) = pop s target in
      IsValid t
      × (p.generation ≡ t.buffer_generation)
      × (p.frame ≡ t.buffer_frame)
      × ((p.reused ≡ false) × (s.buffer_generation < p.generation)
          ⊎ (p.reused ≡ true) × (p.generation ≡ s.buffer_generation) × (p.frame ≡ s.buffer_frame))
unfolding pop
pop-IsValid s target v = ground (
  arith,
  take_front_lem s.queue s.generations s refl refl v,
  drop_loop-IsValid s.queue s target v,
  take_front_lem (drop_loop s.queue s target).0.queue (drop_loop s.queue s target).0.generations
      (drop_loop s.queue s target).0 refl refl (drop_loop-IsValid s.queue s target v).0,
)

cleanup-IsValid : (s : FrameQueue) → IsValid s → IsValid (cleanup s)
unfolding cleanup
cleanup-IsValid s v = ground arith
