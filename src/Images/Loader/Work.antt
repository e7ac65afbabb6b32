-- ===== src/Images/Loader/Work.antt =====
-- app/src/cover_image_cache.cpp: the work that is left for the workers.
use booster_nx.Common.{
  ℕ, ◌+◌, ◌*◌, ◌≤◌, ◌<◌, ◌≡◌, refl, ap, ◌≢◌, ◌⊎◌, inl, inr, true, false, ◌||◌, not, Option, none,
  some, List, [], ◌∷◌, length, length-append, ltb, String, arith, Bool-cases,
}
use booster_nx.Common.Dict.{same_self, lookup}
use booster_nx.Images.Loader.{
  ImageLoader, QueueEntry, Event, ask, begin, shutdown, finish, step, begin_load, finish_load,
  begin_entry, begin_popped, pop_next, is_stale, is_loading, release_worker,
}
use booster_nx.Images.Loader.Queues.{queued, Popped, pop_next-Popped}

length-release_lt :
    (k : String) (us : List String)
    → is_loading k us ≡ true
    → length (release_worker k us) < length us
length-release_lt k [] h = absurd (cc)
length-release_lt k (u ∷ us) h = ground (arith, h, length-release_lt k us)

module _ {A : Type 0} (size : A → ℕ) where
  -- A step of a worker.
  abbrev pub IsWork : Event A → Type 0
  IsWork begin = Unit {0}
  IsWork (finish url a) = Unit {0}
  IsWork v = ⊥

  -- No worker can do anything.
  abbrev pub IsIdle : ImageLoader A → Type 0
  IsIdle l = (v : Event A) → IsWork v → step size l v ≡ l

  -- An entry is taken and a load is finished.
  abbrev pub work_left : ImageLoader A → ℕ
  work_left l = 2 * length (queued l) + length l.loading

  work_left-begin_entry :
      (e : QueueEntry) (l : ImageLoader A) → work_left (begin_entry e l) ≤ work_left l + 1
  work_left-begin_entry e l = elim (Bool-cases (is_stale e.1 (lookup e.0 l.pending))) [
    | inl stale ↦ rw stale (omega arith)
    | inr current ↦ rw current (omega (arith, length-append l.loading (e.0 ∷ [])))
  ]

  work_left-begin_popped :
      (l : ImageLoader A) (o : Option (QueueEntry × ImageLoader A))
      → Popped l o
      → ((o ≡ none) × (queued l ≡ [])) ⊎ (work_left (begin_popped l o) < work_left l)
  work_left-begin_popped l none h = inl (refl, h)
  work_left-begin_popped l (some (e, k)) h = inr (
      omega (
        arith,
        work_left-begin_entry e k,
        ap (λ (q : List QueueEntry). length q) h.0,
        ap (λ (us : List String). length us) h.1.loading,
      ))

  -- A free worker with something queued takes work away.
  begin_load-works :
      (l : ImageLoader A) → (begin_load l ≡ l) ⊎ (work_left (begin_load l) < work_left l)
  unfolding begin_load
  begin_load-works l = elim (Bool-cases (l.stopping || not (ltb (length l.loading) 3))) [
    | inl busy ↦ rw busy (inl refl)
    | inr free ↦ rw free (elim (work_left-begin_popped l (pop_next l) (pop_next-Popped l)) [
      | inl (nothing, empty) ↦ inl (ap (λ o. begin_popped l o) nothing)
      | inr less ↦ inr less
    ])
  ]

  finish_load_less :
      (url : String) (a : Option A) (l : ImageLoader A)
      → is_loading url l.loading ≡ true
      → work_left (finish_load size url a l) < work_left l
  unfolding finish_load
  finish_load_less url a l loads = rw loads (elim (Bool-cases l.stopping) [
    | inl stopped ↦ rw stopped (omega (arith, length-release_lt url l.loading loads))
    | inr live ↦ rw live (omega (arith, length-release_lt url l.loading loads))
  ])

  finish_load-works :
      (url : String) (a : Option A) (l : ImageLoader A)
      → (finish_load size url a l ≡ l) ⊎ (work_left (finish_load size url a l) < work_left l)
  finish_load-works url a l = elim (Bool-cases (is_loading url l.loading)) [
    | inl loads ↦ inr (finish_load_less url a l loads)
    | inr other ↦ inl (unfold finish_load in rw other refl)
  ]

  step-works :
      (l : ImageLoader A) (v : Event A)
      → IsWork v
      → (step size l v ≡ l) ⊎ (work_left (step size l v) < work_left l)
  step-works l (ask url pr c) w = absurd w
  step-works l begin w = begin_load-works l
  step-works l shutdown w = absurd w
  step-works l (finish url a) w = finish_load-works url a l

  -- A sequence of steps of workers, each of which does something.
  abbrev pub Works : ImageLoader A → List (Event A) → Type 0
  Works l [] = Unit {0}
  Works l (v ∷ vs) = IsWork v × (step size l v ≢ l) × Works (step size l v) vs

  -- Without new requests the workers come to rest: however they are scheduled and whatever `Load`
  -- answers, they do at most two steps for each queued entry and one for each load under way.
  pub length-Works-le :
      (vs : List (Event A)) (l : ImageLoader A)
      → Works l vs
      → length vs ≤ 2 * length (queued l) + length l.loading
  length-Works-le [] l w = omega arith
  length-Works-le (v ∷ vs) l w = elim (step-works l v w.0) [
    | inl nothing ↦ absurd (w.1 nothing)
    | inr less ↦ omega (arith, less, length-Works-le vs (step size l v) w.2)
  ]

  begin_popped_empty :
      (l : ImageLoader A) (o : Option (QueueEntry × ImageLoader A))
      → Popped l o
      → begin_popped l o ≡ l
      → queued l ≡ []
  begin_popped_empty l o h e = elim (work_left-begin_popped l o h) [
    | inl (nothing, empty) ↦ empty
    | inr less ↦ absurd (omega (arith, less, ap (λ k. work_left k) e))
  ]

  begin_load_empty :
      (l : ImageLoader A) → l.stopping ≡ false → l.loading ≡ [] → begin_load l ≡ l → queued l ≡ []
  unfolding begin_load
  begin_load_empty l live no_load e =
      let free : (l.stopping || not (ltb (length l.loading) 3)) ≡ false =
        ground (arith, live, ap (λ (us : List String). length us) no_load) in
      begin_popped_empty l (pop_next l) (pop_next-Popped l) (rw free at e)

  idle-no_load : (l : ImageLoader A) (us : List String) → l.loading ≡ us → IsIdle l → l.loading ≡ []
  idle-no_load l [] e idle = e
  idle-no_load l (u ∷ us) e idle =
      let loads : is_loading u l.loading ≡ true = rw e (ground (arith, same_self u)) in
      absurd (
        omega
          (arith, finish_load_less u none l loads, ap (λ k. work_left k) (idle (finish u none) tt)))

  pub idle_lem :
      (l : ImageLoader A) → l.stopping ≡ false → IsIdle l → (queued l ≡ []) × (l.loading ≡ [])
  idle_lem l live idle =
      let no_load = idle-no_load l l.loading refl idle in
      (begin_load_empty l live no_load (idle begin tt), no_load)
