-- ===== src/Images/Loader/Served.antt =====
-- app/src/cover_image_cache.cpp: how often completions are called.
use mathlib.Core.Path.{subst}
use booster_nx.Common.{
  ℕ, ◌+◌, ◌≤◌, ◌≡◌, refl, ap, ◌∙◌, inl, inr, false, ◌||◌, not, Option, none, some, List, [], ◌∷◌,
  ◌++◌, length, ltb, ◌==◌, String, arith, Bool-cases, Option-cases, if◌then◌else◌,
}
use booster_nx.Common.Dict.{lookup, insert, erase, eq-nil_of_none}
use booster_nx.Images.Memory.{MemoryEntry, touch}
use booster_nx.Images.Loader.{
  ImageLoader, QueueEntry, PendingRequest, Priority, Event, ask, begin, shutdown, finish, step, run,
  request, begin_load, finish_load, begin_entry, begin_popped, enqueue, pop_next, fresh, miss,
  answer, call_hit, is_raised, is_stale, mark_started, is_loading, add_completion, complete,
  new_loader, call_all, completions_of,
}
use booster_nx.Images.Loader.Queues.{
  In, queued, SameRest, Popped, pop_next-Popped, enqueue-SameRest,
}
use booster_nx.Images.Loader.Valid.{IsConsistent}
use booster_nx.Images.Loader.Work.{IsIdle, idle_lem}
use booster_nx.Images.Loader.Flight.{run-IsConsistent, new_loader-IsConsistent}

-- How often a completion stands in a list, is waiting in the requests, and has been called.
abbrev pub count : ℕ → List ℕ → ℕ
count c [] = 0
count c (d ∷ ds) = (if d == c then 1 else 0) + count c ds

abbrev pub held : ℕ → List (String × PendingRequest) → ℕ
held c [] = 0
held c ((k, p) ∷ m) = count c p.completions + held c m

module _ {A : Type 0} where
  abbrev pub called : ℕ → List (ℕ × Option A) → ℕ
  called c [] = 0
  called c ((d, a) ∷ calls) = (if d == c then 1 else 0) + called c calls

  abbrev given_by : ℕ → Event A → ℕ
  given_by c (ask url pr (some d)) = if d == c then 1 else 0
  given_by c v = 0

  -- How often the events pass a completion to `Request`.
  abbrev pub given : ℕ → List (Event A) → ℕ
  given c [] = 0
  given c (v ∷ vs) = given_by c v + given c vs

  called-append :
      (c : ℕ) (xs ys : List (ℕ × Option A)) → called c (xs ++ ys) ≡ called c xs + called c ys
  called-append c [] ys = omega arith
  called-append c ((d, a) ∷ xs) ys = omega (arith, called-append c xs ys)

  called-call_all : (c : ℕ) (cs : List ℕ) (a : Option A) → called c (call_all cs a) ≡ count c cs
  called-call_all c [] a = refl
  called-call_all c (d ∷ cs) a = omega (arith, called-call_all c cs a)

count-append : (c : ℕ) (xs ys : List ℕ) → count c (xs ++ ys) ≡ count c xs + count c ys
count-append c [] ys = omega arith
count-append c (d ∷ xs) ys = omega (arith, count-append c xs ys)

held-insert :
    (c : ℕ) (k : String) (p : PendingRequest) (m : List (String × PendingRequest))
    → held c (insert k p m) + count c (completions_of (lookup k m))
      ≡ held c m + count c p.completions
unfolding insert lookup
held-insert c k p [] = omega arith
held-insert c k p ((j, q) ∷ m) = ground (arith, held-insert c k p m)

held-erase :
    (c : ℕ) (k : String) (m : List (String × PendingRequest))
    → held c (erase k m) + count c (completions_of (lookup k m)) ≡ held c m
unfolding erase lookup
held-erase c k [] = omega arith
held-erase c k ((j, q) ∷ m) = ground (arith, held-erase c k m)

abbrev one_of : ℕ → Option ℕ → ℕ
one_of c none = 0
one_of c (some d) = if d == c then 1 else 0

count-add_completion :
    (c : ℕ) (o : Option ℕ) (cs : List ℕ) → count c (add_completion o cs) ≡ count c cs + one_of c o
count-add_completion c none cs = omega arith
count-add_completion c (some d) cs = omega (arith, count-append c cs (d ∷ []))

module _ {A : Type 0} (size : A → ℕ) where
  -- The completions that have been called and those that wait.
  abbrev all_of : ℕ → ImageLoader A → ℕ
  all_of c l = called c l.calls + held c l.pending

  all_of-SameRest : (c : ℕ) (l k : ImageLoader A) → SameRest l k → all_of c k ≡ all_of c l
  all_of-SameRest c l k s = rw (s.calls, s.pending) refl

  all_of-enqueue :
      (c : ℕ) (url : String) (pr : Priority) (l : ImageLoader A)
      → all_of c (enqueue url pr l) ≡ all_of c l
  all_of-enqueue c url pr l = all_of-SameRest c l (enqueue url pr l) (enqueue-SameRest url pr l)

  all_of-miss :
      (c : ℕ) (url : String) (pr : Priority) (d : Option ℕ) (o : Option PendingRequest)
      (l : ImageLoader A)
      → lookup url l.pending ≡ o
      → all_of c (miss url pr d o l) ≡ all_of c l + one_of c d
  all_of-miss c url pr d none l e = omega (
    arith,
    all_of-enqueue c url pr (record l { pending = insert url (fresh pr d) l.pending }),
    held-insert c url (fresh pr d) l.pending,
    ap (λ x. count c (completions_of x)) e,
    count-add_completion c d [],
  )
  all_of-miss c url pr d (some p) l e =
      let cs = add_completion d p.completions in
      elim (Bool-cases (is_raised pr p)) [
        | inl raised ↦
            let q = record p { completions = cs; priority = pr } in
            rw raised (
              omega (
                arith,
                all_of-enqueue c url pr (record l { pending = insert url q l.pending }),
                held-insert c url q l.pending,
                ap (λ x. count c (completions_of x)) e,
                count-add_completion c d p.completions,
              ))
        | inr kept ↦
            let q = record p { completions = cs } in
            rw kept (
              omega (
                arith,
                held-insert c url q l.pending,
                ap (λ x. count c (completions_of x)) e,
                count-add_completion c d p.completions,
              ))
      ]

  all_of-call_hit :
      (c : ℕ) (d : Option ℕ) (a : A) (l : ImageLoader A)
      → all_of c (call_hit d a l) ≡ all_of c l + one_of c d
  all_of-call_hit c none a l = omega arith
  all_of-call_hit c (some d) a l = omega (arith, called-append c l.calls ((d, some a) ∷ []))

  all_of-answer :
      (c : ℕ) (url : String) (pr : Priority) (d : Option ℕ) (o : Option (MemoryEntry A))
      (l : ImageLoader A)
      → all_of c (answer url pr d o l) ≡ all_of c l + one_of c d
  all_of-answer c url pr d (some e) l =
      all_of-call_hit c d e.image (record l { memory = touch url e l.memory })
  all_of-answer c url pr d none l = all_of-miss c url pr d (lookup url l.pending) l refl

  completions-mark_started :
      (pr : Priority) (o : Option PendingRequest)
      → is_stale pr o ≡ false
      → (mark_started o).completions ≡ completions_of o
  completions-mark_started pr none h = absurd (cc)
  completions-mark_started pr (some p) h = refl

  all_of-begin_entry :
      (c : ℕ) (e : QueueEntry) (l : ImageLoader A) → all_of c (begin_entry e l) ≡ all_of c l
  all_of-begin_entry c e l = elim (Bool-cases (is_stale e.1 (lookup e.0 l.pending))) [
    | inl stale ↦ rw stale refl
    | inr current ↦
        let r = mark_started (lookup e.0 l.pending) in
        rw current (
          omega (
            arith,
            held-insert c e.0 r l.pending,
            ap (λ cs. count c cs) (completions-mark_started e.1 (lookup e.0 l.pending) current),
          ))
  ]

  all_of-begin_popped :
      (c : ℕ) (l : ImageLoader A) (o : Option (QueueEntry × ImageLoader A))
      → Popped l o
      → all_of c (begin_popped l o) ≡ all_of c l
  all_of-begin_popped c l none h = refl
  all_of-begin_popped c l (some (e, k)) h = all_of-begin_entry c e k ∙ all_of-SameRest c l k h.1

  all_of-begin_load : (c : ℕ) (l : ImageLoader A) → all_of c (begin_load l) ≡ all_of c l
  unfolding begin_load
  all_of-begin_load c l = elim (Bool-cases (l.stopping || not (ltb (length l.loading) 3))) [
    | inl busy ↦ rw busy refl
    | inr free ↦ rw free (all_of-begin_popped c l (pop_next l) (pop_next-Popped l))
  ]

  all_of-complete :
      (c : ℕ) (url : String) (a : Option A) (l : ImageLoader A)
      → all_of c (complete size url a l) ≡ all_of c l
  all_of-complete c url a l =
      let cs = completions_of (lookup url l.pending) in
      omega (
        arith,
        called-append c l.calls (call_all cs a),
        called-call_all c cs a,
        held-erase c url l.pending,
      )

  all_of-finish_load :
      (c : ℕ) (url : String) (a : Option A) (l : ImageLoader A)
      → all_of c (finish_load size url a l) ≡ all_of c l
  unfolding finish_load
  all_of-finish_load c url a l = elim (Bool-cases (is_loading url l.loading)) [
    | inl loads ↦ rw loads (elim (Bool-cases l.stopping) [
      | inl stopped ↦ rw stopped refl
      | inr live ↦ rw live (all_of-complete c url a l)
    ])
    | inr other ↦ rw other refl
  ]

  all_of-step :
      (c : ℕ) (l : ImageLoader A) (v : Event A)
      → all_of c (step size l v) ≡ all_of c l + given_by c v
  unfolding request
  all_of-step c l (ask url pr (some d)) =
      all_of-answer c url pr (some d) (lookup url l.memory.entries) l
  all_of-step c l (ask url pr none) = all_of-answer c url pr none (lookup url l.memory.entries) l
  all_of-step c l begin = omega (arith, all_of-begin_load c l)
  all_of-step c l shutdown = omega arith
  all_of-step c l (finish url a) = omega (arith, all_of-finish_load c url a l)

  all_of-run :
      (c : ℕ) (vs : List (Event A)) (l : ImageLoader A)
      → all_of c (run size l vs) ≡ all_of c l + given c vs
  unfolding run
  all_of-run c [] l = omega arith
  all_of-run c (v ∷ vs) l = omega (arith, all_of-run c vs (step size l v), all_of-step c l v)

  -- A loader that has nothing to do holds no request.
  none_pending :
      (l : ImageLoader A)
      → IsConsistent size l
      → l.stopping ≡ false
      → queued l ≡ []
      → l.loading ≡ []
      → l.pending ≡ []
  none_pending l v live no_queue no_load = eq-nil_of_none l.pending (λ k.
      elim (Option-cases (lookup k l.pending)) [
        | inl e ↦ e
        | inr (p, e) ↦ elim (Bool-cases p.started) [
          | inl started ↦
              absurd (cc (v.busy live k p e started, ap (λ us. is_loading k us) no_load))
          | inr idle ↦
              absurd (subst (λ q. In (k, p.priority) q) no_queue (v.waiting live k p e idle))
        ]
      ])

  -- From a new loader, in every order of events: no completion is called more often than it was
  -- given to `Request`. While the loader has not been shut down and no worker can do anything, each
  -- has been called as often.
  pub run-serves_all :
      (vs : List (Event A)) (c : ℕ)
      → (called c (run size new_loader vs).calls ≤ given c vs)
        × ((run size new_loader vs).stopping ≡ false
            → IsIdle size (run size new_loader vs)
            → called c (run size new_loader vs).calls ≡ given c vs)
  run-serves_all vs c =
      let l = run size new_loader vs in
      (
        omega (arith, all_of-run c vs new_loader),
        λ live idle.
            let (no_queue, no_load) = idle_lem size l live idle in
            omega (
              arith,
              all_of-run c vs new_loader,
              ap (λ m. held c m)
                  (none_pending l
                    (run-IsConsistent size new_loader vs (new_loader-IsConsistent size)) live
                    no_queue no_load),
            ),
      )
