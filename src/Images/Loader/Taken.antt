-- ===== src/Images/Loader/Taken.antt =====
-- app/src/cover_image_cache.cpp: a worker takes an entry off the queues.
use mathlib.Core.Path.{subst}
use booster_nx.Common.{
  ℕ, ◌+◌, ◌≤◌, ◌≡◌, refl, sym, ap, ◌∙◌, ◌≢◌, inl, inr, true, false, ◌||◌, not, Option, none, some,
  List, [], ◌∷◌, ◌++◌, length, length-append, ltb, String, arith, Bool-cases,
}
use booster_nx.Common.Dict.{
  same, same_self, same_iff, lookup, insert, lookup-insert, HasOneEach, insert-HasOneEach,
}
use booster_nx.Images.Memory.Insert.{IsSound}
use booster_nx.Images.Loader.{
  ImageLoader, QueueEntry, PendingRequest, Priority, rank, begin_load, begin_entry, begin_popped,
  pop_next, is_stale, mark_started, is_loading,
}
use booster_nx.Images.Loader.Queues.{In, queued, SameRest, Popped, pop_next-Popped}
use booster_nx.Images.Loader.Requests.{
  Flying, Distinct, Waiting, Busy, IsStarted, insert-Flying, insert-Busy, Flying-IsStarted,
  is_loading-append, append-Distinct, append-Flying,
}
use booster_nx.Images.Loader.Valid.{IsConsistent}

module _ {A : Type 0} (size : A → ℕ) where
  -- An entry taken off the queues that is not stale belongs to a request that has not started.
  is_stale-idle :
      (pr : Priority) (o : Option PendingRequest) → is_stale pr o ≡ false → ¬ IsStarted o
  is_stale-idle pr none h = λ s. s
  is_stale-idle pr (some p) h = λ s. ground (arith, h, s)

  mark_started-started :
      (pr : Priority) (o : Option PendingRequest)
      → is_stale pr o ≡ false
      → (mark_started o).started ≡ true
  mark_started-started pr none h = absurd (cc)
  mark_started-started pr (some p) h = refl

  stale_elsewhere :
      (pr : Priority) (p : PendingRequest)
      → p.started ≡ false
      → is_stale pr (some p) ≡ true
      → p.priority ≢ pr
  stale_elsewhere pr p idle stale e = ground (arith, stale, idle, ap rank e)

  -- The rest of the queue holds every request but the one that was taken.
  Waiting-rest :
      (e : QueueEntry) (q : List QueueEntry) (m : List (String × PendingRequest))
      → is_stale e.1 (lookup e.0 m) ≡ true
      → Waiting (e ∷ q) m
      → Waiting q m
  Waiting-rest e q m stale w j p f idle = elim (w j p f idle) [
    | inl same_entry ↦
        let here : lookup e.0 m ≡ some p =
          sym (ap (λ (x : QueueEntry). lookup x.0 m) same_entry) ∙ f in
        absurd (
          stale_elsewhere e.1 p idle (sym (ap (λ o. is_stale e.1 o) here) ∙ stale)
            (ap (λ (x : QueueEntry). x.1) same_entry))
    | inr later ↦ later
  ]

  Waiting-begin :
      (e : QueueEntry) (q : List QueueEntry) (v : PendingRequest)
      (m : List (String × PendingRequest))
      → v.started ≡ true
      → Waiting (e ∷ q) m
      → Waiting q (insert e.0 v m)
  Waiting-begin e q v m started w j p f idle = elim (Bool-cases (same e.0 j)) [
    | inl mine ↦
        let ev : some v ≡ some p = rw (lookup-insert e.0 j v m, mine) at f in
        absurd (cc (ev, started, idle))
    | inr other ↦ elim (w j p (rw (lookup-insert e.0 j v m, other) at f) idle) [
      | inl same_entry ↦
          absurd
            (ground (arith, other, same_iff e.0 j, sym (ap (λ (x : QueueEntry). x.0) same_entry)))
      | inr later ↦ later
    ]
  ]

  Busy-append :
      (u : String) (m : List (String × PendingRequest)) (us : List String)
      → Busy m us
      → Busy m (us ++ (u ∷ []))
  Busy-append u m us b j p f started = ground (arith, is_loading-append j u us, b j p f started)

  begin_entry-IsConsistent :
      (e : QueueEntry) (l k : ImageLoader A)
      → queued l ≡ e ∷ queued k
      → SameRest l k
      → length l.loading + 1 ≤ 3
      → IsConsistent size l
      → IsConsistent size (begin_entry e k)
  begin_entry-IsConsistent e l k front s room v =
      let w : k.stopping ≡ false → Waiting (e ∷ queued k) k.pending = λ live j p f idle.
        subst (λ q. In (j, p.priority) q) front
          (v.waiting (sym s.stopping ∙ live) j p (rw s.pending at f) idle) in
      let busy : k.stopping ≡ false → Busy k.pending k.loading =
        λ live. rw (s.pending, s.loading) (v.busy (sym s.stopping ∙ live)) in
      let flying : Flying k.pending k.loading = rw (s.pending, s.loading) v.flying in
      let distinct : Distinct k.loading = rw s.loading v.distinct in
      let one_each : HasOneEach k.pending = rw s.pending v.one_each in
      let sound : IsSound size k.memory = rw s.memory v.sound in
      elim (Bool-cases (is_stale e.1 (lookup e.0 k.pending))) [
        | inl stale ↦ rw stale (record {
          few = rw s.loading v.few;
          distinct = distinct;
          flying = flying;
          one_each = one_each;
          sound = sound;
          waiting = λ live. Waiting-rest e (queued k) k.pending stale (w live);
          busy = busy;
        })
        | inr current ↦
            let r = mark_started (lookup e.0 k.pending) in
            let started : r.started ≡ true =
              mark_started-started e.1 (lookup e.0 k.pending) current in
            rw current (record {
              few = omega (
                arith,
                length-append k.loading (e.0 ∷ []),
                ap (λ (us : List String). length us) s.loading,
                room,
              );
              distinct =
                  append-Distinct e.0 k.loading
                    (elim (Bool-cases (is_loading e.0 k.loading)) [
                      | inl taken ↦ absurd (
                          is_stale-idle e.1 (lookup e.0 k.pending) current
                            (Flying-IsStarted e.0 k.pending k.loading flying taken))
                      | inr free ↦ free
                    ])
                    distinct;
              flying =
                  append-Flying e.0 (insert e.0 r k.pending) k.loading
                    (rw (lookup-insert e.0 e.0 r k.pending, same_self e.0) started)
                    (insert-Flying e.0 r k.pending k.loading (λ h. started) flying);
              one_each = insert-HasOneEach e.0 r k.pending one_each;
              sound = sound;
              waiting = λ live. Waiting-begin e (queued k) r k.pending started (w live);
              busy = λ live.
                  insert-Busy e.0 r k.pending (k.loading ++ (e.0 ∷ []))
                    (λ h. ground (arith, is_loading-append e.0 e.0 k.loading, same_self e.0))
                    (Busy-append e.0 k.pending k.loading (busy live));
            })
      ]

  begin_popped-IsConsistent :
      (l : ImageLoader A) (o : Option (QueueEntry × ImageLoader A))
      → Popped l o
      → length l.loading + 1 ≤ 3
      → IsConsistent size l
      → IsConsistent size (begin_popped l o)
  begin_popped-IsConsistent l none h room v = v
  begin_popped-IsConsistent l (some (e, k)) h room v = begin_entry-IsConsistent e l k h.0 h.1 room v

  pub begin_load-IsConsistent :
      (l : ImageLoader A) → IsConsistent size l → IsConsistent size (begin_load l)
  unfolding begin_load
  begin_load-IsConsistent l v = elim (Bool-cases (l.stopping || not (ltb (length l.loading) 3))) [
    | inl busy ↦ rw busy v
    | inr free ↦
        rw free
          (begin_popped-IsConsistent l (pop_next l) (pop_next-Popped l) (ground (arith, free)) v)
  ]
