-- ===== src/Images/Loader/Valid.antt =====
-- app/src/cover_image_cache.cpp: what holds of the loader between its steps, and that requests and the
-- shutdown keep it.
use booster_nx.Common.{
  ℕ, ◌≤◌, ◌≡◌, refl, sym, ◌∙◌, inl, inr, true, false, Option, none, some, List, length, String,
  arith, Bool-cases,
}
use booster_nx.Common.Dict.{lookup, insert, HasOneEach, insert-HasOneEach}
use booster_nx.Images.Memory.{Memory, MemoryEntry, touch}
use booster_nx.Images.Memory.Insert.{IsSound, touch-IsSound}
use booster_nx.Images.Loader.{
  ImageLoader, PendingRequest, Priority, request, enqueue, fresh, join, miss, answer, call_hit,
  is_raised, is_loading, add_completion, stop,
}
use booster_nx.Images.Loader.Queues.{In, In-enqueue, enqueue-In, queued, enqueue-SameRest}
use booster_nx.Images.Loader.Requests.{
  Flying, Distinct, Waiting, Busy, IsStarted, insert-Flying, insert-Waiting, insert-Busy,
}

module _ {A : Type 0} (size : A → ℕ) where
  -- At most three workers load, each another URL, which is pending and marked as started; no URL is
  -- pending twice; the cache in memory is sound. Until the shutdown, each pending request is
  -- loading, if it is marked as started, and else is queued under its priority.
  pub record IsConsistent (l : ImageLoader A) : Type 0 where
    pub few : length l.loading ≤ 3
    pub distinct : Distinct l.loading
    pub flying : Flying l.pending l.loading
    pub one_each : HasOneEach l.pending
    pub sound : IsSound size l.memory
    pub waiting : l.stopping ≡ false → Waiting (queued l) l.pending
    pub busy : l.stopping ≡ false → Busy l.pending l.loading

  Busy-is_loading :
      (k : String) (m : List (String × PendingRequest)) (us : List String)
      → Busy m us
      → (o : Option PendingRequest) → lookup k m ≡ o
      → IsStarted o
      → is_loading k us ≡ true
  Busy-is_loading k m us b none e h = absurd h
  Busy-is_loading k m us b (some p) e h = b k p e h

  -- A request put down again, with its mark and, if it has not started, its priority.
  put_request-IsConsistent :
      (url : String) (o : Option PendingRequest) (p : PendingRequest) (l : ImageLoader A)
      → lookup url l.pending ≡ o
      → (IsStarted o → p.started ≡ true)
      → (p.started ≡ true → IsStarted o)
      → (l.stopping ≡ false → p.started ≡ false → In (url, p.priority) (queued l))
      → IsConsistent l
      → IsConsistent (record l { pending = insert url p l.pending })
  put_request-IsConsistent url o p l e to from at_hand v = record {
    few = v.few;
    distinct = v.distinct;
    flying = insert-Flying url p l.pending l.loading (λ h. to (rw e at h)) v.flying;
    one_each = insert-HasOneEach url p l.pending v.one_each;
    sound = v.sound;
    waiting = λ live. insert-Waiting url p l.pending (queued l) (at_hand live) (v.waiting live);
    busy = λ live.
        insert-Busy url p l.pending l.loading
          (λ h. Busy-is_loading url l.pending l.loading (v.busy live) o e (from h)) (v.busy live);
  }

  -- A request put down and queued.
  enqueue-IsConsistent :
      (url : String) (o : Option PendingRequest) (p : PendingRequest) (l : ImageLoader A)
      → lookup url l.pending ≡ o
      → ¬ IsStarted o
      → p.started ≡ false
      → IsConsistent l
      → IsConsistent (enqueue url p.priority (record l { pending = insert url p l.pending }))
  enqueue-IsConsistent url o p l e idle fresh' v =
      let k = record l { pending = insert url p l.pending } in
      let s = enqueue-SameRest url p.priority k in
      record {
        few = rw s.loading v.few;
        distinct = rw s.loading v.distinct;
        flying =
            rw (s.loading, s.pending)
              (insert-Flying url p l.pending l.loading (λ h. absurd (idle (rw e at h))) v.flying);
        one_each = rw s.pending (insert-HasOneEach url p l.pending v.one_each);
        sound = rw s.memory v.sound;
        waiting = λ live. rw s.pending (
            insert-Waiting url p l.pending (queued (enqueue url p.priority k))
              (λ h. enqueue-In url p.priority k)
              (λ j r f g.
                In-enqueue (j, r.priority) url p.priority k
                  (v.waiting (sym s.stopping ∙ live) j r f g)));
        busy = λ live.
            rw (s.loading, s.pending)
              (insert-Busy url p l.pending l.loading (λ h. absurd (cc (h, fresh')))
                (v.busy (sym s.stopping ∙ live)));
      }

  join-IsConsistent :
      (url : String) (pr : Priority) (c : Option ℕ) (p : PendingRequest) (l : ImageLoader A)
      → lookup url l.pending ≡ some p
      → IsConsistent l
      → IsConsistent (join url pr c p l)
  join-IsConsistent url pr c p l e v =
      let q = record p { completions = add_completion c p.completions } in
      elim (Bool-cases (is_raised pr p)) [
        | inl raised ↦ rw raised (
            enqueue-IsConsistent url (some p) (record q { priority = pr }) l e
              (λ h. ground (arith, raised, h)) (ground (arith, raised)) v)
        | inr kept ↦ rw kept (
            put_request-IsConsistent url (some p) q l e (λ h. h) (λ h. h)
              (λ live idle. v.waiting live url p e idle) v)
      ]

  miss-IsConsistent :
      (url : String) (pr : Priority) (c : Option ℕ) (o : Option PendingRequest) (l : ImageLoader A)
      → lookup url l.pending ≡ o
      → IsConsistent l
      → IsConsistent (miss url pr c o l)
  miss-IsConsistent url pr c (some p) l e v = join-IsConsistent url pr c p l e v
  miss-IsConsistent url pr c none l e v =
      enqueue-IsConsistent url none (fresh pr c) l e (λ h. h) refl v

  call_hit-IsConsistent :
      (c : Option ℕ) (a : A) (l : ImageLoader A) → IsConsistent l → IsConsistent (call_hit c a l)
  call_hit-IsConsistent none a l v = v
  call_hit-IsConsistent (some c) a l v = record {
    few = v.few;
    distinct = v.distinct;
    flying = v.flying;
    one_each = v.one_each;
    sound = v.sound;
    waiting = v.waiting;
    busy = v.busy;
  }

  -- Another memory leaves the rest as it is.
  memory-IsConsistent :
      (c : Memory A) (l : ImageLoader A)
      → IsSound size c
      → IsConsistent l
      → IsConsistent (record l { memory = c })
  memory-IsConsistent c l s v = record {
    few = v.few;
    distinct = v.distinct;
    flying = v.flying;
    one_each = v.one_each;
    sound = s;
    waiting = v.waiting;
    busy = v.busy;
  }

  answer-IsConsistent :
      (url : String) (pr : Priority) (c : Option ℕ) (o : Option (MemoryEntry A)) (l : ImageLoader A)
      → lookup url l.memory.entries ≡ o
      → IsConsistent l
      → IsConsistent (answer url pr c o l)
  answer-IsConsistent url pr c (some e) l found v =
      call_hit-IsConsistent c e.image (record l { memory = touch url e l.memory })
        (memory-IsConsistent (touch url e l.memory) l
          (touch-IsSound size url e l.memory found v.sound) v)
  answer-IsConsistent url pr c none l found v =
      miss-IsConsistent url pr c (lookup url l.pending) l refl v

  pub request-IsConsistent :
      (url : String) (pr : Priority) (c : Option ℕ) (l : ImageLoader A)
      → IsConsistent l
      → IsConsistent (request url pr c l)
  unfolding request
  request-IsConsistent url pr c l v =
      answer-IsConsistent url pr c (lookup url l.memory.entries) l refl v

  pub stop-IsConsistent : (l : ImageLoader A) → IsConsistent l → IsConsistent (stop l)
  stop-IsConsistent l v = record {
    few = v.few;
    distinct = v.distinct;
    flying = v.flying;
    one_each = v.one_each;
    sound = v.sound;
    waiting = λ live. cc (live);
    busy = λ live. cc (live);
  }
