-- ===== src/Images/Loader/Queues.antt =====
-- app/src/cover_image_cache.cpp: the three queues of the loader, as one.
use booster_nx.Common.{
  ◌≡◌, refl, ap, ◌⊎◌, inl, inr, Option, none, some, List, [], ◌∷◌, ◌++◌, String,
}
use booster_nx.Images.Loader.{
  ImageLoader, QueueEntry, Priority, prefetch, normal, critical, enqueue, pop_from, pop_next,
}

abbrev pub In : QueueEntry → List QueueEntry → Type 0
In e [] = ⊥
In e (f ∷ q) = (e ≡ f) ⊎ In e q

In-append_left : (e : QueueEntry) (q r : List QueueEntry) → In e q → In e (q ++ r)
In-append_left e [] r h = absurd h
In-append_left e (f ∷ q) r (inl h) = inl h
In-append_left e (f ∷ q) r (inr h) = inr (In-append_left e q r h)

In-append_right : (e : QueueEntry) (q r : List QueueEntry) → In e r → In e (q ++ r)
In-append_right e [] r h = h
In-append_right e (f ∷ q) r h = inr (In-append_right e q r h)

In-append : (e : QueueEntry) (q r : List QueueEntry) → In e (q ++ r) → In e q ⊎ In e r
In-append e [] r h = inr h
In-append e (f ∷ q) r (inl h) = inl (inl h)
In-append e (f ∷ q) r (inr h) = elim (In-append e q r h) [ inl x ↦ inl (inr x) | inr y ↦ inr y ]

-- An entry put into the middle: those that were there stay.
In-middle : (e : QueueEntry) (q m r : List QueueEntry) → In e (q ++ r) → In e ((q ++ m) ++ r)
In-middle e q m r h = elim (In-append e q r h) [
  | inl x ↦ In-append_left e (q ++ m) r (In-append_left e q m x)
  | inr y ↦ In-append_right e (q ++ m) r y
]

In-new : (e : QueueEntry) (q r : List QueueEntry) → In e ((q ++ (e ∷ [])) ++ r)
In-new e q r = In-append_left e (q ++ (e ∷ [])) r (In-append_right e q (e ∷ []) (inl refl))

module _ {A : Type 0} where
  -- The entries in the order in which `PopNext` takes them.
  abbrev pub queued : ImageLoader A → List QueueEntry
  queued l = l.critical_queue ++ (l.normal_queue ++ l.prefetch_queue)

  pub In-enqueue :
      (e : QueueEntry) (url : String) (pr : Priority) (l : ImageLoader A)
      → In e (queued l)
      → In e (queued (enqueue url pr l))
  In-enqueue e url critical l h =
      In-middle e l.critical_queue ((url, critical) ∷ []) (l.normal_queue ++ l.prefetch_queue) h
  In-enqueue e url normal l h = elim (In-append e l.critical_queue _ h) [
    | inl x ↦ In-append_left e l.critical_queue _ x
    | inr y ↦
        In-append_right e l.critical_queue _
          (In-middle e l.normal_queue ((url, normal) ∷ []) l.prefetch_queue y)
  ]
  In-enqueue e url prefetch l h = elim (In-append e l.critical_queue _ h) [
    | inl x ↦ In-append_left e l.critical_queue _ x
    | inr y ↦ In-append_right e l.critical_queue _ (elim (In-append e l.normal_queue _ y) [
      | inl u ↦ In-append_left e l.normal_queue _ u
      | inr v ↦ In-append_right e l.normal_queue _ (In-append_left e l.prefetch_queue _ v)
    ])
  ]

  pub enqueue-In :
      (url : String) (pr : Priority) (l : ImageLoader A) → In (url, pr) (queued (enqueue url pr l))
  enqueue-In url critical l =
      In-new (url, critical) l.critical_queue (l.normal_queue ++ l.prefetch_queue)
  enqueue-In url normal l =
      In-append_right (url, normal) l.critical_queue _
        (In-new (url, normal) l.normal_queue l.prefetch_queue)
  enqueue-In url prefetch l =
      In-append_right (url, prefetch) l.critical_queue _
        (In-append_right (url, prefetch) l.normal_queue _
          (In-append_right (url, prefetch) l.prefetch_queue _ (inl refl)))

  -- The rest of the loader is left alone.
  pub record SameRest (l k : ImageLoader A) : Type 0 where
    pub pending : k.pending ≡ l.pending
    pub memory : k.memory ≡ l.memory
    pub stopping : k.stopping ≡ l.stopping
    pub loading : k.loading ≡ l.loading
    pub calls : k.calls ≡ l.calls

  -- What `PopNext` returns: the front of the queues, if there is one.
  abbrev pub Popped : ImageLoader A → Option (QueueEntry × ImageLoader A) → Type 0
  Popped l none = queued l ≡ []
  Popped l (some (e, k)) = (queued l ≡ e ∷ queued k) × SameRest l k

  pop_from-Popped :
      (c n p : List QueueEntry) (l : ImageLoader A)
      → l.critical_queue ≡ c
      → l.normal_queue ≡ n
      → l.prefetch_queue ≡ p
      → Popped l (pop_from c n p l)
  pop_from-Popped (e ∷ c) n p l hc hn hp = (
    ap (λ q. q ++ (l.normal_queue ++ l.prefetch_queue)) hc,
    record { pending = refl; memory = refl; stopping = refl; loading = refl; calls = refl },
  )
  pop_from-Popped [] (e ∷ n) p l hc hn hp = (
    simp (hc, hn),
    record { pending = refl; memory = refl; stopping = refl; loading = refl; calls = refl },
  )
  pop_from-Popped [] [] (e ∷ p) l hc hn hp = (
    simp (hc, hn, hp),
    record { pending = refl; memory = refl; stopping = refl; loading = refl; calls = refl },
  )
  pop_from-Popped [] [] [] l hc hn hp = simp (hc, hn, hp)

  pub pop_next-Popped : (l : ImageLoader A) → Popped l (pop_next l)
  pop_next-Popped l =
      pop_from-Popped l.critical_queue l.normal_queue l.prefetch_queue l refl refl refl

  pub enqueue-SameRest :
      (url : String) (pr : Priority) (l : ImageLoader A) → SameRest l (enqueue url pr l)
  enqueue-SameRest url critical l = record {
    pending = refl;
    memory = refl;
    stopping = refl;
    loading = refl;
    calls = refl;
  }
  enqueue-SameRest url normal l = record {
    pending = refl;
    memory = refl;
    stopping = refl;
    loading = refl;
    calls = refl;
  }
  enqueue-SameRest url prefetch l = record {
    pending = refl;
    memory = refl;
    stopping = refl;
    loading = refl;
    calls = refl;
  }
