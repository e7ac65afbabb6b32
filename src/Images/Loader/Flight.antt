-- ===== src/Images/Loader/Flight.antt =====
-- app/src/cover_image_cache.cpp: which requests are loading and which are queued, under every
-- interleaving of requests, workers and the shutdown.
use booster_nx.Common.{
  ℕ, ◌≡◌, refl, sym, ◌∙◌, ◌≢◌, inl, inr, Bool, true, false, Option, none, some, List, [], ◌∷◌,
  String, arith, Bool-cases, if◌then◌else◌,
}
use booster_nx.Common.Dict.{
  lookup, erase, lookup-erase_ne, lookup-erase_self, HasOneEach, erase-HasOneEach,
}
use booster_nx.Images.Memory.{Memory}
use booster_nx.Images.Memory.Insert.{IsSound, insert_memory_cache-IsSound}
use booster_nx.Images.Loader.{
  ImageLoader, PendingRequest, Event, ask, begin, shutdown, finish, step, run, finish_load,
  is_loading, release_worker, complete, remember, new_loader,
}
use booster_nx.Images.Loader.Requests.{
  release-Flying, release-Flying_kept, is_loading-release_ne, release-Distinct, length-release,
}
use booster_nx.Images.Loader.Valid.{IsConsistent, request-IsConsistent, stop-IsConsistent}
use booster_nx.Images.Loader.Taken.{begin_load-IsConsistent}

module _ {A : Type 0} (size : A → ℕ) where
  remember-IsSound :
      (url : String) (a : Option A) (c : Memory A)
      → IsSound size c
      → IsSound size (remember size url a c)
  remember-IsSound url none c s = s
  remember-IsSound url (some a) c s = insert_memory_cache-IsSound size url a c s

  release-IsConsistent :
      (url : String) (l : ImageLoader A)
      → l.stopping ≡ true
      → IsConsistent size l
      → IsConsistent size (record l { loading = release_worker url l.loading })
  release-IsConsistent url l stopped v = record {
    few = omega (arith, length-release url l.loading, v.few);
    distinct = release-Distinct url l.loading v.distinct;
    flying = release-Flying_kept url l.pending l.loading v.flying;
    one_each = v.one_each;
    sound = v.sound;
    waiting = λ live. absurd (cc (live, stopped));
    busy = λ live. absurd (cc (live, stopped));
  }

  erased_ne :
      (url j : String) (p : PendingRequest) (m : List (String × PendingRequest))
      → HasOneEach m
      → lookup j (erase url m) ≡ some p
      → url ≢ j
  erased_ne url j p m one f e =
      let gone : lookup j (erase url m) ≡ none = rw (← e) (lookup-erase_self url m one) in
      cc (gone, f)

  complete-IsConsistent :
      (url : String) (a : Option A) (l : ImageLoader A)
      → IsConsistent size l
      → IsConsistent size (complete size url a l)
  complete-IsConsistent url a l v = record {
    few = omega (arith, length-release url l.loading, v.few);
    distinct = release-Distinct url l.loading v.distinct;
    flying = release-Flying url l.pending l.loading v.distinct v.flying;
    one_each = erase-HasOneEach url l.pending v.one_each;
    sound = remember-IsSound url a l.memory v.sound;
    waiting = λ live j p f idle.
        let ne = erased_ne url j p l.pending v.one_each f in
        v.waiting live j p (sym (lookup-erase_ne url j l.pending ne) ∙ f) idle;
    busy = λ live j p f started.
        let ne = erased_ne url j p l.pending v.one_each f in
        is_loading-release_ne j url l.loading ne
        ∙ v.busy live j p (sym (lookup-erase_ne url j l.pending ne) ∙ f) started;
  }

  finish_stopping-IsConsistent :
      (url : String) (a : Option A) (l : ImageLoader A) (b : Bool)
      → l.stopping ≡ b
      → IsConsistent size l
      → IsConsistent size
          (if b then record l { loading = release_worker url l.loading } else complete size url a l)
  finish_stopping-IsConsistent url a l true e v = release-IsConsistent url l e v
  finish_stopping-IsConsistent url a l false e v = complete-IsConsistent url a l v

  finish_load-IsConsistent :
      (url : String) (a : Option A) (l : ImageLoader A)
      → IsConsistent size l
      → IsConsistent size (finish_load size url a l)
  unfolding finish_load
  finish_load-IsConsistent url a l v = elim (Bool-cases (is_loading url l.loading)) [
    | inl loads ↦ rw loads (finish_stopping-IsConsistent url a l l.stopping refl v)
    | inr other ↦ rw other v
  ]

  step-IsConsistent :
      (l : ImageLoader A) (v : Event A) → IsConsistent size l → IsConsistent size (step size l v)
  step-IsConsistent l (ask url pr c) h = request-IsConsistent size url pr c l h
  step-IsConsistent l begin h = begin_load-IsConsistent size l h
  step-IsConsistent l shutdown h = stop-IsConsistent size l h
  step-IsConsistent l (finish url a) h = finish_load-IsConsistent url a l h

  -- Whatever is requested, loaded and shut down in whatever order, a valid loader stays valid: at
  -- most three workers load, each another URL, no URL is pending twice, the cache in memory keeps
  -- its limit, and until the shutdown every pending request is loading or queued under its priority.
  pub run-IsConsistent :
      (l : ImageLoader A) (vs : List (Event A))
      → IsConsistent size l
      → IsConsistent size (run size l vs)
  unfolding run
  run-IsConsistent l [] h = h
  run-IsConsistent l (v ∷ vs) h = run-IsConsistent (step size l v) vs (step-IsConsistent l v h)

  pub new_loader-IsConsistent : IsConsistent size new_loader
  unfolding lookup
  new_loader-IsConsistent = record {
    few = omega arith;
    distinct = tt;
    flying = tt;
    one_each = tt;
    sound = record { counted = refl; within = omega arith; recent = tt };
    waiting = λ live k p e idle. absurd (cc (e));
    busy = λ live k p e started. absurd (cc (e));
  }
