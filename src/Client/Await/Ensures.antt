-- ===== src/Client/Await/Ensures.antt =====
-- app/src/boosteroid_client.cpp: what holds of the result of a computation, part by part.
use booster_nx.Common.{Bool, true, false, if◌then◌else◌}
use booster_nx.Client.World.{
  Error, Result, ok, throws, World, M, pure, fail, bind_result, ◌>>=◌, caught, catch,
}

-- What holds of a result, if there is one.
abbrev pub Holds : {A : Type 0} → (A → Type 0) → Result A → Type 0
Holds Q (ok a) = Q a
Holds Q (throws e) = Unit {0}

module _ {A : Type 0} where
  pub record Ensures (Q : A → Type 0) (m : M A) : Type 0 where
    pub ensured : (w : World) → Holds Q (m w).0

  pub pure-Ensures : (Q : A → Type 0) (a : A) → Q a → Ensures Q (pure a)
  pure-Ensures Q a h = record { ensured = λ w. h }

  pub if-Ensures :
      (Q : A → Type 0) (b : Bool) (m k : M A)
      → Ensures Q m
      → Ensures Q k
      → Ensures Q (if b then m else k)
  if-Ensures Q true m k h l = h
  if-Ensures Q false m k h l = l

  caught-Ensures :
      (Q : A → Type 0) (h : M A) (p : Result A × World)
      → Holds Q p.0
      → Ensures Q h
      → Holds Q (caught h p).0
  caught-Ensures Q h (ok a, w) e k = e
  caught-Ensures Q h (throws x, w) e k = k.ensured w

  pub catch-Ensures :
      (Q : A → Type 0) (m h : M A) → Ensures Q m → Ensures Q h → Ensures Q (catch m h)
  catch-Ensures Q m h k l = record { ensured = λ w. caught-Ensures Q h (m w) (k.ensured w) l }

  any-Holds : (r : Result A) → Holds (λ a. Unit {0}) r
  any-Holds (ok a) = tt
  any-Holds (throws e) = tt

pub fail-Ensures : (A : Type 0) (Q : A → Type 0) (e : Error) → Ensures Q (fail {A = A} e)
fail-Ensures A Q e = record { ensured = λ w. tt }

module _ {A B : Type 0} where
  bind_result-Ensures :
      (P : A → Type 0) (Q : B → Type 0) (f : A → M B) (p : Result A × World)
      → Holds P p.0
      → ((a : A) → P a → Ensures Q (f a))
      → Holds Q (bind_result f p).0
  bind_result-Ensures P Q f (ok a, w) e h = (h a e).ensured w
  bind_result-Ensures P Q f (throws x, w) e h = tt

  pub bind-Ensures :
      (P : A → Type 0) (Q : B → Type 0) (m : M A) (f : A → M B)
      → Ensures P m
      → ((a : A) → P a → Ensures Q (f a))
      → Ensures Q (m >>= f)
  bind-Ensures P Q m f h k = record {
    ensured = λ w. bind_result-Ensures P Q f (m w) (h.ensured w) k;
  }

  -- The result of the first part does not matter.
  pub then-Ensures :
      (Q : B → Type 0) (m : M A) (f : A → M B) → ((a : A) → Ensures Q (f a)) → Ensures Q (m >>= f)
  then-Ensures Q m f k =
      bind-Ensures (λ a. Unit {0}) Q m f (record { ensured = λ w. any-Holds (m w).0 }) (λ a u. k a)
