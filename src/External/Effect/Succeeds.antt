-- ===== src/External/Effect/Succeeds.antt =====
-- Calls that return no error, from any world.
use Prim.{⊥}
use portal_conductor.Base.{String, Bool, true, false, List, [], ◌∷◌, if◌then◌else◌}
use portal_conductor.External.Effect.{
  Result, ok, err, Call, Done, context, wrapped, proceed, ◌>>=◌, deferring, try, pure, for_each,
}

abbrev pub IsOk : {A : Type 0} → Result A → Type 0
IsOk (ok a) = Unit
IsOk (err e) = ⊥

pub record Succeeds {W A : Type 0} (m : Call W A) : Type 0 where
  pub result : (w : W) → IsOk (m w).0

module _ {W A : Type 0} where
  pub Succeeds-context : (s : String) (m : Call W A) → Succeeds m → Succeeds (context s m)
  unfolding context
  Succeeds-context s m k = record { result = λ w. go (m w).0 (k.result w) }
    where
      go : (r : Result A) → IsOk r → IsOk (wrapped s r)
      go (ok a) h = tt
      go (err e) h = h

  pub Succeeds-deferring :
      (cleanup : W → W) (m : Call W A) → Succeeds m → Succeeds (deferring cleanup m)
  unfolding deferring
  Succeeds-deferring cleanup m k = record { result = k.result }

  pub Succeeds-pure : (a : A) → Succeeds (pure {W = W} a)
  unfolding pure
  Succeeds-pure a = record { result = λ w. tt }

  pub Succeeds-try : (m : Call W A) → Succeeds (try m)
  unfolding try
  Succeeds-try m = record { result = λ w. tt }

  pub Succeeds-if :
      (b : Bool) (m n : Call W A) → Succeeds m → Succeeds n → Succeeds (if b then m else n)
  Succeeds-if true m n km kn = km
  Succeeds-if false m n km kn = kn

module _ {W A B : Type 0} where
  pub Succeeds-bind :
      (m : Call W A) (f : A → Call W B)
      → Succeeds m
      → ((a : A) → Succeeds (f a))
      → Succeeds (m >>= f)
  unfolding ◌>>=◌
  Succeeds-bind m f k kf = record { result = λ w. go (m w).0 (m w).1 (k.result w) }
    where
      go : (r : Result A) (w : W) → IsOk r → IsOk (proceed r f w).0
      go (ok a) w h = (kf a).result w
      go (err e) w h = h

module _ {W : Type 0} where
  pub Succeeds-for_each {ℓ} :
      {A : Type ℓ} (body : A → Call W Done) (xs : List A)
      → ((x : A) → Succeeds (body x))
      → Succeeds (for_each body xs)
  unfolding for_each
  Succeeds-for_each body [] k = Succeeds-pure tt
  Succeeds-for_each body (x ∷ xs) k = Succeeds-bind _ _ (k x) (λ _. Succeeds-for_each body xs k)

pub ruleset succeeds_rules = (
  Succeeds-pure, Succeeds-try, Succeeds-if, Succeeds-bind, Succeeds-for_each, Succeeds-context,
  Succeeds-deferring,
)
