-- ===== src/External/Effect/Keeps.antt =====
-- What a call leaves as it was: one rule for each way to build a call.
use portal_conductor.Base.{String, Bool, true, false, List, [], ◌∷◌, if◌then◌else◌}
use portal_conductor.External.{Error}
use portal_conductor.External.Effect.{
  Result, ok, err, Call, Done, pure, fail, lift, context, rethrow, try, observe, proceed, ◌>>=◌,
  when, for_each, deferring, only_on_error, on_error,
}

-- The call ends in a world where `P` still holds, with or without an error.
pub record Keeps {W A : Type 0} (P : W → Type 0) (m : Call W A) : Type 0 where
  pub after : (w : W) → P w → P (m w).1

module _ {W A : Type 0} {P : W → Type 0} where
  pub Keeps-pure : (a : A) → Keeps P (pure a)
  unfolding pure
  Keeps-pure a = record { after = λ w h. h }

  pub Keeps-fail : (e : Error) → Keeps P (fail {A = A} e)
  unfolding fail
  Keeps-fail e = record { after = λ w h. h }

  pub Keeps-lift : (r : Result A) → Keeps P (lift r)
  unfolding lift
  Keeps-lift r = record { after = λ w h. h }

  pub Keeps-context : (s : String) (m : Call W A) → Keeps P m → Keeps P (context s m)
  unfolding context
  Keeps-context s m k = record { after = k.after }

  pub Keeps-rethrow : (f : Error → Error) (m : Call W A) → Keeps P m → Keeps P (rethrow f m)
  unfolding rethrow
  Keeps-rethrow f m k = record { after = k.after }

  pub Keeps-try : (m : Call W A) → Keeps P m → Keeps P (try m)
  unfolding try
  Keeps-try m k = record { after = k.after }

  pub Keeps-observe : (m : W → A × W) → ((w : W) → P w → P (m w).1) → Keeps P (observe m)
  unfolding observe
  Keeps-observe m k = record { after = k }

  pub Keeps-if : (b : Bool) (m n : Call W A) → Keeps P m → Keeps P n → Keeps P (if b then m else n)
  Keeps-if true m n km kn = km
  Keeps-if false m n km kn = kn

  pub Keeps-deferring :
      (cleanup : W → W) (m : Call W A)
      → ((w : W) → P w → P (cleanup w))
      → Keeps P m
      → Keeps P (deferring cleanup m)
  unfolding deferring
  Keeps-deferring cleanup m kc km = record { after = λ w h. kc (m w).1 (km.after w h) }

  pub Keeps-on_error :
      (cleanup : W → W) (m : Call W A)
      → ((w : W) → P w → P (cleanup w))
      → Keeps P m
      → Keeps P (on_error cleanup m)
  unfolding on_error
  Keeps-on_error cleanup m kc km = record { after = λ w h. go (m w).0 (m w).1 (km.after w h) }
    where
      go : (r : Result A) (w : W) → P w → P (only_on_error cleanup r w)
      go (ok a) w h = h
      go (err e) w h = kc w h

module _ {W A B : Type 0} {P : W → Type 0} where
  proceed_after :
      (r : Result A) (f : A → Call W B) → ((a : A) → Keeps P (f a)) → Keeps P (proceed r f)
  proceed_after (ok a) f kf = record { after = (kf a).after }
  proceed_after (err e) f kf = record { after = λ w h. h }

  pub Keeps-bind :
      (m : Call W A) (f : A → Call W B) → Keeps P m → ((a : A) → Keeps P (f a)) → Keeps P (m >>= f)
  unfolding ◌>>=◌
  Keeps-bind m f km kf = record {
    after = λ w h. (proceed_after (m w).0 f kf).after (m w).1 (km.after w h);
  }

module _ {W : Type 0} {P : W → Type 0} where
  pub Keeps-when : (b : Bool) (m : Call W Done) → Keeps P m → Keeps P (when b m)
  unfolding when pure
  Keeps-when true m k = k
  Keeps-when false m k = Keeps-pure tt

  pub Keeps-for_each {ℓ} :
      {A : Type ℓ} (body : A → Call W Done) (xs : List A)
      → ((x : A) → Keeps P (body x))
      → Keeps P (for_each body xs)
  unfolding for_each pure
  Keeps-for_each body [] k = Keeps-pure tt
  Keeps-for_each body (x ∷ xs) k =
      Keeps-bind (body x) (λ _. for_each body xs) (k x) (λ _. Keeps-for_each body xs k)

pub ruleset keeps_rules = (
  Keeps-pure, Keeps-fail, Keeps-lift, Keeps-context, Keeps-rethrow, Keeps-try, Keeps-if, Keeps-bind,
  Keeps-when, Keeps-for_each, Keeps-deferring, Keeps-on_error, Keeps-observe,
)
