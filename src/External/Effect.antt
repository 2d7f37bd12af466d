-- ===== src/External/Effect.antt =====
-- A Go function that calls outside services and may return an error: it takes the state of the
-- world to a result and the new state. What was done before an error stays done.
pub mod Keeps
pub mod Triple
pub mod Succeeds
pub mod Costs
use portal_conductor.Base.{String, Bool, true, false, Option, none, some, List, [], ◌∷◌}
use portal_conductor.External.{Error, wrap}

pub data Result (A : Type 0) : Type 0 where
  ok : A → Result A
  err : Error → Result A

abbrev pub Call : Type 0 → Type 0 → Type 0
Call W A = W → Result A × W

abbrev pub Done : Type 0
Done = Unit

abbrev pub wrapped : {A : Type 0} → String → Result A → Result A
wrapped s (ok a) = ok a
wrapped s (err e) = err (wrap s e)

abbrev pub mapped_error : {A : Type 0} → (Error → Error) → Result A → Result A
mapped_error f (ok a) = ok a
mapped_error f (err e) = err (f e)

module _ {W A : Type 0} where
  -- `return a, nil`
  unfoldable pub pure : A → Call W A
  pure a w = (ok a, w)

  -- `return err`
  unfoldable pub fail : Error → Call W A
  fail e w = (err e, w)

  -- A computed pair of a value and an error.
  unfoldable pub lift : Result A → Call W A
  lift r w = (r, w)

  -- `if err != nil { return fmt.Errorf("<text>: %w", err) }`
  unfoldable pub context : String → Call W A → Call W A
  context s m w = let (r, w') = m w in (wrapped s r, w')

  -- `if err != nil { return f(err) }`
  unfoldable pub rethrow : (Error → Error) → Call W A → Call W A
  rethrow f m w = let (r, w') = m w in (mapped_error f r, w')

  -- A call whose error the caller looks at and does not return.
  unfoldable pub try : Call W A → Call W (Result A)
  try m w = let (r, w') = m w in (ok r, w')

-- A call that returns no error.
unfoldable pub observe : {W A : Type 0} → (W → A × W) → Call W A
observe m w = let (a, w') = m w in (ok a, w')

-- What comes after a call: the rest of the function, or the return of the error.
abbrev pub proceed : {W A B : Type 0} → Result A → (A → Call W B) → Call W B
proceed (ok a) f w = f a w
proceed (err e) f w = (err e, w)

infixl 5 ◌>>=◌ ◌>>◌
-- `a, err := m; if err != nil { return err }`
unfoldable pub ◌>>=◌ : {W A B : Type 0} → Call W A → (A → Call W B) → Call W B
◌>>=◌ m f w = let (r, w') = m w in proceed r f w'

abbrev pub ◌>>◌ : {W A B : Type 0} → Call W A → Call W B → Call W B
m >> k = m >>= λ _. k

module _ {W : Type 0} where
  -- `if test { m }`
  unfoldable pub when : Bool → Call W Done → Call W Done
  when true m = m
  when false m = pure tt

  -- `for _, x := range xs { body }`, where an error ends the loop.
  unfoldable pub for_each {ℓ} : {A : Type ℓ} → (A → Call W Done) → List A → Call W Done
  for_each body [] = pure tt
  for_each body (x ∷ xs) = body x >> for_each body xs

  -- `defer m()`: after the call, whatever its result, and without one of its own.
  unfoldable pub deferring : {A : Type 0} → (W → W) → Call W A → Call W A
  deferring cleanup m w = let (r, w') = m w in (r, cleanup w')

  abbrev pub only_on_error : {A : Type 0} → (W → W) → Result A → W → W
  only_on_error cleanup (ok a) w = w
  only_on_error cleanup (err e) w = cleanup w

  -- `if err != nil { m(); return err }`
  unfoldable pub on_error : {A : Type 0} → (W → W) → Call W A → Call W A
  on_error cleanup m w = let (r, w') = m w in (r, only_on_error cleanup r w')
