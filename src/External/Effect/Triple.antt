-- ===== src/External/Effect/Triple.antt =====
-- What a call achieves: a precondition, and what holds of its value or of its error.
use portal_conductor.Base.{◌≡◌, refl, String, Bool, true, false, List, [], ◌∷◌, if◌then◌else◌}
use portal_conductor.External.{Error, wrap}
use portal_conductor.External.Effect.Keeps.{Keeps}
use portal_conductor.External.Effect.{
  Result, ok, err, Call, Done, pure, fail, lift, try, context, wrapped, proceed, ◌>>=◌, for_each,
  deferring,
}

module _ {W A : Type 0} where
  -- `Q` of a value and the world after it, `E` of an error and the world after it.
  abbrev pub Ends : (A → W → Type 0) → (Error → W → Type 0) → Result A → W → Type 0
  Ends Q E (ok a) w = Q a w
  Ends Q E (err e) w = E e w

  pub record Triple (P : W → Type 0) (m : Call W A) (Q : A → W → Type 0) (E : Error → W → Type 0)
      : Type 0 where
    pub run : (w : W) → P w → Ends Q E (m w).0 (m w).1

  pub Ends-weaken :
      (Q Q' : A → W → Type 0) (E E' : Error → W → Type 0) (r : Result A) (w : W)
      → ((a : A) → Q a w → Q' a w)
      → ((e : Error) → E e w → E' e w)
      → Ends Q E r w
      → Ends Q' E' r w
  Ends-weaken Q Q' E E' (ok a) w q e h = q a h
  Ends-weaken Q Q' E E' (err x) w q e h = e x h

  pub Ends-intro :
      (Q : A → W → Type 0) (E : Error → W → Type 0) (r : Result A) (w : W)
      → ((a : A) → r ≡ ok a → Q a w)
      → ((e : Error) → r ≡ err e → E e w)
      → Ends Q E r w
  Ends-intro Q E (ok a) w q e = q a refl
  Ends-intro Q E (err x) w q e = e x refl

  -- A rule that looks at the result of the call itself.
  pub Triple-intro :
      {P : W → Type 0} (m : Call W A) {Q : A → W → Type 0} {E : Error → W → Type 0}
      → ((w : W) → P w → (a : A) → (m w).0 ≡ ok a → Q a (m w).1)
      → ((w : W) → P w → (e : Error) → (m w).0 ≡ err e → E e (m w).1)
      → Triple P m Q E
  Triple-intro m {Q} {E} q e = record {
    run = λ w h. Ends-intro Q E (m w).0 (m w).1 (q w h) (e w h);
  }

  Ends-ok :
      (Q : A → W → Type 0) (E : Error → W → Type 0) (r : Result A) (w : W) (a : A)
      → r ≡ ok a
      → Ends Q E r w
      → Q a w
  Ends-ok Q E r w a e h = rw e at h

  -- What a call that succeeds has achieved.
  pub Triple-ok :
      {P : W → Type 0} {m : Call W A} {Q : A → W → Type 0} {E : Error → W → Type 0}
      → Triple P m Q E
      → (w : W) → P w
      → {a : A} → (m w).0 ≡ ok a
      → Q a (m w).1
  Triple-ok {m} {Q} {E} t w p {a} e = Ends-ok Q E (m w).0 (m w).1 a e (t.run w p)

  Ends-err :
      (Q : A → W → Type 0) (E : Error → W → Type 0) (r : Result A) (w : W) (x : Error)
      → r ≡ err x
      → Ends Q E r w
      → E x w
  Ends-err Q E r w x e h = rw e at h

  -- What holds after a call that fails.
  pub Triple-err :
      {P : W → Type 0} {m : Call W A} {Q : A → W → Type 0} {E : Error → W → Type 0}
      → Triple P m Q E
      → (w : W) → P w
      → {x : Error} → (m w).0 ≡ err x
      → E x (m w).1
  Triple-err {m} {Q} {E} t w p {x} e = Ends-err Q E (m w).0 (m w).1 x e (t.run w p)

  pub Triple-of_keeps : {P : W → Type 0} {m : Call W A} → Keeps P m → Triple P m (λ _. P) (λ _. P)
  Triple-of_keeps {P} {m} k = Triple-intro m (λ w h a e. k.after w h) (λ w h a e. k.after w h)

  pub Triple-if :
      {P : W → Type 0} (b : Bool) (m n : Call W A) {Q : A → W → Type 0} {E : Error → W → Type 0}
      → (b ≡ true → Triple P m Q E)
      → (b ≡ false → Triple P n Q E)
      → Triple P (if b then m else n) Q E
  Triple-if true m n tm tn = tm refl
  Triple-if false m n tm tn = tn refl

  pub Triple-weaken :
      {P P' : W → Type 0} {m : Call W A} {Q Q' : A → W → Type 0} {E E' : Error → W → Type 0}
      → ((w : W) → P' w → P w)
      → ((a : A) (w : W) → Q a w → Q' a w)
      → ((e : Error) (w : W) → E e w → E' e w)
      → Triple P m Q E
      → Triple P' m Q' E'
  Triple-weaken {m} {Q} {Q'} {E} {E'} p q e t = record {
    run = λ w h.
        Ends-weaken Q Q' E E' (m w).0 (m w).1 (λ a. q a (m w).1) (λ x. e x (m w).1)
          (t.run w (p w h));
  }

  pub Triple-pure :
      {P : W → Type 0} {E : Error → W → Type 0} {Q : A → W → Type 0} (a : A)
      → ((w : W) → P w → Q a w)
      → Triple P (pure a) Q E
  unfolding pure
  Triple-pure a h = record { run = h }

  pub Triple-fail :
      {P : W → Type 0} {E : Error → W → Type 0} {Q : A → W → Type 0} (x : Error)
      → ((w : W) → P w → E x w)
      → Triple P (fail x) Q E
  unfolding fail
  Triple-fail x h = record { run = h }

  pub Triple-lift :
      {P : W → Type 0} {E : Error → W → Type 0} {Q : A → W → Type 0} (r : Result A)
      → ((w : W) → P w → Ends Q E r w)
      → Triple P (lift r) Q E
  unfolding lift
  Triple-lift r h = record { run = h }

  pub Triple-context :
      {P : W → Type 0} (s : String) (m : Call W A) {Q : A → W → Type 0} {E : Error → W → Type 0}
      → Triple P m Q (λ e. E (wrap s e))
      → Triple P (context s m) Q E
  unfolding context
  Triple-context s m {Q} {E} t = record { run = λ w h. go (m w).0 (m w).1 (t.run w h) }
    where
      go : (r : Result A) (w : W) → Ends Q (λ e. E (wrap s e)) r w → Ends Q E (wrapped s r) w
      go (ok a) w h = h
      go (err e) w h = h

  pub Triple-deferring :
      {P : W → Type 0} (cleanup : W → W) (m : Call W A) {Q : A → W → Type 0}
      {E : Error → W → Type 0}
      → Triple P m (λ a w. Q a (cleanup w)) (λ e w. E e (cleanup w))
      → Triple P (deferring cleanup m) Q E
  unfolding deferring
  Triple-deferring cleanup m {Q} {E} t = record { run = λ w h. go (m w).0 (m w).1 (t.run w h) }
    where
      go :
          (r : Result A) (w : W)
          → Ends (λ a w. Q a (cleanup w)) (λ e w. E e (cleanup w)) r w
          → Ends Q E r (cleanup w)
      go (ok a) w h = h
      go (err e) w h = h

module _ {W A : Type 0} where
  -- The value is the result of the call that is tried.
  pub Triple-try :
      {P : W → Type 0} (m : Call W A) {Q : A → W → Type 0} {E E' : Error → W → Type 0}
      → Triple P m Q E
      → Triple P (try m) (λ r w. Ends Q E r w) E'
  unfolding try
  Triple-try m t = record { run = t.run }

  -- An error that is looked at and forgotten.
  pub Triple-attempt :
      {P R : W → Type 0} (m : Call W A) {E' : Error → W → Type 0}
      → Triple P m (λ _. R) (λ _. R)
      → Triple P (try m) (λ _. R) E'
  unfolding try
  Triple-attempt {R} m t = record { run = λ w h. go (m w).0 (m w).1 (t.run w h) }
    where
      go : (r : Result A) (w : W) → Ends (λ _. R) (λ _. R) r w → R w
      go (ok a) w h = h
      go (err e) w h = h

module _ {W A B : Type 0} {E : Error → W → Type 0} {Q : B → W → Type 0} where
  pub Triple-bind :
      {P : W → Type 0} (R : A → W → Type 0) (m : Call W A) (f : A → Call W B)
      → Triple P m R E
      → ((a : A) → Triple (R a) (f a) Q E)
      → Triple P (m >>= f) Q E
  unfolding ◌>>=◌
  Triple-bind R m f tm tf = record { run = λ w h. go (m w).0 (m w).1 (tm.run w h) }
    where
      go : (r : Result A) (w : W) → Ends R E r w → Ends Q E (proceed r f w).0 (proceed r f w).1
      go (ok a) w h = (tf a).run w h
      go (err e) w h = h

module _ {W : Type 0} {E : Error → W → Type 0} where
  -- An invariant of the rounds left to go.
  pub Triple-for_each {ℓ} :
      {A : Type ℓ} (I : List A → W → Type 0) (body : A → Call W Done) (xs : List A)
      → ((x : A) (rest : List A) → Triple (I (x ∷ rest)) (body x) (λ _. I rest) E)
      → Triple (I xs) (for_each body xs) (λ _. I []) E
  unfolding for_each pure
  Triple-for_each I body [] step = Triple-pure tt (λ w h. h)
  Triple-for_each I body (x ∷ xs) step =
      Triple-bind (λ _. I xs) (body x) (λ _. for_each body xs) (step x xs)
        (λ _. Triple-for_each I body xs step)
