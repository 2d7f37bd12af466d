-- ===== src/External/Effect/Costs.antt =====
-- How often a call uses something that is counted: one rule for each way to build a call.
use portal_conductor.Base.{ℕ, ◌+◌, ◌≤◌, Bool, true, false, if◌then◌else◌, arith}
use portal_conductor.External.{Error}
use portal_conductor.External.Effect.{
  Result, ok, err, Call, pure, fail, lift, try, observe, proceed, ◌>>=◌,
}

module _ {W : Type 0} (count : W → ℕ) where
  -- The count grows by at most `n`, with or without an error.
  pub record Costs {A : Type 0} (n : ℕ) (m : Call W A) : Type 0 where
    pub bound : (w : W) → count (m w).1 ≤ count w + n

  module _ {A : Type 0} where
    pub Costs-pure : (a : A) → Costs 0 (pure a)
    unfolding pure
    Costs-pure a = record { bound = λ w. omega arith }

    pub Costs-lift : (r : Result A) → Costs 0 (lift r)
    unfolding lift
    Costs-lift r = record { bound = λ w. omega arith }

    pub Costs-fail : (e : Error) → Costs 0 (fail {A = A} e)
    unfolding fail
    Costs-fail e = record { bound = λ w. omega arith }

    pub Costs-try : {n : ℕ} {m : Call W A} → Costs n m → Costs n (try m)
    unfolding try
    Costs-try k = record { bound = k.bound }

    pub Costs-observe : (m : W → A × W) → ((w : W) → count (m w).1 ≤ count w) → Costs 0 (observe m)
    unfolding observe
    Costs-observe m k = record { bound = λ w. omega (arith, k w) }

    pub Costs-if :
        {n : ℕ} (b : Bool) {m k : Call W A} → Costs n m → Costs n k → Costs n (if b then m else k)
    Costs-if true cm ck = cm
    Costs-if false cm ck = ck

    pub Costs-weaken : {n m : ℕ} {k : Call W A} → n ≤ m → Costs n k → Costs m k
    Costs-weaken h c = record { bound = λ w. omega (arith, c.bound w) }

  pub Costs-bind :
      {A B : Type 0} {n k : ℕ} {m : Call W A} {f : A → Call W B}
      → Costs n m
      → ((a : A) → Costs k (f a))
      → Costs (n + k) (m >>= f)
  unfolding ◌>>=◌
  Costs-bind {B = B} {n} {k} {m} {f} cm cf = record {
    bound = λ w. go (m w).0 (m w).1 (count w) (cm.bound w);
  }
    where
      go :
          (r : Result _) (w : W) (before : ℕ)
          → count w ≤ before + n
          → count (proceed r f w).1 ≤ before + (n + k)
      go (ok a) w before h = omega (arith, (cf a).bound w)
      go (err e) w before h = omega arith
