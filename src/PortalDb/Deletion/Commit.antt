-- ===== src/PortalDb/Deletion/Commit.antt =====
-- The transaction of `deleteFromPortalDatabase`.
use portal_conductor.Base.{◌≡◌, refl, ap, ◌∙◌, Bool, true, false, List, [], ◌∷◌, if◌then◌else◌}
use portal_conductor.Base.Int.{ℤ}
use portal_conductor.External.{Error}
use portal_conductor.External.Effect.{Result, ok, err, Done, pure}
use portal_conductor.External.Effect.Triple.{
  Triple, Ends, Triple-intro, Triple-weaken, Triple-bind, Triple-pure, Triple-context,
  Triple-for_each, Triple-deferring,
}
use portal_conductor.PortalDb.{Database}
use portal_conductor.PortalDb.Tables.{Tables, IsRelational}
use portal_conductor.PortalDb.Deletion.{DeleteStep, delete_steps, run_step, delete_user}
use portal_conductor.PortalDb.Deletion.Order.{after}
use portal_conductor.DeleteUser.Phases.{delete_records, delete_from_portal_database}

abbrev pub is_ok : {A : Type 0} → Result A → Bool
is_ok (ok a) = true
is_ok (err e) = false

-- The steps that a run carries out.
abbrev pub planned : Bool → List DeleteStep
planned dry_run = if dry_run then [] else delete_steps

module _ {W Tx : Type 0} (D : Database W Tx) (committed : W → Tables) (pending : Tx → W → Tables)
    (I : IsRelational D committed pending) where
  -- The committed tables, and what the transaction will show after the rounds left to go.
  abbrev Open : ℤ → Tx → Tables → Tables → List DeleteStep → W → Type 0
  Open id tx t end ss w = (committed w ≡ t) × (after ss id (pending tx w) ≡ end)

  abbrev Unchanged : Tables → Error → W → Type 0
  Unchanged t e w = committed w ≡ t

  Triple-run_step :
      (id : ℤ) (tx : Tx) (t end : Tables) (s : DeleteStep) (ss : List DeleteStep)
      → Triple
          (Open id tx t end (s ∷ ss))
          (run_step D tx id false s)
          (λ _. Open id tx t end ss)
          (Unchanged t)
  unfolding run_step
  Triple-run_step id tx t end s ss = Triple-context _ _ (
      Triple-intro _
        (λ w h a e. (
          I.delete_committed tx s.statement id w ∙ h.0,
          ap (after ss id) (I.delete_pending tx s.statement id w e) ∙ h.1,
        ))
        (λ w h x e. I.delete_committed tx s.statement id w ∙ h.0))

  Triple-skip_step :
      (id : ℤ) (tx : Tx) (t end : Tables) (s : DeleteStep) (ss : List DeleteStep)
      → Triple
          (Open id tx t end [])
          (run_step D tx id true s)
          (λ _. Open id tx t end [])
          (Unchanged t)
  unfolding run_step
  Triple-skip_step id tx t end s ss = Triple-pure tt (λ w h. h)

  Triple-delete_user :
      (id : ℤ) (tx : Tx) (t end : Tables) (dry_run : Bool)
      → Triple
          (Open id tx t end (planned dry_run))
          (delete_user D tx id dry_run)
          (λ _. Open id tx t end [])
          (Unchanged t)
  unfolding delete_user
  Triple-delete_user id tx t end false =
      Triple-for_each (Open id tx t end) _ delete_steps (Triple-run_step id tx t end)
  Triple-delete_user id tx t end true =
      Triple-for_each (λ _. Open id tx t end []) _ delete_steps (Triple-skip_step id tx t end)

  Triple-delete_records :
      (id : ℤ) (tx : Tx) (t end : Tables) (dry_run : Bool)
      → Triple
          (Open id tx t end (planned dry_run))
          (delete_records D tx id dry_run)
          (λ _ w. committed w ≡ (if dry_run then t else end))
          (Unchanged t)
  unfolding delete_records
  Triple-delete_records id tx t end dry_run =
      Triple-bind _ _ _ (Triple-delete_user id tx t end dry_run) λ _. finish dry_run
    where
      finish :
          (dry : Bool)
          → Triple
              (Open id tx t end [])
              (if dry then pure tt else D.commit tx)
              (λ _ w. committed w ≡ (if dry then t else end))
              (Unchanged t)
      finish true = Triple-pure tt (λ w h. h.0)
      finish false =
          Triple-intro _ (λ w h a e. I.commit_ok tx w e ∙ h.1)
            (λ w h x e. I.commit_err tx w x e ∙ h.0)

  Triple-begin :
      (id : ℤ) (t : Tables) (ss : List DeleteStep)
      → Triple (λ w. committed w ≡ t) D.begin (λ tx. Open id tx t (after ss id t) ss) (Unchanged t)
  Triple-begin id t ss =
      Triple-intro _
        (λ w h tx e. (I.begin_committed w ∙ h, ap (after ss id) (I.begin_pending w e ∙ h)))
        (λ w h x e. I.begin_committed w ∙ h)

  Triple-delete_from_portal_database :
      (id : ℤ) (t : Tables) (dry_run : Bool)
      → Triple
          (λ w. committed w ≡ t)
          (delete_from_portal_database D id dry_run)
          (λ _ w. committed w ≡ after (planned dry_run) id t)
          (Unchanged t)
  unfolding delete_from_portal_database
  Triple-delete_from_portal_database id t dry_run =
      Triple-bind _ _ _ (Triple-begin id t (planned dry_run)) λ tx.
        Triple-deferring (D.rollback tx) _ (
          Triple-weaken (λ w h. h) (λ a w h. I.rollback_committed tx w ∙ h ∙ chosen dry_run)
            (λ e w h. I.rollback_committed tx w ∙ h)
            (Triple-delete_records id tx t (after (planned dry_run) id t) dry_run))
    where
      chosen :
          (dry : Bool) → (if dry then t else after (planned dry) id t) ≡ after (planned dry) id t
      chosen true = refl
      chosen false = refl

  -- The committed tables change only where the deletion succeeds and is not dry, and then by all
  -- the steps; an error in any of them, or in the commit, leaves them as they were.
  pub delete_from_portal_database-atomic :
      (id : ℤ) (dry_run : Bool) (w : W)
      → committed (delete_from_portal_database D id dry_run w).1 ≡ (
          if is_ok (delete_from_portal_database D id dry_run w).0
          then after (planned dry_run) id (committed w)
          else committed w)
  delete_from_portal_database-atomic id dry_run w =
      outcome (delete_from_portal_database D id dry_run w).0
        (delete_from_portal_database D id dry_run w).1
        ((Triple-delete_from_portal_database id (committed w) dry_run).run w refl)
    where
      outcome :
          (r : Result Done) (v : W)
          → Ends
              (λ _ u. committed u ≡ after (planned dry_run) id (committed w))
              (Unchanged (committed w))
              r
              v
          → committed v
            ≡ (if is_ok r then after (planned dry_run) id (committed w) else committed w)
      outcome (ok a) v h = h
      outcome (err e) v h = h
