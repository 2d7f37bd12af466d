-- ===== src/PortalDb/Creation/Undo.antt =====
-- The transactions of `CreateUserWithEmail` and `DeleteUserByID`.
use mathlib.Core.Path.{fun_ext}
use portal_conductor.Base.{
  String, ◌==◌, ◌≡◌, refl, sym, ap, ◌∙◌, Bool, true, false, not, List, [], ◌∷◌, keep, exists,
  eq_iff, Bool-cases, inl, inr, or_first, or_second,
}
use portal_conductor.Base.Int.{ℤ, int_eq_refl}
use portal_conductor.External.{Error}
use portal_conductor.External.Effect.{ok, context}
use portal_conductor.External.Effect.Triple.{
  Triple, Triple-intro, Triple-weaken, Triple-bind, Triple-pure, Triple-context, Triple-deferring,
  Triple-ok,
}
use portal_conductor.PortalDb.{Database, Delete, delete_where, CreateUserData}
use portal_conductor.PortalDb.Tables.{
  Tables, Row, Cell, int, holds, IsRelational, IsFresh, apply, insert,
}
use portal_conductor.PortalDb.Creation.{
  create_user_tx, create_email_address_tx, create_in, create_user_with_email, delete_in,
  delete_user_by_id,
}

-- Tables with a row of the user and one of its address on top of `t`, where its id was not in use.
abbrev pub Added : Tables → ℤ → Tables → Type 0
Added t id u =
    (r : Row) × (q : Row) × (r "id" ≡ int id)
    × (q "user_id" ≡ int id)
    × IsFresh id t
    × (u ≡ insert "account_emailaddress" q (insert "account_user" r t))

abbrev pub purge : ℤ → Tables → Tables
purge id t =
    apply (delete_where "account_user" "id") id
      (apply (delete_where "account_emailaddress" "user_id") id t)

holds-int : (id : ℤ) (c : Cell) → c ≡ int id → holds id c ≡ true
holds-int id c e = rw e (int_eq_refl id)

keep_unmatched :
    (p : Row → Bool) (rs : List Row) → exists p rs ≡ false → keep (λ r. not (p r)) rs ≡ rs
keep_unmatched p [] h = refl
keep_unmatched p (r ∷ rs) h =
    rw (or_first (p r) (exists p rs) h)
      (ap (λ l. r ∷ l) (keep_unmatched p rs (or_second (p r) (exists p rs) h)))

keep-new :
    (p : Row → Bool) (r : Row) (rs : List Row)
    → p r ≡ true
    → exists p rs ≡ false
    → keep (λ q. not (p q)) (r ∷ rs) ≡ rs
keep-new p r rs e h = rw e (keep_unmatched p rs h)

-- The two deletions take the two rows away again, and no other.
pub purge-Added : (id : ℤ) (t u : Tables) → Added t id u → purge id u ≡ t
purge-Added id t u (r, q, re, qe, fresh, e) = ap (purge id) e ∙ fun_ext λ name. by_name name
  where
    users :
        purge id (insert "account_emailaddress" q (insert "account_user" r t)) "account_user"
        ≡ t "account_user"
    users =
        keep-new (λ x. holds id (x "id")) r (t "account_user") (holds-int id (r "id") re) fresh.0

    emails :
        purge id
          (insert "account_emailaddress" q (insert "account_user" r t))
          "account_emailaddress"
        ≡ t "account_emailaddress"
    emails =
        keep-new (λ x. holds id (x "user_id")) q (t "account_emailaddress")
          (holds-int id (q "user_id") qe) fresh.1

    by_name :
        (name : String)
        → purge id (insert "account_emailaddress" q (insert "account_user" r t)) name ≡ t name
    by_name name = elim (Bool-cases ("account_user" == name)) [
      | inl n ↦ rw (sym ((eq_iff "account_user" name).0 n)) users
      | inr n ↦ elim (Bool-cases ("account_emailaddress" == name)) [
        | inl m ↦ rw (sym ((eq_iff "account_emailaddress" name).0 m)) emails
        | inr m ↦ rw (n, m) refl
      ]
    ]

module _ {W Tx : Type 0} (D : Database W Tx) (committed : W → Tables) (pending : Tx → W → Tables)
    (I : IsRelational D committed pending) where
  abbrev Unchanged : Tables → Error → W → Type 0
  Unchanged t e w = committed w ≡ t

  abbrev Open : Tx → Tables → Tables → W → Type 0
  Open tx t u w = (committed w ≡ t) × (pending tx w ≡ u)

  Triple-begin :
      (s : String) (t : Tables)
      → Triple (λ w. committed w ≡ t) (context s D.begin) (λ tx. Open tx t t) (Unchanged t)
  Triple-begin s t = Triple-context _ _ (
      Triple-intro _ (λ w h tx e. (I.begin_committed w ∙ h, I.begin_pending w e ∙ h))
        (λ w h x e. I.begin_committed w ∙ h))

  Triple-commit :
      (s : String) (tx : Tx) (t u : Tables)
      → Triple (Open tx t u) (context s (D.commit tx)) (λ _ w. committed w ≡ u) (Unchanged t)
  Triple-commit s tx t u = Triple-context _ _ (
      Triple-intro _ (λ w h a e. I.commit_ok tx w e ∙ h.1) (λ w h x e. I.commit_err tx w x e ∙ h.0))

  Triple-delete :
      (s : String) (tx : Tx) (d : Delete) (id : ℤ) (t u : Tables)
      → Triple
          (Open tx t u)
          (context s (D.delete tx d id))
          (λ _. Open tx t (apply d id u))
          (Unchanged t)
  Triple-delete s tx d id t u = Triple-context _ _ (
      Triple-intro _
        (λ w h a e.
          (I.delete_committed tx d id w ∙ h.0, I.delete_pending tx d id w e ∙ ap (apply d id) h.1))
        (λ w h x e. I.delete_committed tx d id w ∙ h.0))

  pub Triple-delete_user_by_id :
      (id : ℤ) (t : Tables)
      → Triple
          (λ w. committed w ≡ t)
          (delete_user_by_id D id)
          (λ _ w. committed w ≡ purge id t)
          (Unchanged t)
  unfolding delete_user_by_id delete_in
  Triple-delete_user_by_id id t = Triple-bind _ _ _ (Triple-begin _ t) λ tx.
      Triple-deferring (D.rollback tx) _ (
        Triple-weaken (λ w h. h) (λ a w h. I.rollback_committed tx w ∙ h)
          (λ e w h. I.rollback_committed tx w ∙ h)
          (Triple-bind _ _ _ (Triple-delete _ tx _ id t t)
            λ _. Triple-bind _ _ _ (Triple-delete _ tx _ id t _) λ _. Triple-commit _ tx t _))

  -- The transaction shows a new row of the user.
  abbrev Inserted : Tx → Tables → ℤ → W → Type 0
  Inserted tx t id w =
      (committed w ≡ t)
      × (r : Row) × (r "id" ≡ int id)
      × IsFresh id t
      × (pending tx w ≡ insert "account_user" r t)

  Triple-create_user_tx :
      (tx : Tx) (user : CreateUserData) (t : Tables)
      → Triple (Open tx t t) (create_user_tx D tx user) (Inserted tx t) (Unchanged t)
  unfolding create_user_tx
  Triple-create_user_tx tx user t = Triple-context _ _ (
      Triple-intro _
        (λ w h id e.
          let (r, re, p, f) = I.insert_user_pending tx _ w e in
          (
            I.insert_user_committed tx _ w ∙ h.0,
            r,
            re,
            rw h.1 at f,
            p ∙ ap (insert "account_user" r) h.1,
          ))
        (λ w h x e. I.insert_user_committed tx _ w ∙ h.0))

  abbrev AddedIn : Tx → Tables → ℤ → W → Type 0
  AddedIn tx t id w = (committed w ≡ t) × Added t id (pending tx w)

  Triple-create_email_address_tx :
      (tx : Tx) (id : ℤ) (email : String) (primary verified : Bool) (t : Tables)
      → Triple
          (Inserted tx t id)
          (create_email_address_tx D tx id email primary verified)
          (λ _. AddedIn tx t id)
          (Unchanged t)
  unfolding create_email_address_tx
  Triple-create_email_address_tx tx id email primary verified t = Triple-context _ _ (
      Triple-intro _
        (λ w (h, r, re, f, p) a e.
          let (q, qe, k) = I.insert_email_pending tx _ w e in
          (
            I.insert_email_committed tx _ w ∙ h,
            (r, q, re, qe, f, k ∙ ap (insert "account_emailaddress" q) p),
          ))
        (λ w h x e. I.insert_email_committed tx _ w ∙ h.0))

  Triple-commit-Added :
      (s : String) (tx : Tx) (t : Tables) (id : ℤ)
      → Triple
          (AddedIn tx t id)
          (context s (D.commit tx))
          (λ _ w. Added t id (committed w))
          (Unchanged t)
  Triple-commit-Added s tx t id = Triple-context _ _ (
      Triple-intro _ (λ w (h, (r, q, re, qe, f, k)) a e. (r, q, re, qe, f, I.commit_ok tx w e ∙ k))
        (λ w h x e. I.commit_err tx w x e ∙ h.0))

  pub Triple-create_user_with_email :
      (user : CreateUserData) (t : Tables)
      → Triple
          (λ w. committed w ≡ t)
          (create_user_with_email D user)
          (λ id w. Added t id (committed w))
          (Unchanged t)
  unfolding create_user_with_email create_in
  Triple-create_user_with_email user t = Triple-bind _ _ _ (Triple-begin _ t) λ tx.
      Triple-deferring (D.rollback tx) _ (
        Triple-weaken (λ w h. h)
          (λ id w (r, q, re, qe, f, k). (r, q, re, qe, f, I.rollback_committed tx w ∙ k))
          (λ e w h. I.rollback_committed tx w ∙ h)
          (Triple-bind _ _ _ (Triple-create_user_tx tx user t) λ id.
            Triple-bind _ _ _ (Triple-create_email_address_tx tx id user.email true _ t) λ _.
              Triple-bind _ _ _ (Triple-commit-Added _ tx t id) λ _. Triple-pure id (λ w h. h)))

  -- Where `CreateUserWithEmail` returns an id, and the tables of that moment are those that a later
  -- `DeleteUserByID` of the id starts from and the deletion succeeds, the tables are again those from
  -- before the creation: the user's row and the row of its address are gone, and no other row is.
  pub delete_user_by_id-create_user_with_email :
      (user : CreateUserData) (id : ℤ) (w v : W)
      → (create_user_with_email D user w).0 ≡ ok id
      → committed v ≡ committed (create_user_with_email D user w).1
      → (delete_user_by_id D id v).0 ≡ ok tt
      → committed (delete_user_by_id D id v).1 ≡ committed w
  delete_user_by_id-create_user_with_email user id w v e same d =
      Triple-ok (Triple-delete_user_by_id id _) v same d
      ∙ purge-Added id _ _ (Triple-ok (Triple-create_user_with_email user (committed w)) w refl e)
