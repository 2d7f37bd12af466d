-- ===== src/PortalDb/Tables.antt =====
-- What a relational database is to the portal code: tables of rows, and transactions over them.
use portal_conductor.Base.{
  String, ◌==◌, ◌≡◌, Bool, false, not, ◌&&◌, ◌||◌, List, [], ◌∷◌, exists, keep, if◌then◌else◌,
}
use portal_conductor.Base.Int.{ℤ, int_eq}
use portal_conductor.External.Effect.{ok, err}
use portal_conductor.PortalDb.{
  Database, ExistsQuery, Delete, delete_where, delete_where_in, AccountUserRow, EmailAddressRow,
}

-- A column of a row: the integers are told apart, as keys are integers.
pub data Cell : Type 0 where
  null other : Cell
  int : ℤ → Cell

abbrev pub Row : Type 0
Row = String → Cell

abbrev pub Tables : Type 0
Tables = String → List Row

-- The test `cell = $1`, which fails on null.
abbrev pub holds : ℤ → Cell → Bool
holds id (int n) = int_eq n id
holds id _ = false

-- The test `cell IN (the ids of the rows)`.
abbrev pub refers_to : List Row → String → ℤ → Cell → Bool
refers_to [] col id cell = false
refers_to (q ∷ qs) col id (int n) =
    (holds n (q "id") && holds id (q col)) || refers_to qs col id (int n)
refers_to (q ∷ qs) col id _ = false

abbrev pub target : Delete → String
target (delete_where table col) = table
target (delete_where_in table col parent parent_col) = table

-- The rows that a statement takes out of its table.
abbrev pub matches : Delete → ℤ → Tables → Row → Bool
matches (delete_where table col) id t r = holds id (r col)
matches (delete_where_in table col parent parent_col) id t r =
    refers_to (t parent) parent_col id (r col)

-- The effect of a DELETE.
abbrev pub apply : Delete → ℤ → Tables → Tables
apply s id t name = if target s == name then keep (λ r. not (matches s id t r)) (t name) else t name

abbrev pub insert : String → Row → Tables → Tables
insert table row t name = if table == name then row ∷ t name else t name

-- No row of the tables stands for the user or refers to it.
abbrev pub IsFresh : ℤ → Tables → Type 0
IsFresh id t =
    (exists (λ r. holds id (r "id")) (t "account_user") ≡ false)
    × (exists (λ r. holds id (r "user_id")) (t "account_emailaddress") ≡ false)

-- A database whose world shows the committed tables, and those that an open transaction sees.
-- Statements work on the latter, and only a commit that succeeds changes the former.
pub record IsRelational {W Tx : Type 0} (D : Database W Tx) (committed : W → Tables)
    (pending : Tx → W → Tables) : Type 0 where
  pub begin_committed : (w : W) → committed (D.begin w).1 ≡ committed w
  pub begin_pending :
      (w : W) {tx : Tx} → (D.begin w).0 ≡ ok tx → pending tx (D.begin w).1 ≡ committed w
  pub delete_committed :
      (tx : Tx) (s : Delete) (id : ℤ) (w : W) → committed (D.delete tx s id w).1 ≡ committed w
  pub delete_pending :
      (tx : Tx) (s : Delete) (id : ℤ) (w : W)
      → (D.delete tx s id w).0 ≡ ok tt
      → pending tx (D.delete tx s id w).1 ≡ apply s id (pending tx w)
  pub insert_user_committed :
      (tx : Tx) (row : AccountUserRow) (w : W) → committed (D.insert_user tx row w).1 ≡ committed w
  -- The database numbers the new row, with a number that is not in use.
  pub insert_user_pending :
      (tx : Tx) (row : AccountUserRow) (w : W) {id : ℤ}
      → (D.insert_user tx row w).0 ≡ ok id
      → (r : Row) × (r "id" ≡ int id)
        × (pending tx (D.insert_user tx row w).1 ≡ insert "account_user" r (pending tx w))
        × IsFresh id (pending tx w)
  pub insert_email_committed :
      (tx : Tx) (row : EmailAddressRow) (w : W)
      → committed (D.insert_email tx row w).1 ≡ committed w
  pub insert_email_pending :
      (tx : Tx) (row : EmailAddressRow) (w : W)
      → (D.insert_email tx row w).0 ≡ ok tt
      → (r : Row) × (r "user_id" ≡ int row.user_id)
        × (pending tx (D.insert_email tx row w).1 ≡ insert "account_emailaddress" r (pending tx w))
  pub commit_ok :
      (tx : Tx) (w : W) → (D.commit tx w).0 ≡ ok tt → committed (D.commit tx w).1 ≡ pending tx w
  pub commit_err :
      (tx : Tx) (w : W) (e : _)
      → (D.commit tx w).0 ≡ err e
      → committed (D.commit tx w).1 ≡ committed w
  pub rollback_committed : (tx : Tx) (w : W) → committed (D.rollback tx w) ≡ committed w
  pub select_exists_committed :
      (q : ExistsQuery) (s : String) (w : W) → committed (D.select_exists q s w).1 ≡ committed w
  pub select_occupation_committed :
      (id : ℤ) (w : W) → committed (D.select_occupation id w).1 ≡ committed w
