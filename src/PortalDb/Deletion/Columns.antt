-- ===== src/PortalDb/Deletion/Columns.antt =====
-- The columns that name a user, after `deleteSteps`.
use portal_conductor.Base.{
  String, ◌==◌, ◌≡◌, refl, sym, ap, ◌∙◌, Bool, true, false, ◌&&◌, ◌||◌, List, [], ◌∷◌, All,
  All-for_all, All-keep, not-true, arith, eq_iff, Bool-cases, inl, inr,
}
use portal_conductor.Base.Int.{ℤ}
use portal_conductor.PortalDb.{Delete, delete_where, delete_where_in}
use portal_conductor.PortalDb.Tables.{Row, Tables, holds, target, matches}
use portal_conductor.PortalDb.Deletion.{DeleteStep, delete_steps}
use portal_conductor.PortalDb.Deletion.Order.{after, owned, after-delete_steps}

-- The tables of the portal database with a column that holds a user's id.
abbrev pub user_columns : List (String × String)
user_columns =
    ("account_user", "id")
    ∷ ("account_emailaddress", "user_id")
    ∷ ("account_passwordreset", "user_id")
    ∷ ("account_passwordresetrequest", "user_id")
    ∷ ("api_accessrequest", "user_id")
    ∷ ("api_formsubmission", "user_id")
    ∷ ("api_userservice", "user_id")
    ∷ ("api_workshopenrollmentrequest", "user_id")
    ∷ ("api_workshoporganizer", "organizer_id")
    ∷ ("django_admin_log", "user_id")
    ∷ ("django_cyverse_auth_token", "user_id")
    ∷ ("warden_atmosphereinternationalrequest", "user_id")
    ∷ ("warden_atmospherestudentrequest", "user_id")
    ∷ []

-- No row of the table holds the id in the column.
abbrev pub Unnamed : ℤ → Tables → String × String → Type 0
Unnamed id t (table, col) = All (λ r. holds id (r col) ≡ false) (t table)

abbrev is_direct : String → String → Delete → Bool
is_direct table col (delete_where t c) = (t == table) && (c == col)
is_direct table col (delete_where_in t c p pc) = false

abbrev clears : String → String → List DeleteStep → Bool
clears table col [] = false
clears table col (s ∷ ss) = is_direct table col s.statement || clears table col ss

direct_match :
    (id : ℤ) (t : Tables) (table col : String) (r : Row) (s : Delete)
    → is_direct table col s ≡ true
    → ((target s == table) && matches s id t r) ≡ false
    → holds id (r col) ≡ false
direct_match id t table col r (delete_where t' c) h m =
    ap (λ k. holds id (r k)) (sym ((eq_iff c col).0 (ground arith))) ∙ ground arith
direct_match id t table col r (delete_where_in t' c p pc) h m = cc

owned-clears :
    (id : ℤ) (t : Tables) (table col : String) (r : Row) (ss : List DeleteStep)
    → clears table col ss ≡ true
    → owned ss id t table r ≡ false
    → holds id (r col) ≡ false
owned-clears id t table col r [] h m = cc
owned-clears id t table col r (s ∷ ss) h m = elim (Bool-cases (is_direct table col s.statement)) [
  | inl e ↦ direct_match id t table col r s.statement e (ground arith)
  | inr e ↦ owned-clears id t table col r ss (ground arith) (ground arith)
]

cleared :
    (id : ℤ) (t : Tables) (table col : String)
    → clears table col delete_steps ≡ true
    → Unnamed id (after delete_steps id t) (table, col)
cleared id t table col h =
    rw (after-delete_steps id t table)
      (All-keep _ _ (λ r e. owned-clears id t table col r delete_steps h (not-true _ e)) (t table))

-- After the sixteen steps none of the thirteen columns that name a user holds the user's id.
pub after-delete_steps-Unnamed :
    (id : ℤ) (t : Tables) → All (Unnamed id (after delete_steps id t)) user_columns
after-delete_steps-Unnamed id t =
    All-for_all _ _ (λ (table, col) h. cleared id t table col h) user_columns refl
