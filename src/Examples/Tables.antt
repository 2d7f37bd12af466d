-- ===== src/Examples/Tables.antt =====
-- A database in memory, which satisfies the laws of transactions.
use portal_conductor.Base.{◌≡◌, refl, sym, ap, Bool, true, false, not, ◌&&◌, none, some, exists}
use portal_conductor.Base.Int.{ℤ, pos}
use portal_conductor.External.{message}
use portal_conductor.External.Effect.{Result, ok, err, Done}
use portal_conductor.PortalDb.{Database}
use portal_conductor.PortalDb.Tables.{Tables, Row, int, holds, apply, insert, IsFresh, IsRelational}
use portal_conductor.Examples.World.{World, row}

abbrev is_fresh : ℤ → Tables → Bool
is_fresh id t =
    not (exists (λ r. holds id (r "id")) (t "account_user"))
    && not (exists (λ r. holds id (r "user_id")) (t "account_emailaddress"))

is_fresh-IsFresh : (id : ℤ) (t : Tables) → is_fresh id t ≡ true → IsFresh id t
is_fresh-IsFresh id t h = tests _ _ h
  where
    tests : (a b : Bool) → (not a && not b) ≡ true → (a ≡ false) × (b ≡ false)
    tests true b k = cc
    tests false true k = cc
    tests false false k = (refl, refl)

-- The next id is given out where it is not in use.
abbrev pub numbered : World → Bool → Result ℤ × World
numbered w true =
    (ok w.next_id, record w { draft = insert "account_user" (row "id" w.next_id) w.draft })
numbered w false = (err (message "duplicate key"), w)

abbrev pub database : Database World Done
database = record {
  begin = λ w. (ok tt, record w { draft = w.rows });
  begin_read_only = λ w. (ok tt, record w { draft = w.rows });
  commit = λ tx w. (ok tt, record w { rows = w.draft });
  rollback = λ tx w. record w { draft = w.rows };
  delete = λ tx s id w. (ok tt, record w { draft = apply s id w.draft });
  insert_user = λ tx r w. numbered w (is_fresh w.next_id w.draft);
  insert_email = λ tx r w.
      (ok tt, record w { draft = insert "account_emailaddress" (row "user_id" r.user_id) w.draft });
  select_user = λ tx username w. (
    ok (some (record { id = pos 7; username = username; primary_email = none; emails = none })),
    w,
  );
  select_exists = λ q s w. (ok false, w);
  select_occupation = λ id w. (ok none, w);
}

abbrev pub committed : World → Tables
committed w = w.rows

abbrev pub pending : Done → World → Tables
pending tx w = w.draft

committed-numbered : (w : World) (b : Bool) → committed (numbered w b).1 ≡ committed w
committed-numbered w true = refl
committed-numbered w false = refl

pending-numbered :
    (w : World) (b : Bool)
    → is_fresh w.next_id w.draft ≡ b
    → {id : ℤ} → (numbered w b).0 ≡ ok id
    → (r : Row) × (r "id" ≡ int id)
      × (pending tt (numbered w b).1 ≡ insert "account_user" r (pending tt w))
      × IsFresh id (pending tt w)
pending-numbered w true f {id} e = (row "id" w.next_id, ap int same, refl, fresh)
  where
    same : w.next_id ≡ id
    same = cc

    fresh : IsFresh id w.draft
    fresh = rw (sym same) (is_fresh-IsFresh w.next_id w.draft f)
pending-numbered w false f e = cc

pub is_relational : IsRelational database committed pending
is_relational = record {
  begin_committed = λ w. refl;
  begin_pending = λ w e. refl;
  delete_committed = λ tx s id w. refl;
  delete_pending = λ tx s id w e. refl;
  insert_user_committed = λ tx r w. committed-numbered w (is_fresh w.next_id w.draft);
  insert_user_pending = λ tx r w e. pending-numbered w (is_fresh w.next_id w.draft) refl e;
  insert_email_committed = λ tx r w. refl;
  insert_email_pending = λ tx r w e. (row "user_id" r.user_id, refl, refl);
  commit_ok = λ tx w e. refl;
  commit_err = λ tx w x e. cc;
  rollback_committed = λ tx w. refl;
  select_exists_committed = λ q s w. refl;
  select_occupation_committed = λ id w. refl;
}
