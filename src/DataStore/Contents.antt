-- ===== src/DataStore/Contents.antt =====
-- `DeleteHome` and `deleteContents`.
pub mod Depth
pub mod Frame
use portal_conductor.Base.{ℕ, zero, suc, String, Bool, true, false, none, some, if◌then◌else◌}
use portal_conductor.Base.Int.{ℤ, int_eq}
use portal_conductor.External.{Error, message, as_irods_error}
use portal_conductor.External.Effect.{
  Result, ok, err, Call, Done, pure, fail, observe, try, ◌>>=◌, ◌>>◌, for_each,
}
use portal_conductor.DataStore.{DataStore, Server, DirEntry}
use portal_conductor.DataStore.Session.{filesystem, user_home}

-- `isErrorCode`.
unfoldable pub is_error_code : Error → ℤ → Bool
is_error_code e code = elim (as_irods_error e) [ some c ↦ int_eq c code | none ↦ false ]

module _ {W Fs : Type 0} (S : Server W Fs) where
  -- One round of the loop, over what removes the contents of a subcollection.
  unfoldable pub delete_entry : Fs → (String → Call W Done) → DirEntry → Call W Done
  delete_entry fs contents entry =
      if entry.is_dir
      then (do contents entry.path; S.remove_dir fs entry.path true true)
      else S.remove_file fs entry.path true

  -- `deleteContents`, to a depth of `fuel` collections. The error at the end of the fuel is not
  -- one of the program's.
  unfoldable pub delete_contents : ℕ → Fs → String → Call W Done
  delete_contents zero fs collection = fail (message "out of fuel")
  delete_contents (suc fuel) fs collection = do
    entries ← S.list_dir fs collection
    for_each (delete_entry fs (delete_contents fuel fs)) entries

module _ {W Fs : Type 0} (S : Server W Fs) (d : DataStore) (home_protected : ℤ) where
  -- What follows the recursive removal, by its error; `home_protected` is the library's constant
  -- `CANT_RM_NON_EMPTY_HOME_COLL`.
  unfoldable pub after_removal : ℕ → Fs → String → Result Done → Call W Done
  after_removal fuel fs home (ok _) = pure tt
  after_removal fuel fs home (err e) =
      if is_error_code e home_protected
      then (do delete_contents S fuel fs home; S.remove_dir fs home false false)
      else fail e

  abbrev remove_home : ℕ → Fs → String → Bool → Call W Done
  remove_home fuel fs home false = pure tt
  remove_home fuel fs home true = do
    r ← try (S.remove_dir fs home true true)
    after_removal fuel fs home r

  unfoldable pub delete_home : ℕ → String → Call W Done
  delete_home fuel username = do
    fs ← filesystem S d
    there ← observe (S.exists_dir fs (user_home S d username))
    remove_home fuel fs (user_home S d username) there
