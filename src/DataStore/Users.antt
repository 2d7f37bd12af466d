-- ===== src/DataStore/Users.antt =====
-- Users of the datastore: existence, creation, removal and passwords.
use portal_conductor.Base.{String, ◌<>◌, Bool, true, false, if◌then◌else◌}
use portal_conductor.External.Effect.{
  Result, ok, err, Call, Done, pure, lift, context, observe, try, ◌>>=◌, ◌>>◌,
}
use portal_conductor.DataStore.{DataStore, Server}
use portal_conductor.DataStore.Session.{filesystem, user_home}

module _ {W Fs : Type 0} (S : Server W Fs) (d : DataStore) where
  -- A user that is not found is an answer, any other failure an error.
  abbrev pub existence : Result String → Result Bool
  existence (ok _) = ok true
  existence (err e) = if S.is_user_not_found e then ok false else err e

  unfoldable pub user_exists : String → Call W Bool
  user_exists username = do
    fs ← filesystem S d
    r ← try (S.get_user fs username d.zone)
    lift (existence r)

  unfoldable pub create_user : String → Call W Done
  create_user username = do
    fs ← filesystem S d
    context ("creating datastore user '" <> username <> "'") (S.create_user fs username d.zone)

  unfoldable pub delete_user : String → Call W Done
  delete_user username = do
    fs ← filesystem S d
    kind ← S.get_user fs username d.zone
    S.remove_user fs username d.zone kind

  unfoldable pub change_password : String → String → Call W Done
  change_password username new_password = do
    fs ← filesystem S d
    context ("changing datastore password for '" <> username <> "'")
        (S.change_user_password fs username d.zone new_password)

  abbrev pub make_home : Fs → String → Bool → Call W Done
  make_home fs username true = pure tt
  make_home fs username false = do
    S.make_dir fs (user_home S d username)
    S.set_owner fs (user_home S d username) username d.zone

  -- `EnsureUserExists`: the user and the home collection, each made where it is missing.
  unfoldable pub ensure_user_exists : String → Call W Done
  ensure_user_exists username = do
    there ← user_exists username
    if there then pure tt else create_user username
    fs ← filesystem S d
    home_there ← observe (S.exists_dir fs (user_home S d username))
    make_home fs username home_there
