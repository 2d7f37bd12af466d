-- ===== src/DataStore/Session.antt =====
-- The lazily made connection: `filesystem`, `HealthCheck`, `UserHome`.
use portal_conductor.Base.{String, ◌<>◌, Bool, true, false, Option, none, some}
use portal_conductor.Base.Text.{itoa}
use portal_conductor.External.{Error}
use portal_conductor.External.Effect.{
  Result, ok, err, Call, Done, pure, lift, context, observe, try, ◌>>=◌, ◌>>◌,
}
use portal_conductor.DataStore.{DataStore, Server}

abbrev pub result_of : Option Error → Result Done
result_of none = ok tt
result_of (some e) = err e

module _ {W Fs : Type 0} (S : Server W Fs) (d : DataStore) where
  abbrev cached_in : W → Option Fs × W
  cached_in w = (S.cached w, w)

  abbrev remembered : Fs → W → Fs × W
  remembered fs w = (fs, S.remember fs w)

  unfoldable pub connect : Call W Fs
  connect = do
    context "creating iRODS account" (lift (result_of (S.check_account d)))
    fs ←
        context
          ("connecting to iRODS at "
            <> d.host
            <> ":"
            <> itoa d.port
            <> " failed (server down or bad credentials?)")
          (S.new_file_system d)
    observe (remembered fs)

  abbrev pub from_cache : Option Fs → Call W Fs
  from_cache (some fs) = pure fs
  from_cache none = connect

  -- Under the lock `d.mu`, which makes this one step.
  unfoldable pub filesystem : Call W Fs
  filesystem = do cache ← observe cached_in; from_cache cache

  abbrev succeeded : Result Done → Bool
  succeeded (ok _) = true
  succeeded (err _) = false

  unfoldable pub health_check : Call W Bool
  health_check = do r ← try (do fs ← filesystem; S.get_server_version fs); pure (succeeded r)

  unfoldable pub user_home : String → String
  user_home username = "/" <> d.zone <> "/home/" <> username
