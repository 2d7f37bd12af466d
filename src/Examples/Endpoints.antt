-- ===== src/Examples/Endpoints.antt =====
-- Endpoints, command lines, names, the token cache and the depth of collections on concrete inputs.
use portal_conductor.Base.{
  ℕ, String, ◌==◌, ◌≡◌, refl, sym, Bool, true, false, none, List, [], ◌∷◌, if◌then◌else◌, arith,
  All, ◌<◌,
}
use portal_conductor.Base.Int.{pos, is_nonpositive, ◌+ℤ◌}
use portal_conductor.Base.Text.{itoa, to_lower}
use portal_conductor.Config.{defaults}
use portal_conductor.External.Effect
use portal_conductor.External.Effect.{ok, err, Done}
use portal_conductor.Kinds.{PortalCreateUserRequest, portal_create_user_defaults}
use portal_conductor.LdapClient.Connection.{
  with_connection, dial, dial_only, search_entries, group_dn,
}
use portal_conductor.LdapClient.Users.{
  get_user, get_user_groups, user_in_group, add_user_to_group, validate_uid_number,
}
use portal_conductor.LdapClient.Users.Uid.{invalid_uid, validate_uid_number-itoa}
use portal_conductor.LdapClient.Directory.{admit}
use portal_conductor.DataStore
use portal_conductor.DataStore.{DirEntry}
use portal_conductor.DataStore.Contents.{delete_contents}
use portal_conductor.DataStore.Contents.Depth.{delete_contents-enough}
use portal_conductor.Terrain.{Client}
use portal_conductor.Terrain.Token.Cache.{ByAge, access_token-ByAge}
use portal_conductor.DeleteUser.Arguments.{parsed, parse_args, classify}
use portal_conductor.DeleteUser.Arguments.Rendering.{
  dry_run, config_joined, name, flatten, parse_args-flatten,
}
use portal_conductor.Api.{Request, not_json, user_exists, generic}
use portal_conductor.Api.Errors.{write_json}
use portal_conductor.Api.Directory.{add_user_to_ldap_group, check_user_exists_in_ldap}
use portal_conductor.Api.Directory.Endpoints.{
  add_user_to_ldap_group-admit, check_user_exists_in_ldap-has_user,
}
use portal_conductor.Api.Portal.{username_valid, email_valid, validate_username, verdict}
use portal_conductor.Api.Portal.Creation.{check_request}
use portal_conductor.Api.Portal.Names.{to_lower-username_valid}
use portal_conductor.Api.Portal.Creation.Checks.{check_request-valid}
use portal_conductor.PortalDb.Accounts.{
  user_exists_by_username, is_restricted_username, email_exists,
}
use portal_conductor.Examples.World.{World, start}
use portal_conductor.Examples.Ldap
use portal_conductor.Examples.Tables.{database}
use portal_conductor.Examples.Services.{services, irods, http, memory, data_store}

parse_args-flatten_example :
    parse_args "" (flatten (dry_run ∷ name "ann" ∷ config_joined "x.json" ∷ []))
    ≡ parsed (record { username = "ann"; config_path = "x.json"; dry_run = true; help = false })
unfolding classify
parse_args-flatten_example =
    parse_args-flatten "" (dry_run ∷ name "ann" ∷ config_joined "x.json" ∷ []) "ann" refl refl refl

validate_uid_number-itoa_example : validate_uid_number (itoa (pos 9 +ℤ pos 2831)) ≡ (
    if is_nonpositive (pos 9 +ℤ pos 2831)
    then err (invalid_uid (itoa (pos 9 +ℤ pos 2831)))
    else ok (pos 9 +ℤ pos 2831))
validate_uid_number-itoa_example = validate_uid_number-itoa (pos 9) (pos 2831)

-- A home with one subcollection, which is empty.
abbrev listing : Bool → List DirEntry
listing true = record { path = "/zone/home/ann/sub"; is_dir = true } ∷ []
listing false = []

abbrev is_home : String → Bool
is_home path = path == "/zone/home/ann"

abbrev tree : DataStore.Server World Done
tree = record irods { list_dir = λ fs path w. (ok (listing (is_home path)), w) }

abbrev height : String → ℕ
height path = if is_home path then 1 else 0

lower :
    (b : Bool) (es : List DirEntry)
    → Path (Effect.Result (List DirEntry)) (ok (listing b)) (ok es)
    → All (λ e. e.is_dir ≡ true → height e.path < (if b then 1 else 0)) es
lower true es h = rw (sym (entries h)) (λ d. omega arith, tt)
  where
    entries : Path (Effect.Result (List DirEntry)) (ok (listing true)) (ok es) → listing true ≡ es
    entries k = cc
lower false [] h = tt
lower false (e ∷ es) h = cc

delete_contents-enough_example :
    delete_contents tree 2 tt "/zone/home/ann" ≡ delete_contents tree 5 tt "/zone/home/ann"
delete_contents-enough_example =
    delete_contents-enough tree tt height (λ path w es e. lower (is_home path) es e) 2 5
      "/zone/home/ann" (omega arith) (omega arith)

abbrev terrain : Client
terrain = record { base_url = "https://t"; username = "portal"; password = "pw" }

abbrev with_token : World
with_token = record start { token = "abc"; expiry = pos 100_000_000_000 }

access_token-ByAge_example : ByAge http memory terrain 0 100_000_000_000 with_token
access_token-ByAge_example =
    access_token-ByAge http memory terrain 0 100_000_000_000 with_token refl refl

abbrev about_ann : Request
about_ann = record {
  credentials = none;
  path_value = λ key. if key == "username" then "ann" else "community";
  query_value = λ s. "";
  body = not_json;
}

add_user_to_ldap_group-admit_example :
    Ldap.view
      (add_user_to_ldap_group Ldap.server Ldap.client defaults (λ j. "json") about_ann start).1
    ≡ admit "ann" "community" (Ldap.view start)
unfolding add_user_to_ldap_group user_in_group add_user_to_group get_user_groups with_connection
    dial dial_only search_entries group_dn Effect.◌>>=◌ Effect.pure Effect.context Effect.on_error
    Effect.deferring
add_user_to_ldap_group-admit_example =
    add_user_to_ldap_group-admit Ldap.server Ldap.client Ldap.view Ldap.is_directory defaults
      (λ j. "json") about_ann start
      (write_json 200 (generic true "User ann added to group community")) refl

check_user_exists_in_ldap-has_user_example :
    (write_json 200 (user_exists "ann" true)
      ≡ write_json 200 (user_exists "ann" ((Ldap.view start).has_user "ann")))
    × (Ldap.view
          (check_user_exists_in_ldap Ldap.server Ldap.client defaults
            (λ j. "json")
            about_ann
            start).1
        ≡ Ldap.view start)
unfolding check_user_exists_in_ldap get_user with_connection dial dial_only search_entries
    Effect.◌>>=◌ Effect.pure Effect.context Effect.on_error Effect.deferring
check_user_exists_in_ldap-has_user_example =
    check_user_exists_in_ldap-has_user Ldap.server Ldap.client Ldap.view Ldap.is_directory defaults
      (λ j. "json") about_ann start (write_json 200 (user_exists "ann" true)) refl

abbrev bob : PortalCreateUserRequest
bob = record portal_create_user_defaults { username = "bob"; email = "bob@example.org" }

check_request-valid_example : (validate_username "bob" database start).0 ≡ ok (verdict "bob" none)
unfolding check_request username_valid email_valid user_exists_by_username is_restricted_username
    email_exists Effect.◌>>=◌ Effect.pure Effect.context
check_request-valid_example =
    check_request-valid (services irods) defaults database (λ q s w. refl) Ldap.client data_store
      bob start refl

to_lower-username_valid_example : (to_lower "ann7" ≡ "ann7") × (("ann7" == "") ≡ false)
unfolding username_valid
to_lower-username_valid_example = to_lower-username_valid "ann7" refl
