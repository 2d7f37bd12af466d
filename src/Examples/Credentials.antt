-- ===== src/Examples/Credentials.antt =====
-- The validation of credentials by a server in memory.
use portal_conductor.Base.{String, ◌==◌, ◌≡◌, refl, Bool, true, false, ◌&&◌, ◌||◌, List, [], ◌∷◌}
use portal_conductor.External.{Error, ldap_error}
use portal_conductor.External.Effect
use portal_conductor.External.Effect.{ok, err, Done}
use portal_conductor.LdapClient
use portal_conductor.LdapClient.{Entry}
use portal_conductor.LdapClient.Connection.{with_connection, dial, dial_only, search_entries}
use portal_conductor.LdapClient.Users.{first_dn, get_user_dn, bind_as, validate_credentials}
use portal_conductor.LdapClient.Users.Credentials.{
  IsAuthority, is_accepted, validate_credentials-is_accepted,
}
use portal_conductor.Examples.World.{World, start}
use portal_conductor.Examples.Ldap

-- A server where a bind without a password succeeds, as it does in LDAP, and any other one where the
-- name and the password are those of Ann.
abbrev accepts : String → String → Bool
accepts dn pw = (dn == "uid=ann") && (pw == "secret")

abbrev dn_of : String → String
dn_of u = "uid=ann"

abbrev bound : Bool → Effect.Result Done
bound true = ok tt
bound false = err (ldap_error 49 "invalid credentials")

-- The service itself binds with an account that the server accepts.
abbrev bound_client : LdapClient.Client
bound_client = record Ldap.client { bind_dn = "uid=ann"; bind_password = "secret" }

abbrev authority : LdapClient.Server World Done
authority = record Ldap.server {
  search = λ conn r w. (ok (record { dn = "uid=ann"; attributes = [] } ∷ []), w);
  bind = λ conn dn pw w. (bound ((pw == "") || accepts dn pw), w);
}

bound_ok : (b a : Bool) → b ≡ false → bound (b || a) ≡ ok tt → a ≡ true
bound_ok true a p h = cc
bound_ok false true p h = refl
bound_ok false false p h = cc

bound_err : (b a : Bool) (e : Error) → bound (b || a) ≡ err e → a ≡ false
bound_err true a e h = cc
bound_err false true e h = cc
bound_err false false e h = refl

is_authority : IsAuthority authority bound_client dn_of accepts
is_authority = record {
  bind_ok = λ conn dn pw w d p e. bound_ok (pw == "") (accepts dn pw) p e;
  bind_err = λ conn dn pw w x e k. bound_err (pw == "") (accepts dn pw) x e;
  search_dn = λ conn u w es e. first es e;
}
  where
    first :
        (es : List Entry)
        → Path
            (Effect.Result (List Entry))
            (ok (record { dn = "uid=ann"; attributes = [] } ∷ []))
            (ok es)
        → first_dn es ≡ "uid=ann"
    first [] h = cc
    first (x ∷ es) h = cc

validate_credentials-is_accepted_example : true ≡ is_accepted dn_of accepts "ann" "secret"
unfolding validate_credentials bind_as get_user_dn with_connection dial dial_only search_entries
    Effect.◌>>=◌ Effect.pure Effect.lift Effect.try Effect.context Effect.on_error Effect.deferring
validate_credentials-is_accepted_example =
    validate_credentials-is_accepted authority bound_client dn_of accepts is_authority "ann"
      "secret" start true refl
