-- ===== src/Api/Router/Table.antt =====
-- api/server.go: the routes of `Handler` and of `HealthHandler`.
use portal_conductor.Base.{String, none, some, List, [], ◌∷◌}
use portal_conductor.Api.{Handler}
use portal_conductor.Api.Router.{
  Segment, lit, wildcard, plain, slash, subtree, Pattern, unguarded, guarded, documentation,
  missing, Route, greeting_page,
}

-- The methods of `API` that are registered.
pub record Handlers (W : Type 0) : Type 0 where
  pub add_user : Handler W
  pub validate_credentials : Handler W
  pub change_password : Handler W
  pub delete_user : Handler W
  pub delete_user_async : Handler W
  pub get_deletion_status : Handler W
  pub list_analyses : Handler W
  pub get_analysis_details : Handler W
  pub create_ldap_user : Handler W
  pub add_user_to_ldap_group : Handler W
  pub get_user_ldap_groups : Handler W
  pub remove_user_from_ldap_group : Handler W
  pub get_user_ldap_info : Handler W
  pub check_user_exists_in_ldap : Handler W
  pub get_ldap_groups : Handler W
  pub modify_user_ldap_attribute : Handler W
  pub send_email : Handler W
  pub list_mailing_list_members : Handler W
  pub add_to_mailing_list : Handler W
  pub remove_from_mailing_list : Handler W
  pub check_email_in_mailing_list : Handler W
  pub create_datastore_user : Handler W
  pub check_user_exists_in_datastore : Handler W
  pub register_datastore_service : Handler W
  pub get_job_limits : Handler W
  pub set_job_limits : Handler W
  pub check_portal_user_exists : Handler W
  pub check_portal_email_exists : Handler W
  pub validate_portal_username : Handler W
  pub create_portal_user : Handler W

abbrev on : String → List Segment → Pattern
on method segments = record { method = some method; segments = segments; ending = plain }

abbrev pub health_pattern : Pattern
health_pattern = record { method = some "GET"; segments = []; ending = slash }

abbrev pub any_pattern : Pattern
any_pattern = record { method = none; segments = []; ending = subtree }

abbrev username : Segment
username = wildcard "username"

module _ {W : Type 0} where
  abbrev under : Pattern → Handler W → Route W
  under p fn = record { pattern = p; action = guarded fn }

  abbrev pub health_route : Route W
  health_route = record { pattern = health_pattern; action = unguarded greeting_page }

  abbrev pub last_route : Route W
  last_route = record { pattern = any_pattern; action = missing }

  abbrev user_routes : Handlers W → List (Route W)
  user_routes h =
      under (on "POST" (lit "users" ∷ [])) h.add_user
      ∷ under (record { method = some "POST"; segments = lit "users" ∷ []; ending = slash })
          h.add_user
      ∷ under (on "POST" (lit "users" ∷ username ∷ lit "validate" ∷ [])) h.validate_credentials
      ∷ under (on "POST" (lit "users" ∷ username ∷ lit "password" ∷ [])) h.change_password
      ∷ under (on "DELETE" (lit "users" ∷ username ∷ [])) h.delete_user
      ∷ under (on "DELETE" (lit "async" ∷ lit "users" ∷ username ∷ [])) h.delete_user_async
      ∷ under (on "GET" (lit "async" ∷ lit "status" ∷ wildcard "analysis_id" ∷ []))
          h.get_deletion_status
      ∷ under (on "GET" (lit "async" ∷ lit "analyses" ∷ [])) h.list_analyses
      ∷ under
          (on "GET" (lit "async" ∷ lit "analyses" ∷ wildcard "analysis_id" ∷ lit "details" ∷ []))
          h.get_analysis_details
      ∷ []

  abbrev ldap_routes : Handlers W → List (Route W)
  ldap_routes h =
      under (on "POST" (lit "ldap" ∷ lit "users" ∷ [])) h.create_ldap_user
      ∷ under
          (on "POST"
            (lit "ldap" ∷ lit "users" ∷ username ∷ lit "groups" ∷ wildcard "groupname" ∷ []))
          h.add_user_to_ldap_group
      ∷ under (on "GET" (lit "ldap" ∷ lit "users" ∷ username ∷ lit "groups" ∷ []))
          h.get_user_ldap_groups
      ∷ under
          (on "DELETE"
            (lit "ldap" ∷ lit "users" ∷ username ∷ lit "groups" ∷ wildcard "groupname" ∷ []))
          h.remove_user_from_ldap_group
      ∷ under (on "GET" (lit "ldap" ∷ lit "users" ∷ username ∷ [])) h.get_user_ldap_info
      ∷ under (on "GET" (lit "ldap" ∷ lit "users" ∷ username ∷ lit "exists" ∷ []))
          h.check_user_exists_in_ldap
      ∷ under (on "GET" (lit "ldap" ∷ lit "groups" ∷ [])) h.get_ldap_groups
      ∷ under
          (on "PUT"
            (lit "ldap" ∷ lit "users" ∷ username ∷ lit "attributes" ∷ wildcard "attribute" ∷ []))
          h.modify_user_ldap_attribute
      ∷ []

  abbrev mail_routes : Handlers W → List (Route W)
  mail_routes h =
      under (on "POST" (lit "emails" ∷ lit "send" ∷ [])) h.send_email
      ∷ under (on "GET" (lit "mailinglists" ∷ wildcard "listname" ∷ lit "members" ∷ []))
          h.list_mailing_list_members
      ∷ under (on "POST" (lit "mailinglists" ∷ wildcard "listname" ∷ lit "members" ∷ []))
          h.add_to_mailing_list
      ∷ under
          (on "DELETE"
            (lit "mailinglists" ∷ wildcard "listname" ∷ lit "members" ∷ wildcard "email" ∷ []))
          h.remove_from_mailing_list
      ∷ under
          (on "GET" (
            lit "mailinglists"
            ∷ wildcard "listname"
            ∷ lit "members"
            ∷ wildcard "email"
            ∷ lit "exists"
            ∷ []))
          h.check_email_in_mailing_list
      ∷ []

  abbrev other_routes : Handlers W → List (Route W)
  other_routes h =
      under (on "POST" (lit "datastore" ∷ lit "users" ∷ [])) h.create_datastore_user
      ∷ under (on "GET" (lit "datastore" ∷ lit "users" ∷ username ∷ lit "exists" ∷ []))
          h.check_user_exists_in_datastore
      ∷ under (on "POST" (lit "datastore" ∷ lit "users" ∷ username ∷ lit "services" ∷ []))
          h.register_datastore_service
      ∷ under (on "GET" (lit "terrain" ∷ lit "users" ∷ username ∷ lit "job-limits" ∷ []))
          h.get_job_limits
      ∷ under (on "POST" (lit "terrain" ∷ lit "users" ∷ username ∷ lit "job-limits" ∷ []))
          h.set_job_limits
      ∷ under (on "GET" (lit "portal" ∷ lit "users" ∷ username ∷ lit "exists" ∷ []))
          h.check_portal_user_exists
      ∷ under (on "GET" (lit "portal" ∷ lit "emails" ∷ wildcard "email" ∷ lit "exists" ∷ []))
          h.check_portal_email_exists
      ∷ under (on "POST" (lit "portal" ∷ lit "users" ∷ username ∷ lit "validate" ∷ []))
          h.validate_portal_username
      ∷ under (on "POST" (lit "portal" ∷ lit "users" ∷ [])) h.create_portal_user
      ∷ []

  abbrev joined : List (Route W) → List (Route W) → List (Route W)
  joined [] qs = qs
  joined (r ∷ rs) qs = r ∷ joined rs qs

  abbrev docs_route : Route W
  docs_route = record {
    pattern = record { method = none; segments = lit "docs" ∷ []; ending = subtree };
    action = documentation;
  }

  -- The routes but for the last one, which is for every other request.
  unfoldable pub api_routes : Handlers W → List (Route W)
  api_routes h =
      health_route
      ∷ docs_route
      ∷ joined (user_routes h) (joined (ldap_routes h) (joined (mail_routes h) (other_routes h)))

  -- `Handler`.
  unfoldable pub routes : Handlers W → List (Route W)
  unfolding api_routes
  routes h = joined (api_routes h) (last_route ∷ [])

  -- `HealthHandler`.
  unfoldable pub health_routes : List (Route W)
  health_routes = health_route ∷ last_route ∷ []
