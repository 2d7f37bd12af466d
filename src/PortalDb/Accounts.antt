-- ===== src/PortalDb/Accounts.antt =====
-- The look-ups: `GetUser` with its aggregate of emails, and the queries of the registration.
use portal_conductor.Base.{String, ◌<>◌, Bool, false, Option, none, some, List, [], ◌∷◌}
use portal_conductor.Base.Int.{ℤ}
use portal_conductor.Base.Text.{to_lower}
use portal_conductor.Json.{Json, Items, null, bool, text, array, object, nil, item, value_of}
use portal_conductor.External.{message}
use portal_conductor.External.Effect.{Result, ok, err, Call, pure, lift, context, wrapped, ◌>>=◌}
use portal_conductor.PortalDb.{
  Database, UserRow, UserInfo, EmailInfo, MailingListSubscription, exists_where_lower,
  exists_where_lower_both,
}

abbrev type_error : {A : Type 0} → Result A
type_error = err (message "json: cannot unmarshal a value into its Go field")

-- A null, like a missing key, leaves the zero value of the field.
string_field : Option Json → Result String
string_field none = ok ""
string_field (some null) = ok ""
string_field (some (text s)) = ok s
string_field (some _) = type_error

bool_field : Option Json → Result Bool
bool_field none = ok false
bool_field (some null) = ok false
bool_field (some (bool b)) = ok b
bool_field (some _) = type_error

-- Both results, or the first error.
both : {A B C : Type 0} → (A → B → C) → Result A → Result B → Result C
both f (ok a) (ok b) = ok (f a b)
both f (ok a) (err e) = err e
both f (err e) _ = err e

subscription : Json → Result MailingListSubscription
unfolding both string_field bool_field
subscription (object ms) =
    both (λ l b. record { list_name = l; is_subscribed = b })
      (string_field (value_of "list_name" ms)) (bool_field (value_of "is_subscribed" ms))
subscription null = ok (record { list_name = ""; is_subscribed = false })
subscription _ = type_error

-- A slice, element by element.
decode_items : {A : Type 0} → (Json → Result A) → Items → Result (List A)
unfolding both
decode_items decode nil = ok []
decode_items decode (item j js) = both ◌∷◌ (decode j) (decode_items decode js)

decode_slice : {A : Type 0} → (Json → Result A) → Option Json → Result (List A)
unfolding decode_items
decode_slice decode none = ok []
decode_slice decode (some null) = ok []
decode_slice decode (some (array js)) = decode_items decode js
decode_slice decode (some _) = type_error

email_info : Json → Result EmailInfo
unfolding both string_field decode_slice subscription
email_info (object ms) =
    both (λ e l. record { email = e; mailing_lists = l }) (string_field (value_of "email" ms))
      (decode_slice subscription (value_of "mailing_lists" ms))
email_info null = ok (record { email = ""; mailing_lists = [] })
email_info _ = type_error

-- `json.Unmarshal(emailsJSON, &user.Emails)`, where the column is not NULL.
unfoldable pub decode_emails : Option Json → Result (List EmailInfo)
unfolding decode_slice email_info
decode_emails = decode_slice email_info

abbrev or_empty : Option String → String
or_empty none = ""
or_empty (some s) = s

-- What follows the scan of the row.
unfoldable pub user_of_row : String → Option UserRow → Result (Option UserInfo)
user_of_row username none = ok none
user_of_row username (some row) = elim (decode_emails row.emails) [
  | ok emails ↦ ok (
      some (record {
        id = row.id;
        username = row.username;
        primary_email = or_empty row.primary_email;
        emails = emails;
      }))
  | err e ↦ wrapped ("parsing email aggregate for user '" <> username <> "'") (err e)
]

abbrev or_blank : Option String → String
or_blank none = ""
or_blank (some s) = s

module _ {W Tx : Type 0} (D : Database W Tx) where
  unfoldable pub get_user : Tx → String → Call W (Option UserInfo)
  get_user tx username = do
    row ←
        context ("querying portal database for user '" <> username <> "'")
          (D.select_user tx username)
    lift (user_of_row username row)

  unfoldable pub user_exists_by_username : String → Call W Bool
  user_exists_by_username username =
      context "checking username existence"
        (D.select_exists (exists_where_lower "account_user" "username") (to_lower username))

  unfoldable pub is_restricted_username : String → Call W Bool
  is_restricted_username username = context "checking restricted username" (
      D.select_exists (exists_where_lower "account_restrictedusername" "username")
        (to_lower username))

  unfoldable pub email_exists : String → Call W Bool
  email_exists email =
      context "checking email existence"
        (D.select_exists (exists_where_lower_both "account_emailaddress" "email") (to_lower email))

  unfoldable pub get_occupation_name : ℤ → Call W String
  get_occupation_name occupation_id = do
    name ← context "looking up occupation name" (D.select_occupation occupation_id)
    pure (or_blank name)
