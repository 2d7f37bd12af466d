-- ===== src/LdapClient/Users/Uid.antt =====
-- The uidNumber of a registration, from its text back to the number.
use portal_conductor.Base.{String, ◌<>◌, ◌≡◌, refl, if◌then◌else◌}
use portal_conductor.Base.Int.{ℤ, is_nonpositive, ◌+ℤ◌, IsInt64-+ℤ}
use portal_conductor.Base.Text.{itoa}
use portal_conductor.Base.Text.Decimal.{atoi-itoa}
use portal_conductor.External.{Error, message}
use portal_conductor.External.Effect.{ok, err}
use portal_conductor.LdapClient.Users.{validate_uid_number}

abbrev pub invalid_uid : String → Error
invalid_uid s = message ("invalid uidNumber '" <> s <> "': must be a positive integer")

-- The sum of a user id and the offset, as `int64`, passes through its text unharmed: `CreateUser`
-- sees the same number, and refuses it exactly where the sum is not positive.
pub validate_uid_number-itoa :
    (user_id offset : ℤ)
    → validate_uid_number (itoa (user_id +ℤ offset)) ≡ (
        if is_nonpositive (user_id +ℤ offset)
        then err (invalid_uid (itoa (user_id +ℤ offset)))
        else ok (user_id +ℤ offset))
unfolding validate_uid_number
validate_uid_number-itoa user_id offset =
    rw (validate_uid_number, atoi-itoa (user_id +ℤ offset) (IsInt64-+ℤ user_id offset)) refl
