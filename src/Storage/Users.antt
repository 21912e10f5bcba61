-- ===== src/Storage/Users.antt =====
-- internal/storage/sqlite/users.go: the statements on principals. A role is one of the two constants,
-- so that `Role.Valid` holds.
use orientation_enrollment_p.Base.{ℕ, ◌∷◌, suc, ◌==◌, any, find}
use orientation_enrollment_p.Base.Text.{Text, text_eq, is_empty}
use orientation_enrollment_p.Domain.Errors.{sentinel, wrapped, field_error, conflict}
use orientation_enrollment_p.Domain.Identity.{User, normalize_email}
use orientation_enrollment_p.Storage.Db.{
  Db, Tx, pure, lift, gets, or_not_found, ◌>>=◌, ◌>>◌, modify, raise_if, attempt,
}

abbrev pub insert_user : User → Db → Db
insert_user u db = record db { users = u ∷ db.users; next_user_id = suc db.next_user_id }

-- `CreateUser`; `ux_users_email` refuses a second row with the address.
unfoldable pub create_user : User → Tx User
unfolding attempt
create_user user = do
  email ← lift (normalize_email user.email)
  raise_if (is_empty user.password_hash) (field_error "password" "must not be empty")
  attempt "insert user"
  taken ← gets (λ db. any (λ u. text_eq u.email email) db.users)
  raise_if taken (wrapped (sentinel conflict))
  id ← gets (λ db. db.next_user_id)
  let created = record user { id = id; email = email }
  modify (insert_user created)
  pure created

-- `FindUserByEmail`
unfoldable pub find_user_by_email : Text → Tx User
unfolding attempt
find_user_by_email email = do
  normalized ← lift (normalize_email email)
  attempt "select user by email"
  or_not_found (← gets (λ db. find (λ u. text_eq u.email normalized) db.users))

-- `FindUserByID`
unfoldable pub find_user_by_id : ℕ → Tx User
unfolding attempt
find_user_by_id id = do
  attempt "select user by id"
  or_not_found (← gets (λ db. find (λ u. u.id == id) db.users))
