-- ===== src/Accounts/UserEdit.antt =====
-- src/admin/adminUsers.ts: editing, deleting and resetting accounts.
use adms.Json.{null}
use adms.Http.{absent}
use adms.Prelude.{
  String, Bool, true, false, ◌&&◌, not, Option, none, some, any, filter, if◌then◌else◌, ◌==◌,
  string_eq, change_first,
}
use adms.Store.{AdminRole, AdminUser, Db}
use adms.Store.Exec.{
  World, Result, ok, thrown, known_request, Async, pure, branch, ◌>>=◌, ◌>>◌, try_catch, read,
  checked_write,
}
use adms.Access.{AdminIdentity, is_super_admin}
use adms.Accounts.{
  Libraries, to_public_user, user_of_id, parse_password, has_user_id, update_user, names_company,
  change_first,
}
use adms.DataTables.{}
use adms.Accounts.Users.{
  absent, null, Nullable, text, UserReply, shown, done, refused, lacks_company,
}

pub record UpdateUser : Type 0 where
  pub email : Option String
  pub role : Option AdminRole
  pub company_id : Nullable

abbrev with_email : UpdateUser → Option String → Option UpdateUser
with_email req none = none
with_email req (some email) = some (record req { email = some email })

abbrev with_given_email : Libraries → UpdateUser → Option String → Option UpdateUser
with_given_email libs req none = some req
with_given_email libs req (some email) = with_email req (libs.email_schema email)

-- `updateSchema`
unfoldable pub update_data : Libraries → UpdateUser → Option UpdateUser
update_data libs req = with_given_email libs req req.email

abbrev pub next_role : UpdateUser → AdminUser → AdminRole
next_role u user = elim u.role [ none ↦ user.role | some role ↦ role ]

abbrev pub company_after : Nullable → Option String → Option String
company_after absent old = old
company_after null old = none
company_after (text s) old = some s

-- `nextCompanyId`
abbrev pub next_company : UpdateUser → AdminUser → Option String
next_company u user = company_after u.company_id user.company_id

abbrev pub email_after : Option String → String → String
email_after none old = old
email_after (some email) old = email

abbrev pub apply_update : UpdateUser → AdminUser → AdminUser
apply_update u user = record user {
  email = email_after u.email user.email;
  role = next_role u user;
  company_id = next_company u user;
}

-- Whether a new address is another account's.
abbrev takes_email : String → Option String → AdminUser → Bool
takes_email id none user = false
takes_email id (some email) user = user.email == email && not (user.id == id)

abbrev pub written_company : Nullable → Option String
written_company absent = none
written_company null = none
written_company (text s) = some s

abbrev pub updated : UpdateUser → Option AdminUser → Option AdminUser
updated u none = none
updated u (some user) = some (apply_update u user)

-- `adminUser.update`: the row exists, its address is unique, and a company that is named exists.
unfoldable pub update_account : String → UpdateUser → World → Result (Option AdminUser) × Db
update_account id u w =
    if not (any (has_user_id id) db.admin_users)
    then (thrown (known_request "P2025"), db)
    else if any (takes_email id u.email) db.admin_users
    then (thrown (known_request "P2002"), db)
    else if names_company db (written_company u.company_id)
    then (
      ok (updated u (user_of_id id db)),
      record db { admin_users = change_first (has_user_id id) (apply_update u) db.admin_users },
    )
    else (thrown (known_request "P2003"), db)
  where
    open w use {db}

abbrev pub shown_or_missing : Option AdminUser → UserReply
shown_or_missing none = refused 404 "Not found"
shown_or_missing (some user) = shown (to_public_user user)

abbrev pub update_found : String → UpdateUser → Option AdminUser → Async UserReply
update_found id u none = pure (refused 404 "Not found")
update_found id u (some user) =
    branch (lacks_company (next_role u user) (next_company u user))
      (pure (refused 400 "companyId is required for company_admin role"))
      (try_catch (do changed ← checked_write (update_account id u); pure (shown_or_missing changed))
        (λ e. pure (refused 404 "Not found")))

abbrev pub update_parsed : String → Option UpdateUser → Async UserReply
update_parsed id none = pure (refused 400 "Invalid request")
update_parsed id (some u) = do found ← read (user_of_id id); update_found id u found

abbrev pub only_super_admin : AdminIdentity → Async UserReply → Async UserReply
only_super_admin admin m =
    branch (is_super_admin admin.role) m (pure (refused 403 "Super admin access required"))

-- PATCH /:id
unfoldable pub edit_account : Libraries → AdminIdentity → String → UpdateUser → Async UserReply
unfolding update_data update_account to_public_user
edit_account libs admin id req = only_super_admin admin (update_parsed id (update_data libs req))

-- `adminUser.delete`
unfoldable pub delete_user : String → World → Result (Unit {0}) × Db
delete_user id w =
    if any (has_user_id id) db.admin_users
    then (ok tt, record db { admin_users = filter (λ u. not (has_user_id id u)) db.admin_users })
    else (thrown (known_request "P2025"), db)
  where
    open w use {db}

-- DELETE /:id
unfoldable pub delete_account : AdminIdentity → String → Async UserReply
unfolding delete_user
delete_account admin id =
    only_super_admin admin do try_catch (checked_write (delete_user id)) (λ e. pure tt); pure done

abbrev pub with_reset : Libraries → String → AdminUser → AdminUser
with_reset libs password u = record u {
  password_hash = libs.bcrypt_hash password;
  must_change_password = true;
}

abbrev pub reset_parsed : Libraries → String → Option String → Async UserReply
reset_parsed libs id none = pure (refused 400 "Invalid request")
reset_parsed libs id (some password) =
    try_catch (do checked_write (update_user id (with_reset libs password)); pure done)
      (λ e. pure (refused 404 "Not found"))

-- POST /:id/reset-password
unfoldable pub reset_password : Libraries → AdminIdentity → String → Option String → Async UserReply
unfolding update_user
reset_password libs admin id password =
    only_super_admin admin (reset_parsed libs id (parse_password password))
