-- ===== src/Accounts/RolesKept.antt =====
-- src/admin/adminUsers.ts and src/admin/auth.ts: that each of their routes leaves every admin of a
-- company with one.
use adms.Prelude.{
  String, Bool, true, false, Option, none, some, ◌≡◌, refl, ap, ◌∙◌, All-kept, ◌==◌, string_eq, inl,
  inr, not, sym, All-find, if◌then◌else◌,
}
use adms.Store.{AdminUser}
use adms.Store.Exec.{World, DbError, Async, pure, branch, ◌>>=◌, try_catch, checked_write, read}
use adms.Store.Preserves.{
  Preserves, preserve_rules, Preserves-read_then, tried_write-keeps, Preserves-checked_write,
  Preserves-branch, Preserves-try_catch, Preserves->>=, Preserves->>, Preserves-pure,
  Preserves-read,
}
use adms.Access.{AdminIdentity, is_super_admin}
use adms.Accounts.{
  Libraries, create_user, update_user, has_user_id, user_of_id, parse_password, non_empty_text,
}
use adms.Accounts.Users.{
  CreateUser, CreateData, create_account, lacks_company, account_of, value_of, create_parsed,
  create_data, may_create, create_failure, UserReply,
}
use adms.Accounts.UserEdit.{
  UpdateUser, edit_account, delete_account, reset_password, apply_update, next_role, next_company,
  update_account, update_parsed, update_found, delete_user, shown_or_missing, reset_parsed,
  with_reset, update_data,
}
use adms.Accounts.Roles.{
  HasCompany, AdminsHaveCompany, kept_by, create_user-keeps, company_for-given,
  update_account-users, update_user-users, delete_user-users, changed,
}
use adms.Accounts.Signup.{
  rethrow, PasswordChange, change_password, change_parsed, change_if_valid, with_password,
}

-- A branch whose first part may use that the test holds, and whose second that it does not.
pub guarded-keeps :
    {A : Type 0} (b : Bool) (m k : Async A)
    → (b ≡ true → Preserves AdminsHaveCompany m)
    → (b ≡ false → Preserves AdminsHaveCompany k)
    → Preserves AdminsHaveCompany (branch b m k)
guarded-keeps true m k pm pk = pm refl
guarded-keeps false m k pm pk = pk refl

create_failure-keeps : (e : DbError) → Preserves AdminsHaveCompany (create_failure e)
create_failure-keeps (DbError.known_request code) = go (code == "P2002") (code == "P2003")
  where
    go :
        (conflict missing : Bool)
        → Preserves AdminsHaveCompany (
            if conflict
            then pure (UserReply.refused 409 "An admin user with this email already exists")
            else if missing
            then pure (UserReply.refused 400 "companyId does not refer to an existing company")
            else rethrow (DbError.known_request code))
    go true missing = record { from = λ w h. h }
    go false true = record { from = λ w h. h }
    go false false = record { from = λ w h. h }
create_failure-keeps DbError.initialization = record { from = λ w h. h }
create_failure-keeps DbError.rust_panic = record { from = λ w h. h }
create_failure-keeps (DbError.other message) = record { from = λ w h. h }

pub create_account-keeps :
    (libs : Libraries) (admin : AdminIdentity) (req : CreateUser)
    → Preserves AdminsHaveCompany (create_account libs admin req)
unfolding create_account
create_account-keeps libs admin req = go (create_data libs req)
  where
    go :
        (parsed : Option CreateData) → Preserves AdminsHaveCompany (create_parsed libs admin parsed)
    go none = search preserve_rules
    go (some sent) =
        Preserves-branch AdminsHaveCompany (may_create admin sent.role sent.company_id) _ _
          (guarded-keeps (lacks_company sent.role (value_of sent.company_id)) _ _
            (λ e. search preserve_rules)
            (λ e.
              Preserves-try_catch AdminsHaveCompany _ create_failure
                (Preserves->>= AdminsHaveCompany
                  (checked_write (create_user (account_of libs sent))) _
                  (create_user-keeps (account_of libs sent)
                    (company_for-given sent.role sent.company_id e))
                  (λ user. Preserves-pure AdminsHaveCompany _))
                create_failure-keeps))
          (search preserve_rules)

update_found-keeps :
    (id : String) (u : UpdateUser) (found : Option AdminUser) (w : World)
    → user_of_id id w.db ≡ found
    → AdminsHaveCompany w.db
    → AdminsHaveCompany (update_found id u found w).1.db
update_found-keeps id u none w e h = h
update_found-keeps id u (some user) w e h =
    go (lacks_company (next_role u user) (next_company u user)) refl
  where
    go :
        (lacks : Bool)
        → lacks_company (next_role u user) (next_company u user) ≡ lacks
        → AdminsHaveCompany
            (branch lacks
              (pure (UserReply.refused 400 "companyId is required for company_admin role"))
              (try_catch
                (do changed ← checked_write (update_account id u); pure (shown_or_missing changed))
                (λ e. pure (UserReply.refused 404 "Not found")))
              w).1.db
    go true is = h
    go false is =
        tried_write-keeps AdminsHaveCompany (update_account id u) shown_or_missing
          (UserReply.refused 404 "Not found") w h
          (λ v same.
            changed v.db (update_account id u v).1 id (apply_update u) (update_account-users id u v)
              (λ x k.
                let one : ◌≡◌ {A = Option AdminUser} (some x) (some user) =
                  sym k ∙ (ap (user_of_id id) same ∙ e) in
                let it : x ≡ user = cc in rw it is)
              (kept_by w.db v.db (ap (λ db. db.admin_users) same) h))

pub edit_account-keeps :
    (libs : Libraries) (admin : AdminIdentity) (id : String) (req : UpdateUser)
    → Preserves AdminsHaveCompany (edit_account libs admin id req)
unfolding edit_account
edit_account-keeps libs admin id req =
    Preserves-branch AdminsHaveCompany (is_super_admin admin.role) _ _ (go (update_data libs req))
      (search preserve_rules)
  where
    go : (parsed : Option UpdateUser) → Preserves AdminsHaveCompany (update_parsed id parsed)
    go none = search preserve_rules
    go (some u) =
        Preserves-read_then AdminsHaveCompany (user_of_id id) (update_found id u)
          (λ w h. update_found-keeps id u (user_of_id id w.db) w refl h)

-- A change that leaves roles and companies alone.
update_user-keeps :
    (id : String) (f : AdminUser → AdminUser)
    → ((u : AdminUser) → ((f u).role ≡ u.role) × ((f u).company_id ≡ u.company_id))
    → Preserves AdminsHaveCompany (checked_write (update_user id f))
update_user-keeps id f same = Preserves-checked_write AdminsHaveCompany (update_user id f) (λ v h.
    changed v.db (update_user id f v).1 id f (update_user-users id f v)
      (λ u found.
        let has : HasCompany u =
          All-find HasCompany (has_user_id id) v.db.admin_users h.rows u found in
        rw ((same u).0, (same u).1) has)
      h)

pub reset_password-keeps :
    (libs : Libraries) (admin : AdminIdentity) (id : String) (password : Option String)
    → Preserves AdminsHaveCompany (reset_password libs admin id password)
unfolding reset_password
reset_password-keeps libs admin id password =
    Preserves-branch AdminsHaveCompany (is_super_admin admin.role) _ _
      (go (parse_password password)) (search preserve_rules)
  where
    go : (parsed : Option String) → Preserves AdminsHaveCompany (reset_parsed libs id parsed)
    go none = search preserve_rules
    go (some p) =
        Preserves-try_catch AdminsHaveCompany _ _
          (Preserves->> AdminsHaveCompany (checked_write (update_user id (with_reset libs p))) _
            (update_user-keeps id (with_reset libs p) (λ u. (refl, refl)))
            (Preserves-pure AdminsHaveCompany _))
          (λ e. Preserves-pure AdminsHaveCompany _)

pub change_password-keeps :
    (libs : Libraries) (admin : AdminIdentity) (req : PasswordChange)
    → Preserves AdminsHaveCompany (change_password libs admin req)
unfolding change_password
change_password-keeps libs admin req =
    go (non_empty_text req.current_password) (parse_password req.new_password)
  where
    valid :
        (current next : String) (found : Option AdminUser)
        → Preserves AdminsHaveCompany (change_if_valid libs current next found)
    valid current next none = search preserve_rules
    valid current next (some u) =
        Preserves-branch AdminsHaveCompany (libs.bcrypt_compare current u.password_hash) _ _
          (Preserves->> AdminsHaveCompany
            (checked_write (update_user u.id (with_password libs next))) _
            (update_user-keeps u.id (with_password libs next) (λ x. (refl, refl)))
            (Preserves-pure AdminsHaveCompany _))
          (search preserve_rules)

    go :
        (current next : Option String)
        → Preserves AdminsHaveCompany (change_parsed libs admin current next)
    go none next = search preserve_rules
    go (some current) none = search preserve_rules
    go (some current) (some next) =
        Preserves->>= AdminsHaveCompany (read (user_of_id admin.id)) _
          (Preserves-read AdminsHaveCompany (user_of_id admin.id)) (valid current next)

pub delete_account-keeps :
    (admin : AdminIdentity) (id : String) → Preserves AdminsHaveCompany (delete_account admin id)
unfolding delete_account
delete_account-keeps admin id =
    Preserves-branch AdminsHaveCompany (is_super_admin admin.role) _ _
      (Preserves->> AdminsHaveCompany _ _
        (Preserves-try_catch AdminsHaveCompany (checked_write (delete_user id)) _
          (Preserves-checked_write AdminsHaveCompany (delete_user id) (λ v h.
            elim (delete_user-users id v) [
              | inl same ↦ kept_by v.db (delete_user id v).1 same h
              | inr fewer ↦ record {
                rows =
                    rw fewer
                      (All-kept HasCompany (λ u. not (has_user_id id u)) v.db.admin_users h.rows);
              }
            ]))
          (λ e. Preserves-pure AdminsHaveCompany _))
        (Preserves-pure AdminsHaveCompany _))
      (search preserve_rules)
