-- ===== src/Accounts/Roles.antt =====
-- src/admin/adminUsers.ts, src/admin/companies.ts and src/admin/auth.ts: that every admin of a
-- company has one.
use adms.Prelude.{
  String, false, some, [], ◌∷◌, ◌++◌, ◌≡◌, refl, All, All-append, All-change_first, string_eq, inl,
  inr, arith, not, ◌⊎◌, change_first, filter,
}
use adms.Store.{AdminRole, AdminUser, Db}
use adms.Store.Exec.{World, checked_write}
use adms.Store.Preserves.{Preserves, Preserves-checked_write}
use adms.Accounts.{
  create_user, update_user, NewUser, new_user, has_user_id, user_of_id, change_first,
}
use adms.Accounts.Users.{lacks_company, company_for, value_of, Nullable}
use adms.Accounts.UserEdit.{UpdateUser, apply_update, update_account, delete_user}

abbrev pub HasCompany : AdminUser → Type 0
HasCompany u = lacks_company u.role u.company_id ≡ false

-- Every account with the role of a company's admin names a company.
pub record AdminsHaveCompany (db : Db) : Type 0 where
  pub rows : All HasCompany db.admin_users

pub kept_by :
    (before after : Db)
    → after.admin_users ≡ before.admin_users
    → AdminsHaveCompany before
    → AdminsHaveCompany after
kept_by before after same h = record { rows = rw same h.rows }

pub grown :
    (before after : Db) (u : AdminUser)
    → after.admin_users ≡ before.admin_users ++ u ∷ []
    → HasCompany u
    → AdminsHaveCompany before
    → AdminsHaveCompany after
grown before after u more has h = record {
  rows = rw more (All-append HasCompany before.admin_users (u ∷ []) h.rows (has, tt));
}

create_user-users :
    (n : NewUser) (v : World)
    → let after = (create_user n v).1.admin_users in
      (after ≡ v.db.admin_users)
      ⊎ (after ≡ v.db.admin_users ++ new_user n (v.cuid v.db.minted) ∷ [])
unfolding create_user
create_user-users n v = ground arith

pub create_user-keeps :
    (n : NewUser)
    → lacks_company n.role n.company_id ≡ false
    → Preserves AdminsHaveCompany (checked_write (create_user n))
create_user-keeps n has = Preserves-checked_write AdminsHaveCompany (create_user n) (λ v h.
    elim (create_user-users n v) [
      | inl same ↦ kept_by v.db (create_user n v).1 same h
      | inr more ↦ grown v.db (create_user n v).1 (new_user n (v.cuid v.db.minted)) more has h
    ])

pub company_for-given :
    (role : AdminRole) (company : Nullable)
    → lacks_company role (value_of company) ≡ false
    → lacks_company role (company_for role company) ≡ false
company_for-given AdminRole.super_admin company h = refl
company_for-given AdminRole.company_admin company h = h

pub update_account-users :
    (id : String) (u : UpdateUser) (v : World)
    → let after = (update_account id u v).1.admin_users in
      (after ≡ v.db.admin_users)
      ⊎ (after ≡ change_first (has_user_id id) (apply_update u) v.db.admin_users)
unfolding update_account
update_account-users id u v = ground arith

pub update_user-users :
    (id : String) (f : AdminUser → AdminUser) (v : World)
    → let after = (update_user id f v).1.admin_users in
      (after ≡ v.db.admin_users) ⊎ (after ≡ change_first (has_user_id id) f v.db.admin_users)
unfolding update_user
update_user-users id f v = ground arith

pub delete_user-users :
    (id : String) (v : World)
    → let after = (delete_user id v).1.admin_users in
      (after ≡ v.db.admin_users) ⊎ (after ≡ filter (λ u. not (has_user_id id u)) v.db.admin_users)
unfolding delete_user
delete_user-users id v = ground arith

pub changed :
    (before after : Db) (id : String) (f : AdminUser → AdminUser)
    → (after.admin_users ≡ before.admin_users)
      ⊎ (after.admin_users ≡ change_first (has_user_id id) f before.admin_users)
    → ((u : AdminUser) → user_of_id id before ≡ some u → HasCompany (f u))
    → AdminsHaveCompany before
    → AdminsHaveCompany after
changed before after id f (inl same) has h = kept_by before after same h
changed before after id f (inr new) has h = record {
  rows = rw new (All-change_first HasCompany (has_user_id id) f before.admin_users h.rows has);
}
