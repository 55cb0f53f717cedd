-- ===== src/Access/Tenants.antt =====
-- That an admin of a company sees that company only.
use adms.Prelude.{
  sym, ◌∙◌, ap, true, false, Bool-cases, String, ◌≡◌, ◌≢◌, ◌↔◌, ◌⊎◌, refl, Option, none, some,
  arith, eq_iff, inl, inr,
}
use adms.Store.{AdminRole}
use adms.Access.{
  is_super_admin, own_scope, requested_scope, AdminTokenPayload, AdminIdentity, pass,
  require_admin_auth, resolve_company_scope, everything, only, admit, lacks_company,
}

admit-lem :
    (payload : AdminTokenPayload) (admin : AdminIdentity)
    → admit (some payload) ≡ pass admin
    → (admin.role ≡ payload.role)
      × (admin.company_id ≡ payload.company_id)
      × (lacks_company payload.role payload.company_id ≡ false)
admit-lem payload admin h = ground arith

has_company :
    (role : AdminRole) (c : Option String)
    → role ≡ AdminRole.company_admin
    → lacks_company role c ≡ false
    → (company : String) × (company ≢ "") × (c ≡ some company)
has_company AdminRole.super_admin c r h =
    absurd (let stop : AdminRole.super_admin ≡ AdminRole.company_admin = r in cc)
has_company AdminRole.company_admin none r h = absurd (let stop : true ≡ false = h in cc)
has_company AdminRole.company_admin (some c) r h = (c, ground (arith, eq_iff c ""), refl)

own_company :
    (admin : AdminIdentity) (company : String) (requested : Option String)
    → admin.role ≡ AdminRole.company_admin
    → admin.company_id ≡ some company
    → resolve_company_scope (some admin) requested ≡ only company
unfolding resolve_company_scope
own_company admin company requested r c = ground arith

admitted_company :
    (o : Option AdminTokenPayload) (admin : AdminIdentity)
    → admit o ≡ pass admin
    → admin.role ≡ AdminRole.company_admin
    → (company : String) × (company ≢ "") × (admin.company_id ≡ some company)
admitted_company none admin h r = cc
admitted_company (some payload) admin h r =
    let (er, ec, el) = admit-lem payload admin h in
    let (company, given, e) = has_company payload.role payload.company_id (sym er ∙ r) el in
    (company, given, ec ∙ e)

-- Where the session's guard lets an admin of a company through, that admin has a company, and every
-- request of it is scoped to that company, whatever company it asks for.
pub company_admin-scope :
    (verify : String → Option AdminTokenPayload) (cookie : Option String) (admin : AdminIdentity)
    → require_admin_auth verify cookie ≡ pass admin
    → admin.role ≡ AdminRole.company_admin
    → (company : String) × (company ≢ "")
      × (admin.company_id ≡ some company)
      × ((requested : Option String) → resolve_company_scope (some admin) requested ≡ only company)
unfolding require_admin_auth
company_admin-scope verify none admin h r = cc
company_admin-scope verify (some token) admin h r =
    let inside : admit (verify token) ≡ pass admin = ground arith in
    let (company, given, e) = admitted_company (verify token) admin inside r in
    (company, given, e, λ requested. own_company admin company requested r e)

super_admin-of : (role : AdminRole) → is_super_admin role ≡ true → role ≡ AdminRole.super_admin
super_admin-of AdminRole.super_admin h = refl
super_admin-of AdminRole.company_admin h = cc

own_scope-some : (c : Option String) → own_scope c ≢ everything
own_scope-some none h = cc
own_scope-some (some c) h = cc

requested_scope-everything :
    (o : Option String) → (requested_scope o ≡ everything) ↔ ((o ≡ none) ⊎ (o ≡ some ""))
requested_scope-everything none = (λ _. inl refl, λ _. refl)
requested_scope-everything (some c) = ground (arith, eq_iff c "")

-- A scope is everything exactly for a super admin who asks for no company.
pub everything-super_admin :
    (admin : Option AdminIdentity) (requested : Option String)
    → (resolve_company_scope admin requested ≡ everything) ↔ (
        (a : AdminIdentity) × (admin ≡ some a)
        × (a.role ≡ AdminRole.super_admin)
        × ((requested ≡ none) ⊎ (requested ≡ some "")))
unfolding resolve_company_scope
everything-super_admin none requested = (λ e. cc, λ h. cc)
everything-super_admin (some a) requested = (
  λ e. elim (Bool-cases (is_super_admin a.role)) [
    | inl s ↦
        let asked : requested_scope requested ≡ everything = ground arith in
        (a, refl, super_admin-of a.role s, (requested_scope-everything requested).0 asked)
    | inr s ↦ absurd (own_scope-some a.company_id (ground arith))
  ],
  λ (b, e, r, o).
      let asked = (requested_scope-everything requested).1 o in
      let same : a ≡ b = cc in
      let role : a.role ≡ AdminRole.super_admin = ap (λ t. t.role) same ∙ r in
      ground (arith, asked, role),
)
