-- ===== src/Devices/Claim.antt =====
-- What a claim does, and for whom.
use adms.Timezone.{Intl}
use adms.Access.{AdminIdentity, is_super_admin}
use adms.Store.Exec.{World, Result, ok, thrown}
use adms.Prelude.{
  none, List, Option, refl, ◌∙◌, Bool, true, false, ◌⊎◌, ◌≢◌, inl, inr, string_eq, ◌==◌, [], ◌∷◌,
  some, ap, ◌≡◌, String, ◌++◌, arith, filter, find, not, All, any, eq_iff, Bool-cases, Option-cases,
  sym,
}
use adms.Store.{PendingDevice, Db, Device, AdminRole}
use adms.Devices.{
  claim, refused, ClaimRequest, ClaimReply, claimed, may_act_for, may_take, claimed_secret,
  pending_of,
}
use adms.Devices.ClaimSteps.{Coded, claim-Coded}

-- The secret is the pending row's, or the random one where that row has none or is missing.
abbrev pub CarriesOver : Option PendingDevice → String → String → Type 0
CarriesOver none fresh secret = secret ≡ fresh
CarriesOver (some p) fresh secret =
    (p.secret ≡ some secret) ⊎ ((p.secret ≡ none) × (secret ≡ fresh))

-- The pending row is nobody's yet, or the company's.
abbrev pub IsFreeFor : String → Option PendingDevice → Type 0
IsFreeFor company_id none = Unit
IsFreeFor company_id (some p) =
    (p.company_id ≡ none) ⊎ ((p.company_id ≡ some "") ⊎ (p.company_id ≡ some company_id))

-- What becomes of the database: a device more, of a serial number that was not registered, for the
-- company and the time zone asked for and with the secret carried over, and no pending row of the
-- serial number, with all others kept; or nothing at all.
abbrev pub ClaimOutcome :
    AdminIdentity → String → ClaimRequest → Db → Result ClaimReply → Db → Type 0
ClaimOutcome admin fresh req before (ok (claimed d)) after =
    let pending = find (λ p. p.serial_number == req.serial_number) before.pending_devices in
    (after.devices ≡ before.devices ++ d ∷ [])
    × (d.serial_number ≡ req.serial_number)
    × (d.company_id ≡ req.company_id)
    × (d.timezone ≡ req.timezone)
    × All (λ x. x.serial_number ≢ req.serial_number) before.devices
    × (after.pending_devices
        ≡ filter (λ p. not (p.serial_number == req.serial_number)) before.pending_devices)
    × CarriesOver pending fresh d.device_secret
    × ((admin.role ≡ AdminRole.super_admin) ⊎ (admin.company_id ≡ some req.company_id))
    × ((admin.role ≡ AdminRole.super_admin) ⊎ IsFreeFor req.company_id pending)
ClaimOutcome admin fresh req before (ok (refused status)) after = after ≡ before
ClaimOutcome admin fresh req before (thrown e) after = after ≡ before

none_registered :
    (sn : String) (ds : List Device)
    → any (λ d. d.serial_number == sn) ds ≡ false
    → All (λ d. d.serial_number ≢ sn) ds
none_registered sn [] h = tt
none_registered sn (d ∷ ds) h =
    let here : (d.serial_number == sn) ≡ false = ground arith in
    let rest : any (λ x. x.serial_number == sn) ds ≡ false = ground arith in
    ((λ e. let same = (eq_iff d.serial_number sn).1 e in cc), none_registered sn ds rest)

claimed_secret-CarriesOver :
    (fresh secret : String) (pending : Option PendingDevice)
    → secret ≡ claimed_secret fresh pending
    → CarriesOver pending fresh secret
unfolding claimed_secret
claimed_secret-CarriesOver fresh secret none h = h
claimed_secret-CarriesOver fresh secret (some p) h = elim (Option-cases p.secret) [
  | inl e ↦ inr (e, rw e at h)
  | inr (s, e) ↦ inl (e ∙ ap some (sym (rw e at h)))
]

is_super_admin-role : (role : AdminRole) → is_super_admin role ≡ true → role ≡ AdminRole.super_admin
is_super_admin-role AdminRole.super_admin h = refl
is_super_admin-role AdminRole.company_admin h = cc

may_act_for-sum :
    (admin : AdminIdentity) (company_id : String)
    → may_act_for admin company_id ≡ true
    → (admin.role ≡ AdminRole.super_admin) ⊎ (admin.company_id ≡ some company_id)
unfolding may_act_for
may_act_for-sum admin company_id h = elim (Bool-cases (is_super_admin admin.role)) [
  | inl e ↦ inl (is_super_admin-role admin.role e)
  | inr e ↦ elim (Option-cases admin.company_id) [
    | inl k ↦ absurd (let stop : ◌≡◌ {A = Bool} false true = rw (e, k) at h in cc)
    | inr (c, k) ↦ inr (k ∙ ap some ((eq_iff c company_id).0 (rw (e, k) at h)))
  ]
]

may_take-sum :
    (admin : AdminIdentity) (company_id : String) (pending : Option PendingDevice)
    → may_take admin company_id pending ≡ true
    → (admin.role ≡ AdminRole.super_admin) ⊎ IsFreeFor company_id pending
unfolding may_take
may_take-sum admin company_id none h = inr tt
may_take-sum admin company_id (some p) h = elim (Bool-cases (is_super_admin admin.role)) [
  | inl e ↦ inl (is_super_admin-role admin.role e)
  | inr e ↦ elim (Option-cases p.company_id) [
    | inl k ↦ inr (inl k)
    | inr (c, k) ↦ elim (Bool-cases (c == "")) [
      | inl empty ↦ inr (inr (inl (k ∙ ap some ((eq_iff c "").0 empty))))
      | inr given ↦ inr (inr (inr (k ∙ ap some ((eq_iff c company_id).0 (rw (e, k, given) at h)))))
    ]
  ]
]

Coded-ClaimOutcome :
    (admin : AdminIdentity) (fresh : String) (req : ClaimRequest) (before : Db)
    (r : Result ClaimReply) (after : Db)
    → Coded admin fresh req before r after
    → ClaimOutcome admin fresh req before r after
Coded-ClaimOutcome admin fresh req before (thrown e) after h = h
Coded-ClaimOutcome admin fresh req before (ok (refused status)) after h = h
Coded-ClaimOutcome admin fresh req before (ok (claimed d)) after h =
    let (ds, sn, c, tz, new, gone, s, act, take) = h in
    (
      ds,
      sn,
      c,
      tz,
      none_registered req.serial_number before.devices new,
      gone,
      claimed_secret-CarriesOver fresh d.device_secret (pending_of req.serial_number before) s,
      may_act_for-sum admin req.company_id act,
      may_take-sum admin req.company_id (pending_of req.serial_number before) take,
    )

-- A claim that succeeds adds one device, of a serial number that no device had, with the company and
-- the time zone asked for and the secret of its pending row (the random one if there is none); every
-- pending row of the serial number is gone and all others are kept; and the admin is a super admin,
-- or of that company, with the pending row nobody's or that company's. A claim that is refused or
-- that rejects leaves the database as it was, whatever statements fail.
pub claim-ClaimOutcome :
    (intl : Intl) (fresh : String) (admin : AdminIdentity) (req : ClaimRequest) (w : World)
    → ClaimOutcome admin fresh req w.db
        (claim intl fresh admin req w).0
        (claim intl fresh admin req w).1.db
claim-ClaimOutcome intl fresh admin req w =
    Coded-ClaimOutcome admin fresh req w.db _ _ (claim-Coded intl fresh admin req w)
