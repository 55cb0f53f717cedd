-- ===== src/Commands/Marks.antt =====
-- What an acknowledgement marks.
use adms.Prelude.{
  ℕ, ◌≡◌, ◌⊎◌, inl, inr, refl, ap, sym, ◌∙◌, String, Text, Option, none, some, List, [], ◌∷◌, map,
  any, text_eq, string_eq, ◌==◌, text_beq_iff, Bool-cases, ◌≢◌, false, All, arith,
}
use adms.Store.{Db, DeviceCommand, DeviceCommandStatus}
use adms.Store.Exec.{checked_write, try_catch}
use adms.Store.Preserves.{Preserves, preserve_rules, Preserves-write, Preserves-checked_write}
use adms.DeviceLookup.{touch_device, touch}
use adms.Commands.{has_id, id_match, set_acked, acknowledge, acknowledge_match, false, try_catch}

-- What a body leaves of a command: it is as it was, or the body names it, and it is marked with the
-- body and otherwise as it was.
abbrev pub Marked : Text → DeviceCommand → DeviceCommand → Type 0
Marked body c d =
    (d ≡ c)
    ⊎ ((id_match body ≡ some c.id)
        × (d.status ≡ DeviceCommandStatus.acked)
        × (d.response ≡ some body)
        × (d.id ≡ c.id)
        × (d.device_id ≡ c.device_id)
        × (d.command ≡ c.command))

abbrev pub AllMarked : Text → List DeviceCommand → List DeviceCommand → Type 0
AllMarked body [] [] = Unit
AllMarked body [] (d ∷ ds) = ⊥
AllMarked body (c ∷ cs) [] = ⊥
AllMarked body (c ∷ cs) (d ∷ ds) = Marked body c d × AllMarked body cs ds

pub AllMarked-refl : (body : Text) (cs : List DeviceCommand) → AllMarked body cs cs
AllMarked-refl body [] = tt
AllMarked-refl body (c ∷ cs) = (inl refl, AllMarked-refl body cs)

set_acked-Marked :
    (body id : Text) (now : ℕ) (c d : DeviceCommand)
    → id_match body ≡ some id
    → Marked body c d
    → Marked body c (set_acked id body now d)
unfolding set_acked
set_acked-Marked body id now c d named h = elim (Bool-cases (d.id == id)) [
  | inr other ↦ rw other h
  | inl own ↦ rw own (go h ((text_beq_iff d.id id).0 own))
]
  where
    go :
        Marked body c d
        → d.id ≡ id
        → Marked body c (record d {
          status = DeviceCommandStatus.acked;
          acked_at = some now;
          response = some body;
        })
    go (inl e) same = inr (
      named ∙ ap some (sym same ∙ ap (λ t. t.id) e),
      refl,
      refl,
      ap (λ t. t.id) e,
      ap (λ t. t.device_id) e,
      ap (λ t. t.command) e,
    )
    go (inr (m, s, r, i, o, k)) same = inr (m, refl, refl, i, o, k)

map-AllMarked :
    (body id : Text) (now : ℕ) (cs ds : List DeviceCommand)
    → id_match body ≡ some id
    → AllMarked body cs ds
    → AllMarked body cs (map (set_acked id body now) ds)
map-AllMarked body id now [] [] named h = tt
map-AllMarked body id now [] (d ∷ ds) named h = absurd h
map-AllMarked body id now (c ∷ cs) [] named h = absurd h
map-AllMarked body id now (c ∷ cs) (d ∷ ds) named (here, h) =
    (set_acked-Marked body id now c d named here, map-AllMarked body id now cs ds named h)

module _ (body : Text) (cs : List DeviceCommand) where
  abbrev pub AreMarked : Db → Type 0
  AreMarked db = AllMarked body cs db.device_commands

  pub touch-AreMarked : (id : String) → Preserves AreMarked (touch_device id)
  unfolding touch_device touch
  touch-AreMarked id =
      let kept = Preserves-write AreMarked (touch id) (λ v h. h) in search preserve_rules

  acknowledge-AreMarked :
      (id : Text)
      → id_match body ≡ some id
      → Preserves AreMarked (checked_write (acknowledge id body))
  unfolding acknowledge
  acknowledge-AreMarked id named = Preserves-checked_write AreMarked (acknowledge id body) (λ v h.
      elim (Bool-cases (any (has_id id) v.db.device_commands)) [
        | inl e ↦ rw e (map-AllMarked body id v.now cs v.db.device_commands named h)
        | inr e ↦ rw e h
      ])

  pub acknowledge_match-AreMarked :
      (o : Option Text) → id_match body ≡ o → Preserves AreMarked (acknowledge_match o body)
  unfolding acknowledge_match
  acknowledge_match-AreMarked none named = search preserve_rules
  acknowledge_match-AreMarked (some id) named =
      let kept = acknowledge-AreMarked id named in search preserve_rules

-- A command that the body names has been marked with it.
abbrev pub IsAcked : Text → ℕ → DeviceCommand → Type 0
IsAcked body now c =
    (id_match body ≢ some c.id)
    ⊎ ((c.status ≡ DeviceCommandStatus.acked) × (c.response ≡ some body) × (c.acked_at ≡ some now))

set_acked-IsAcked :
    (body id : Text) (now : ℕ) (c : DeviceCommand)
    → id_match body ≡ some id
    → IsAcked body now (set_acked id body now c)
unfolding set_acked
set_acked-IsAcked body id now c named = elim (Bool-cases (c.id == id)) [
  | inl e ↦ rw e (inr (refl, refl, refl))
  | inr e ↦ rw e (
      inl (λ k.
        let same : ◌≡◌ {A = Option Text} (some c.id) (some id) = sym k ∙ named in
        let same_id : c.id ≡ id = cc in let own = (text_beq_iff c.id id).1 same_id in cc))
]

map-IsAcked :
    (body id : Text) (now : ℕ) (cs : List DeviceCommand)
    → id_match body ≡ some id
    → All (IsAcked body now) (map (set_acked id body now) cs)
map-IsAcked body id now [] named = tt
map-IsAcked body id now (c ∷ cs) named =
    (set_acked-IsAcked body id now c named, map-IsAcked body id now cs named)

none-IsAcked :
    (body : Text) (now : ℕ) (cs : List DeviceCommand)
    → id_match body ≡ none
    → All (IsAcked body now) cs
none-IsAcked body now [] h = tt
none-IsAcked body now (c ∷ cs) h = (inl (λ k. cc), none-IsAcked body now cs h)

missing-IsAcked :
    (body id : Text) (now : ℕ) (cs : List DeviceCommand)
    → id_match body ≡ some id
    → any (has_id id) cs ≡ false
    → All (IsAcked body now) cs
missing-IsAcked body id now [] named h = tt
missing-IsAcked body id now (c ∷ cs) named h =
    let here : (c.id == id) ≡ false = ground arith in
    let rest : any (has_id id) cs ≡ false = ground arith in
    (
      inl (λ k.
          let same : ◌≡◌ {A = Option Text} (some c.id) (some id) = sym k ∙ named in
          let same_id : c.id ≡ id = cc in let own = (text_beq_iff c.id id).1 same_id in cc),
      missing-IsAcked body id now cs named rest,
    )

pub clear_match :
    (body : Text) (o : Option Text) (db : Db) (now : ℕ) (cuid : ℕ → String)
    → id_match body ≡ o
    → All
        (IsAcked body now)
        (acknowledge_match o body
          (record { db = db; now = now; faults = []; cuid = cuid })).1.db.device_commands
unfolding acknowledge_match acknowledge try_catch checked_write
clear_match body none db now cuid named = none-IsAcked body now db.device_commands named
clear_match body (some id) db now cuid named =
    elim (Bool-cases (any (has_id id) db.device_commands)) [
      | inl e ↦ rw e (map-IsAcked body id now db.device_commands named)
      | inr e ↦ rw e (missing-IsAcked body id now db.device_commands named e)
    ]
