-- ===== src/Lifecycle/Keys.antt =====
-- The ids of punches as a key, and the counts of attempts, under the changes of the two tables.
use adms.Prelude.{
  ◌≡◌, refl, ap, sym, ◌∙◌, arith, eq_iff, Bool-cases, inl, inr, Bool, String, List, All, map, false,
  filter, ◌∷◌, [], not, ◌==◌, ◌++◌, All-kept, string_eq, ◌||◌, true,
}
use adms.Store.{PunchRecord, WebhookDelivery}
use adms.Retention.{has_punch}
use adms.Worker.Attempts.{deliveries_of, IsCounted}

unfoldable pub has_punch_id : String → List PunchRecord → Bool
has_punch_id id [] = false
has_punch_id id (p ∷ ps) = p.id == id || has_punch_id id ps

-- No two punches have the same id.
abbrev pub HaveKeys : List PunchRecord → Type 0
HaveKeys [] = Unit
HaveKeys (p ∷ ps) = (has_punch_id p.id ps ≡ false) × HaveKeys ps

pub has_punch_id-append :
    (id : String) (ps : List PunchRecord) (x : PunchRecord)
    → has_punch_id id ps ≡ false
    → (x.id == id) ≡ false
    → has_punch_id id (ps ++ x ∷ []) ≡ false
unfolding has_punch_id
has_punch_id-append id [] x h e = ground arith
has_punch_id-append id (p ∷ ps) x h e =
    let rest : has_punch_id id ps ≡ false = ground arith in
    ground (arith, has_punch_id-append id ps x rest e)

pub added-HaveKeys :
    (ps : List PunchRecord) (x : PunchRecord)
    → HaveKeys ps
    → has_punch_id x.id ps ≡ false
    → HaveKeys (ps ++ x ∷ [])
unfolding has_punch_id
added-HaveKeys [] x h e = (refl, tt)
added-HaveKeys (p ∷ ps) x h e =
    let other : (x.id == p.id) ≡ false = ground (arith, eq_iff x.id p.id, eq_iff p.id x.id) in
    let rest : has_punch_id x.id ps ≡ false = ground arith in
    (has_punch_id-append p.id ps x h.0 other, added-HaveKeys ps x h.1 rest)

has_punch_id-map :
    (f : PunchRecord → PunchRecord)
    → ((p : PunchRecord) → (f p).id ≡ p.id)
    → (id : String) (ps : List PunchRecord) → has_punch_id id (map f ps) ≡ has_punch_id id ps
unfolding has_punch_id
has_punch_id-map f same id [] = refl
has_punch_id-map f same id (p ∷ ps) = rw (same p) (rw (has_punch_id-map f same id ps) refl)

pub map-HaveKeys :
    (f : PunchRecord → PunchRecord)
    → ((p : PunchRecord) → (f p).id ≡ p.id)
    → (ps : List PunchRecord) → HaveKeys ps
    → HaveKeys (map f ps)
map-HaveKeys f same [] h = tt
map-HaveKeys f same (p ∷ ps) h =
    (rw (same p) (has_punch_id-map f same p.id ps ∙ h.0), map-HaveKeys f same ps h.1)

has_punch_id-filter :
    (keep : PunchRecord → Bool) (id : String) (ps : List PunchRecord)
    → has_punch_id id ps ≡ false
    → has_punch_id id (filter keep ps) ≡ false
unfolding has_punch_id
has_punch_id-filter keep id [] h = refl
has_punch_id-filter keep id (p ∷ ps) h =
    let rest : has_punch_id id ps ≡ false = ground arith in
    ground (arith, has_punch_id-filter keep id ps rest)

pub filter-HaveKeys :
    (keep : PunchRecord → Bool) (ps : List PunchRecord) → HaveKeys ps → HaveKeys (filter keep ps)
filter-HaveKeys keep [] h = tt
filter-HaveKeys keep (p ∷ ps) h = elim (Bool-cases (keep p)) [
  | inl stay ↦ rw stay (has_punch_id-filter keep p.id ps h.0, filter-HaveKeys keep ps h.1)
  | inr go ↦ rw go (filter-HaveKeys keep ps h.1)
]

-- The kept punches are not among the ones that are gone.
abbrev gone : (PunchRecord → Bool) → List PunchRecord → List PunchRecord
gone keep ps = filter (λ p. not (keep p)) ps

others-kept :
    (keep : PunchRecord → Bool) (x : PunchRecord) (g ps : List PunchRecord)
    → has_punch_id x.id ps ≡ false
    → All (λ q. has_punch_id q.id g ≡ false) (filter keep ps)
    → All (λ q. has_punch_id q.id (x ∷ g) ≡ false) (filter keep ps)
unfolding has_punch_id
others-kept keep x g [] e h = tt
others-kept keep x g (p ∷ ps) e h =
    let rest : has_punch_id x.id ps ≡ false = ground arith in
    elim (Bool-cases (keep p)) [
      | inl stay ↦
          let both : All (λ q. has_punch_id q.id g ≡ false) (p ∷ filter keep ps) = rw stay at h in
          let here : has_punch_id p.id (x ∷ g) ≡ false =
            ground (arith, both.0, eq_iff x.id p.id, eq_iff p.id x.id) in
          rw stay (here, others-kept keep x g ps rest both.1)
      | inr go ↦
          let tail : All (λ q. has_punch_id q.id g ≡ false) (filter keep ps) = rw go at h in
          rw go (others-kept keep x g ps rest tail)
    ]

kept-not_gone :
    (keep : PunchRecord → Bool) (ps : List PunchRecord)
    → HaveKeys ps
    → All (λ q. has_punch_id q.id (gone keep ps) ≡ false) (filter keep ps)
kept-not_gone keep [] h = tt
kept-not_gone keep (p ∷ ps) h = elim (Bool-cases (keep p)) [
  | inl stay ↦
      rw stay (has_punch_id-filter (λ q. not (keep q)) p.id ps h.0, kept-not_gone keep ps h.1)
  | inr go ↦ rw go (others-kept keep p (gone keep ps) ps h.0 (kept-not_gone keep ps h.1))
]

has_punch-id :
    (g : List PunchRecord) (d : WebhookDelivery) → has_punch g d ≡ has_punch_id d.punch_record_id g
unfolding has_punch_id
has_punch-id [] d = refl
has_punch-id (p ∷ g) d = rw (has_punch-id g d) refl

deliveries_of-kept :
    (g : List PunchRecord) (id : String) (ds : List WebhookDelivery)
    → has_punch_id id g ≡ false
    → deliveries_of id (filter (λ d. not (has_punch g d)) ds) ≡ deliveries_of id ds
unfolding deliveries_of
deliveries_of-kept g id [] e = refl
deliveries_of-kept g id (d ∷ ds) e =
    let ih = deliveries_of-kept g id ds e in
    elim (Bool-cases (has_punch g d)) [
      | inl out ↦
          let other : (d.punch_record_id == id) ≡ false =
            elim (Bool-cases (d.punch_record_id == id)) [
              | inr go ↦ go
              | inl same ↦
                  let i : d.punch_record_id ≡ id = (eq_iff d.punch_record_id id).0 same in
                  let found : has_punch_id id g ≡ true =
                    ap (λ t. has_punch_id t g) (sym i) ∙ (sym (has_punch-id g d) ∙ out) in
                  cc
            ] in
          rw out (rw other ih)
      | inr stays ↦ rw stays (rw ih refl)
    ]

kept-IsCounted :
    (g : List PunchRecord) (ds : List WebhookDelivery) (ps : List PunchRecord)
    → All (λ q. has_punch_id q.id g ≡ false) ps
    → All (IsCounted ds) ps
    → All (IsCounted (filter (λ d. not (has_punch g d)) ds)) ps
kept-IsCounted g ds [] e h = tt
kept-IsCounted g ds (p ∷ ps) e h =
    (h.0 ∙ sym (deliveries_of-kept g p.id ds e.0), kept-IsCounted g ds ps e.1 h.1)

-- What is left of both tables when some punches go, and their rows of the log with them.
pub filter-IsCounted :
    (keep : PunchRecord → Bool) (ds : List WebhookDelivery) (ps : List PunchRecord)
    → HaveKeys ps
    → All (IsCounted ds) ps
    → All (IsCounted (filter (λ d. not (has_punch (gone keep ps) d)) ds)) (filter keep ps)
filter-IsCounted keep ds ps k h =
    kept-IsCounted (gone keep ps) ds (filter keep ps) (kept-not_gone keep ps k)
      (All-kept (IsCounted ds) keep ps h)
