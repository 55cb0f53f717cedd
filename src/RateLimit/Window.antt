-- ===== src/RateLimit/Window.antt =====
-- How many requests the limiter lets through in a window.
use adms.Prelude.{
  ◌-◌, max, ◌≤◌, none, ℕ, suc, ◌+◌, ◌<◌, ◌≡◌, refl, ap, ◌∙◌, String, true, false, Option, some,
  List, [], ◌∷◌, arith, eq_iff, string_eq, ◌==◌, Bool-cases, inl, inr, if◌then◌else◌, leb, ltb,
  ◌&&◌,
}
use adms.RateLimit.{
  Options, Entry, Entries, get, set, delete, live, keep_live, check, hit, count_hit,
  rate_limit_by_ip,
}

pub get-delete-other :
    (key k : String) (es : Entries) → (k == key) ≡ false → get key (delete k es) ≡ get key es
get-delete-other key k [] h = refl
get-delete-other key k ((j, e) ∷ es) h =
    ground (arith, get-delete-other key k es h, eq_iff j k, eq_iff j key, eq_iff k key)

get-set-other :
    (key k : String) (e : Entry) (es : Entries)
    → (k == key) ≡ false
    → get key (set k e es) ≡ get key es
get-set-other key k e es h = ground (arith, get-delete-other key k es h)

pub get-set : (key : String) (e : Entry) (es : Entries) → get key (set key e es) ≡ some e
get-set key e es = ground (arith, eq_iff key key)

pub live-other :
    (key k : String) (now : ℕ) (es : Entries)
    → (k == key) ≡ false
    → get key (live k now es).1 ≡ get key es
unfolding live
live-other key k now es h = go (get k es)
  where
    go : (o : Option Entry) → get key (keep_live k now es o).1 ≡ get key es
    go none = refl
    go (some e) = ground (arith, get-delete-other key k es h)

pub hit-other :
    (opts : Options) (key k : String) (now : ℕ) (es : Entries)
    → (k == key) ≡ false
    → get key (hit opts k now es) ≡ get key es
unfolding hit
hit-other opts key k now es h = go (live k now es) (live-other key k now es h)
  where
    go :
        (r : Option Entry × Entries)
        → get key r.1 ≡ get key es
        → get key (count_hit opts k now r) ≡ get key es
    go (none, fs) same = get-set-other key k _ fs h ∙ same
    go (some e, fs) same = get-set-other key k _ fs h ∙ same

rate_limit_by_ip-other :
    (opts : Options) (key k : String) (now : ℕ) (es : Entries)
    → (k == key) ≡ false
    → get key (rate_limit_by_ip opts k now es).1 ≡ get key es
unfolding rate_limit_by_ip check
rate_limit_by_ip-other opts key k now es h =
    ground (arith, live-other key k now es h, hit-other opts key k now (live k now es).1 h)

-- The requests of a key that are let through, among those of everybody.
unfoldable pub admitted : Options → String → List (String × ℕ) → Entries → ℕ
admitted opts key [] es = 0
admitted opts key ((k, now) ∷ steps) es =
    let r = rate_limit_by_ip opts k now es in
    let rest = admitted opts key steps r.1 in if k == key && r.0.allowed then suc rest else rest

pub live-open :
    (key : String) (now : ℕ) (es : Entries) (e : Entry)
    → get key es ≡ some e
    → now < e.reset_at
    → live key now es ≡ (some e, es)
unfolding live
live-open key now es e g lt =
    let here : keep_live key now es (get key es) ≡ keep_live key now es (some e) =
      ap (keep_live key now es) g in
    let early : leb e.reset_at now ≡ false = ground arith in
    here ∙ ap (λ b. if b then (none, delete key es) else (some e, es)) early

-- A request of a key whose window is open.
rate_limit_by_ip-open :
    (opts : Options) (key : String) (now : ℕ) (es : Entries) (e : Entry)
    → get key es ≡ some e
    → now < e.reset_at
    → let r = rate_limit_by_ip opts key now es in
      (r.0.allowed ≡ ltb e.count opts.max_hits)
      × (get key r.1
          ≡ some (if ltb e.count opts.max_hits then record e { count = e.count + 1 } else e))
unfolding rate_limit_by_ip check hit
rate_limit_by_ip-open opts key now es e g lt =
    let open_window = live-open key now es e g lt in
    let stored = get-set key (record e { count = e.count + 1 }) es in
    elim (Bool-cases (ltb e.count opts.max_hits)) [
      | inl b ↦ rw open_window (rw b (rw open_window (refl, stored)))
      | inr b ↦ rw open_window (rw b (refl, g))
    ]

abbrev pub IsBefore : String → ℕ → List (String × ℕ) → Type 0
IsBefore key until [] = Unit
IsBefore key until ((k, now) ∷ steps) = (k ≡ key → now < until) × IsBefore key until steps

admitted-other :
    (opts : Options) (key k : String) (now : ℕ) (steps : List (String × ℕ)) (es : Entries)
    → (k == key) ≡ false
    → admitted opts key ((k, now) ∷ steps) es
      ≡ admitted opts key steps (rate_limit_by_ip opts k now es).1
unfolding admitted
admitted-other opts key k now steps es h = ground arith

admitted-own :
    (opts : Options) (key k : String) (now : ℕ) (steps : List (String × ℕ)) (es : Entries)
    → k ≡ key
    → admitted opts key ((k, now) ∷ steps) es ≡ (
        if (rate_limit_by_ip opts key now es).0.allowed
        then suc (admitted opts key steps (rate_limit_by_ip opts key now es).1)
        else admitted opts key steps (rate_limit_by_ip opts key now es).1)
unfolding admitted
admitted-own opts key k now steps es h = rw h (ground (arith, eq_iff key key))

admitted-nil : (opts : Options) (key : String) (es : Entries) → admitted opts key [] es ≡ 0
unfolding admitted
admitted-nil opts key es = refl

-- While its window is open, a key gets the rest of its allowance at most.
admitted-open :
    (opts : Options) (key : String) (steps : List (String × ℕ)) (es : Entries) (e : Entry)
    → get key es ≡ some e
    → IsBefore key e.reset_at steps
    → admitted opts key steps es ≤ opts.max_hits - e.count
admitted-open opts key [] es e g before = omega (arith, admitted-nil opts key es)
admitted-open opts key ((k, now) ∷ steps) es e g (lt, before) = elim (Bool-cases (k == key)) [
  | inr other ↦
      let same = rate_limit_by_ip-other opts key k now es other in
      let ih =
        admitted-open opts key steps (rate_limit_by_ip opts k now es).1 e (same ∙ g) before in
      omega (arith, admitted-other opts key k now steps es other, ih)
  | inl own ↦
      let here : k ≡ key = (eq_iff k key).0 own in
      let (a, stored) = rate_limit_by_ip-open opts key now es e g (lt here) in
      let one = admitted-own opts key k now steps es here in
      elim (Bool-cases (ltb e.count opts.max_hits)) [
        | inl b ↦
            let next : get key (rate_limit_by_ip opts key now es).1
                ≡ some (record e { count = e.count + 1 }) =
              stored ∙ ap (λ t. some (if t then record e { count = e.count + 1 } else e)) b in
            let ih =
              admitted-open opts key steps (rate_limit_by_ip opts key now es).1
                (record e { count = e.count + 1 }) next before in
            ground (arith, one, a, ih)
        | inr b ↦
            let next : get key (rate_limit_by_ip opts key now es).1 ≡ some e =
              stored ∙ ap (λ t. some (if t then record e { count = e.count + 1 } else e)) b in
            let ih =
              admitted-open opts key steps (rate_limit_by_ip opts key now es).1 e next before in
            ground (arith, one, a, ih)
      ]
]

pub live-fresh :
    (key : String) (now : ℕ) (es : Entries) → get key es ≡ none → live key now es ≡ (none, es)
unfolding live
live-fresh key now es g = ap (keep_live key now es) g

rate_limit_by_ip-fresh :
    (opts : Options) (key : String) (now : ℕ) (es : Entries)
    → get key es ≡ none
    → let r = rate_limit_by_ip opts key now es in
      (r.0.allowed ≡ true)
      × (get key r.1 ≡ some (record { count = 1; reset_at = now + opts.window_ms }))
unfolding rate_limit_by_ip check hit
rate_limit_by_ip-fresh opts key now es g =
    let fresh = live-fresh key now es g in
    rw fresh
      (rw fresh (refl, get-set key (record { count = 1; reset_at = now + opts.window_ms }) es))

-- The requests of the key all come from `from` on and before `until`.
abbrev pub IsWithin : String → ℕ → ℕ → List (String × ℕ) → Type 0
IsWithin key from until [] = Unit
IsWithin key from until ((k, now) ∷ steps) =
    (k ≡ key → (from ≤ now) × (now < until)) × IsWithin key from until steps

IsWithin-IsBefore :
    (key : String) (from until later : ℕ) (steps : List (String × ℕ))
    → until ≤ later
    → IsWithin key from until steps
    → IsBefore key later steps
IsWithin-IsBefore key from until later [] le h = tt
IsWithin-IsBefore key from until later ((k, now) ∷ steps) le h =
    (λ e. let b = h.0 e in omega (arith, b), IsWithin-IsBefore key from until later steps le h.1)

-- A key without a window gets through at most `max` times within one window's length, and at most
-- once where `max` is 0, however the requests of other keys come between.
pub admitted-IsWithin :
    (opts : Options) (key : String) (from : ℕ) (steps : List (String × ℕ)) (es : Entries)
    → get key es ≡ none
    → IsWithin key from (from + opts.window_ms) steps
    → admitted opts key steps es ≤ max 1 opts.max_hits
admitted-IsWithin opts key from [] es g h = omega (arith, admitted-nil opts key es)
admitted-IsWithin opts key from ((k, now) ∷ steps) es g (here, h) = elim (Bool-cases (k == key)) [
  | inr other ↦
      let same = rate_limit_by_ip-other opts key k now es other in
      let ih =
        admitted-IsWithin opts key from steps (rate_limit_by_ip opts k now es).1 (same ∙ g) h in
      omega (arith, admitted-other opts key k now steps es other, ih)
  | inl own ↦
      let mine : k ≡ key = (eq_iff k key).0 own in
      let (a, stored) = rate_limit_by_ip-fresh opts key now es g in
      let le = here mine in
      let before =
        IsWithin-IsBefore key from (from + opts.window_ms) (now + opts.window_ms) steps
          (omega (arith, le)) h in
      let rest =
        admitted-open opts key steps (rate_limit_by_ip opts key now es).1 _ stored before in
      ground (arith, admitted-own opts key k now steps es mine, a, rest)
]
