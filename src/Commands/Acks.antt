-- ===== src/Commands/Acks.antt =====
-- Which command an acknowledgement names.
use adms.Prelude.{
  ℕ, ◌≡◌, refl, ap, Text, codes, true, false, some, [], ◌∷◌, ◌++◌, All, text_eq, take_while,
  is_empty, strip_prefix,
}
use adms.Commands.{id_match, in_id}

-- What follows an id in a body: nothing, or a character that ends it.
abbrev pub EndsId : Text → Type 0
EndsId [] = Unit
EndsId (c ∷ s) = in_id c ≡ false

take_while-in_id :
    (id rest : Text)
    → All (λ c. in_id c ≡ true) id
    → EndsId rest
    → take_while in_id (id ++ rest) ≡ id
unfolding take_while
take_while-in_id [] [] h e = refl
take_while-in_id [] (c ∷ s) h e = rw e refl
take_while-in_id (c ∷ id) rest h e = rw h.0 (ap (λ t. c ∷ t) (take_while-in_id id rest h.1 e))

-- A body that begins with `ID=` and an id gives that id, up to an ampersand, white space or its end.
pub id_match-id :
    (c : ℕ) (id rest : Text)
    → All (λ x. in_id x ≡ true) (c ∷ id)
    → EndsId rest
    → id_match (codes "ID=" ++ ((c ∷ id) ++ rest)) ≡ some (c ∷ id)
unfolding id_match strip_prefix is_empty
id_match-id c id rest h e = rw (take_while-in_id (c ∷ id) rest h e) refl
