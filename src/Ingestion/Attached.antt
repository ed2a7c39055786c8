-- ===== src/Ingestion/Attached.antt =====
-- Attachments under their ids, and the search for the one that carries a reference.
use development_brain.Prelude.{
  ℕ, ◌+◌, ◌<◌, ◌≡◌, refl, sym, ap, ◌∙◌, String, Bool, true, Option, none, some, List, [], ◌∷◌,
  nat_eq, nat_beq_iff, any, arith, Bool-cases, inl, inr, beq_refl,
}
use development_brain.Prelude.Dict
use development_brain.Prelude.Dict.{get-insert}
use development_brain.Prelude.Dict.Entries.{IsKeyed, insert-IsKeyed}
use development_brain.Domain.{ExternalReference}
use development_brain.Domain.Work.{Attachment}
use development_brain.Repositories.{
  Collection, attachment_rows, rows_by, upsert, list_all, first_with_ref, find_attachment, refers,
}

-- Each attachment stands under its id, and the ids are below n.
abbrev pub Own : ℕ → Collection Attachment → Type 0
Own n [] = Unit
Own n ((k, a) ∷ rows) = (k ≡ a.id) × ((k < n) × Own n rows)

-- Each attachment stands under its id, once, and the ids from n on are not in use.
abbrev pub IsFiled : ℕ → Collection Attachment → Type 0
IsFiled n rows = IsKeyed rows × Own n rows

abbrev pub test_of : String → ExternalReference → Bool
test_of y = refers "openproject" y (some "attachment")

abbrev pub found_in : String → Collection Attachment → Option Attachment
found_in y rows = find_attachment "openproject" y (some "attachment") rows

-- A write of a that changes no reference that is there, under an id that was given out.
abbrev pub Replaces : ℕ → Attachment → Collection Attachment → Type 0
Replaces n a rows =
    (a.id < n)
    × ((e : Attachment) → Dict.get rows a.id ≡ some e → e.external_refs ≡ a.external_refs)

pub Own-get_new : (n : ℕ) (rows : Collection Attachment) → Own n rows → Dict.get rows n ≡ none
unfolding Dict.get
Own-get_new n [] h = refl
Own-get_new n ((k, a) ∷ rows) (e, (lt, h)) =
    ground (arith, lt, Own-get_new n rows h, nat_beq_iff k n)

pub Own-suc : (n : ℕ) (rows : Collection Attachment) → Own n rows → Own (n + 1) rows
Own-suc n [] h = tt
Own-suc n ((k, a) ∷ rows) (e, (lt, h)) = (e, (omega (arith, lt), Own-suc n rows h))

Own-get :
    (n : ℕ) (rows : Collection Attachment) (i : ℕ) (a : Attachment)
    → Own n rows
    → Dict.get rows i ≡ some a
    → i < n
unfolding Dict.get
Own-get n [] i a h e = ground (arith, e)
Own-get n ((k, v) ∷ rows) i a (own, (lt, h)) e =
    ground (arith, lt, e, Own-get n rows i a h, nat_beq_iff k i)

Own-insert :
    (n : ℕ) (rows : Collection Attachment) (a : Attachment)
    → Own n rows
    → a.id < n
    → Own n (Dict.insert rows a.id a)
unfolding Dict.insert
Own-insert n [] a h lt = (refl, (lt, tt))
Own-insert n ((k, v) ∷ rows) a (own, (less, h)) lt = elim (Bool-cases (nat_eq.beq k a.id)) [
  | inl same ↦ rw same ((nat_beq_iff k a.id).0 same, (less, h))
  | inr other ↦ rw other (own, (less, Own-insert n rows a h lt))
]

-- What a search finds is what stands under its id.
first_with_ref-get :
    (test : ExternalReference → Bool) (n : ℕ) (rows : Collection Attachment) (a : Attachment)
    → IsFiled n rows
    → first_with_ref (λ v. v.external_refs) test (Dict.values rows) ≡ some a
    → Dict.get rows a.id ≡ some a
unfolding first_with_ref Dict.get Dict.values
first_with_ref-get test n [] a h e = ground (arith, e)
first_with_ref-get test n ((k, v) ∷ rows) a ((new, keyed), (own, (lt, h))) e =
    elim (Bool-cases (any test v.external_refs)) [
      | inl t ↦
          let q : some v ≡ some a = rw t at e in
          let p : v ≡ a = cc in
          let k_eq : k ≡ a.id = own ∙ ap (λ x. x.id) p in rw ((nat_beq_iff k a.id).1 k_eq) q
      | inr f ↦
          let later : Dict.get rows a.id ≡ some a =
            first_with_ref-get test n rows a (keyed, h) (rw f at e) in
          elim (Bool-cases (nat_eq.beq k a.id)) [
            | inr other ↦ rw other later
            | inl same ↦
                let k_eq : k ≡ a.id = (nat_beq_iff k a.id).0 same in
                let none_there : Dict.get rows a.id ≡ none =
                  ap (λ j. Dict.get rows j) (sym k_eq) ∙ new in
                ground (arith, later, none_there)
          ]
    ]

first_with_ref-carries :
    (test : ExternalReference → Bool) (rows : List Attachment) (a : Attachment)
    → first_with_ref (λ v. v.external_refs) test rows ≡ some a
    → any test a.external_refs ≡ true
unfolding first_with_ref
first_with_ref-carries test [] a e = ground (arith, e)
first_with_ref-carries test (v ∷ rows) a e = ground (arith, e, first_with_ref-carries test rows a)

insert-found :
    (test : ExternalReference → Bool) (rows : Collection Attachment) (i : ℕ) (a : Attachment)
    → any test a.external_refs ≡ true
    → ¬ (first_with_ref (λ v. v.external_refs) test (Dict.values (Dict.insert rows i a)) ≡ none)
unfolding first_with_ref Dict.values Dict.insert
insert-found test [] i a c e = ground (arith, c, e)
insert-found test ((j, v) ∷ rows) i a c e = ground (arith, c, e, insert-found test rows i a c)

insert-still_found :
    (test : ExternalReference → Bool) (rows : Collection Attachment) (i : ℕ) (a : Attachment)
    → ((e : Attachment) → Dict.get rows i ≡ some e → e.external_refs ≡ a.external_refs)
    → ¬ (first_with_ref (λ v. v.external_refs) test (Dict.values rows) ≡ none)
    → ¬ (first_with_ref (λ v. v.external_refs) test (Dict.values (Dict.insert rows i a)) ≡ none)
unfolding first_with_ref Dict.values Dict.insert Dict.get
insert-still_found test [] i a same h e = h refl
insert-still_found test ((j, v) ∷ rows) i a same h e = elim (Bool-cases (nat_eq.beq j i)) [
  | inl own ↦
      let refs : v.external_refs ≡ a.external_refs = same v (rw own refl) in
      let q : any test v.external_refs ≡ any test a.external_refs = ap (any test) refs in
      ground (arith, rw own at e, h, q)
  | inr other ↦
      let rest = insert-still_found test rows i a (λ x found. same x (rw other found)) in
      ground (arith, rw other at e, h, rest)
]

pub IsFiled-create :
    (n : ℕ) (rows : Collection Attachment) (a : Attachment)
    → IsFiled n rows
    → a.id < n
    → IsFiled n (attachment_rows.create a rows)
unfolding rows_by upsert
IsFiled-create n rows a (keyed, own) lt =
    (insert-IsKeyed rows a.id a keyed, Own-insert n rows a own lt)

pub found_in-Replaces :
    (y : String) (n : ℕ) (rows : Collection Attachment) (a b : Attachment)
    → IsFiled n rows
    → found_in y rows ≡ some a
    → b.id ≡ a.id
    → a.external_refs ≡ b.external_refs
    → Replaces n b rows × (any (test_of y) b.external_refs ≡ true)
unfolding find_attachment list_all
found_in-Replaces y n rows a b filed e same refs =
    let at_id = first_with_ref-get (test_of y) n rows a filed e in
    let at_id' : Dict.get rows b.id ≡ some a = ap (λ j. Dict.get rows j) same ∙ at_id in
    (
      (
        Own-get n rows b.id a filed.1 at_id',
        λ x h.
            let q : some a ≡ some x = sym at_id' ∙ h in
            let p : a ≡ x = cc in ap (λ z. z.external_refs) (sym p) ∙ refs,
      ),
      ap (any (test_of y)) (sym refs) ∙ first_with_ref-carries (test_of y) (Dict.values rows) a e,
    )

pub create-found_in :
    (y : String) (rows : Collection Attachment) (a : Attachment)
    → any (test_of y) a.external_refs ≡ true
    → ¬ (found_in y (attachment_rows.create a rows) ≡ none)
unfolding find_attachment list_all rows_by upsert
create-found_in y rows a c = insert-found (test_of y) rows a.id a c

pub create-still_found_in :
    (y : String) (n : ℕ) (rows : Collection Attachment) (a : Attachment)
    → Replaces n a rows
    → ¬ (found_in y rows ≡ none)
    → ¬ (found_in y (attachment_rows.create a rows) ≡ none)
unfolding find_attachment list_all rows_by upsert
create-still_found_in y n rows a (lt, same) h = insert-still_found (test_of y) rows a.id a same h

-- The attachments are filed, and those of Y are found.
abbrev pub Holds : (String → Type 0) → ℕ → Collection Attachment → Type 0
Holds Y n rows = IsFiled n rows × ((y : String) → Y y → ¬ (found_in y rows ≡ none))

pub Holds-create :
    (Y : String → Type 0) (n : ℕ) (rows : Collection Attachment) (a : Attachment)
    → Replaces n a rows
    → Holds Y n rows
    → Holds Y n (attachment_rows.create a rows)
Holds-create Y n rows a r (filed, h) =
    (IsFiled-create n rows a filed r.0, λ y k. create-still_found_in y n rows a r (h y k))

pub Holds-suc :
    (Y : String → Type 0) (n : ℕ) (rows : Collection Attachment)
    → Holds Y n rows
    → Holds Y (n + 1) rows
Holds-suc Y n rows ((keyed, own), h) = ((keyed, Own-suc n rows own), h)

pub get-create :
    (rows : Collection Attachment) (a : Attachment)
    → Dict.get (attachment_rows.create a rows) a.id ≡ some a
unfolding rows_by upsert
get-create rows a = get-insert rows a.id a.id a ∙ rw (beq_refl a.id) refl
