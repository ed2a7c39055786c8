-- ===== src/Observations/Deduplication.antt =====
-- A finding with a key that is created again.
use development_brain.Prelude.{
  ℕ, ◌≡◌, String, true, none, some, List, [], ◌∷◌, ◌++◌, nat_eq, string_eq, arith, Option-cases,
  inl, inr, beq_refl,
}
use development_brain.Prelude.Dict
use development_brain.Prelude.Dict.Entries.{values-insert_new}
use development_brain.Errors.{ok}
use development_brain.Observations.{
  Finding, Observation, Observations, EventBus, Journal, has_key, first_with_key, find_by_dedup_key,
  get_observation, observed, save_and_emit, save_observation, create,
}

first_with_key-last :
    (key : String) (xs : List Observation) (o : Observation)
    → has_key key o.finding.dedup_key ≡ true
    → first_with_key key xs ≡ none
    → first_with_key key (xs ++ (o ∷ [])) ≡ some o
unfolding first_with_key
first_with_key-last key [] o own absent = ground (arith, own)
first_with_key-last key (x ∷ xs) o own absent =
    ground (arith, own, absent, first_with_key-last key xs o own)

find_by_dedup_key-saved :
    (key : String) (rows : Observations) (o : Observation)
    → has_key key o.finding.dedup_key ≡ true
    → get_observation o.id rows ≡ none
    → find_by_dedup_key key rows ≡ none
    → find_by_dedup_key key (save_observation o rows) ≡ some o
unfolding find_by_dedup_key save_observation get_observation
find_by_dedup_key-saved key rows o own fresh absent =
    rw (values-insert_new rows o.id o fresh)
      (first_with_key-last key (Dict.values rows) o own absent)

module _ {W : Type 0} (bus : EventBus W) where
  create-found :
      (id now : ℕ) (f : Finding) (j : Journal W) (key : String) (o : Observation)
      → f.dedup_key ≡ some key
      → get_observation id j.rows ≡ none
      → (create bus id now f j).0 ≡ ok o
      → find_by_dedup_key key (create bus id now f j).1.rows ≡ some o
  unfolding create save_and_emit observed
  create-found id now f j key o has fresh done =
      elim (Option-cases (find_by_dedup_key key j.rows)) [
        | inr (p, e) ↦ ground (arith, has, e, done)
        | inl e ↦
            let new = observed id now f in
            let own : has_key key f.dedup_key ≡ true = rw has (beq_refl key) in
            ground (arith, has, e, done, find_by_dedup_key-saved key j.rows new own fresh e)
      ]

  create-repeated :
      (id now : ℕ) (f : Finding) (j : Journal W) (key : String) (o : Observation)
      → f.dedup_key ≡ some key
      → find_by_dedup_key key j.rows ≡ some o
      → create bus id now f j ≡ (ok o, j)
  unfolding create
  create-repeated id now f j key o has found = ground (arith, has, found)

  -- After a finding with a key was created, under an id that was not in use, or found to be there,
  -- creating any finding with that key returns the same observation, and changes neither the
  -- journal nor the world behind the bus.
  pub create-once :
      (id now id' now' : ℕ) (f g : Finding) (j : Journal W) (key : String) (o : Observation)
      → f.dedup_key ≡ some key
      → g.dedup_key ≡ some key
      → get_observation id j.rows ≡ none
      → (create bus id now f j).0 ≡ ok o
      → create bus id' now' g (create bus id now f j).1 ≡ (ok o, (create bus id now f j).1)
  create-once id now id' now' f g j key o has has' fresh done =
      create-repeated id' now' g (create bus id now f j).1 key o has'
        (create-found id now f j key o has fresh done)
