-- ===== src/TestSelection/Extension.antt =====
-- The tests that a selection holds, by their names, and what it is to extend a selection.
use development_brain.Prelude.{
  ◌≡◌, refl, ap, ◌∙◌, ◌↔◌, list_beq_iff, Bool, true, false, ◌||◌, none, some, List, [], ◌∷◌, map,
  contains, ◌==◌, nat_eq, list_eq, arith,
}
use development_brain.Prelude.Dict
use development_brain.Prelude.Dict.{Dict}
use development_brain.Prelude.Text.{Text}
use development_brain.TestSelection.{TargetedTest, Selected, by_score, insert_scored}

pub same : (a b : Text) → ((a == b) ≡ true) ↔ (a ≡ b)
same a b = list_beq_iff a b

unfoldable pub has : Selected → Text → Bool
has d t = elim (Dict.get d t) [ none ↦ false | some _ ↦ true ]

pub has-insert :
    (d : Selected) (k : Text) (v : TargetedTest) (t : Text)
    → has (Dict.insert d k v) t ≡ (t == k || has d t)
unfolding has
has-insert d k v t = ground (arith, Dict.get-insert d k t v, same k t, same t k)

abbrev pub IsNamed : Selected → Type 0
IsNamed [] = Unit
IsNamed ((k, v) ∷ d) = (v.test_name ≡ k) × IsNamed d

pub insert-IsNamed :
    (d : Selected) (k : Text) (v : TargetedTest)
    → v.test_name ≡ k
    → IsNamed d
    → IsNamed (Dict.insert d k v)
unfolding Dict.insert
insert-IsNamed [] k v p h = (p, tt)
insert-IsNamed ((j, w) ∷ d) k v p (q, h) = ground (arith, same j k, insert-IsNamed d k v p h)

pub get-IsNamed :
    (d : Selected) (k : Text) (v : TargetedTest)
    → IsNamed d
    → Dict.get d k ≡ some v
    → v.test_name ≡ k
unfolding Dict.get
get-IsNamed [] k v h g = ground arith
get-IsNamed ((j, w) ∷ d) k v (q, h) g = ground (arith, same j k, get-IsNamed d k v h)

unfoldable pub names : List TargetedTest → List Text
names ts = map (λ t. t.test_name) ts

pub values-has :
    (d : Selected) (t : Text) → IsNamed d → contains (names (Dict.values d)) t ≡ has d t
unfolding names Dict.values has Dict.get contains
values-has [] t h = refl
values-has ((k, v) ∷ d) t (q, h) = ground (arith, same k t, same t k, values-has d t h)

insert_scored-contains :
    (u : TargetedTest) (ts : List TargetedTest) (t : Text)
    → contains (names (insert_scored u ts)) t ≡ (t == u.test_name || contains (names ts) t)
unfolding names insert_scored contains
insert_scored-contains u [] t = refl
insert_scored-contains u (v ∷ vs) t = ground (arith, insert_scored-contains u vs t)

pub by_score-contains :
    (ts : List TargetedTest) (t : Text) → contains (names (by_score ts)) t ≡ contains (names ts) t
unfolding names by_score contains
by_score-contains [] t = refl
by_score-contains (u ∷ us) t =
    insert_scored-contains u (by_score us) t
    ∙ ap (λ b. t == u.test_name || b) (by_score-contains us t)

-- `r` is named after its keys and has the tests of `d` and those of which `p` holds.
abbrev pub Extends : Selected → (Text → Bool) → Selected → Type 0
Extends d p r = IsNamed r × ((t : Text) → has r t ≡ (p t || has d t))

pub insert-Extends :
    (d : Selected) (u : Text) (v : TargetedTest)
    → IsNamed d
    → v.test_name ≡ u
    → Extends d (λ t. t == u) (Dict.insert d u v)
insert-Extends d u v h p = (insert-IsNamed d u v p h, λ t. has-insert d u v t)

pub Extends-trans :
    (p q : Text → Bool) (d d' r : Selected)
    → Extends d p d'
    → Extends d' q r
    → Extends d (λ t. p t || q t) r
Extends-trans p q d d' r (_, f) (h, g) = (h, λ t. let a = f t in let b = g t in ground arith)

pub present-Extends :
    (d : Selected) (u : Text) (v : TargetedTest)
    → IsNamed d
    → Dict.get d u ≡ some v
    → Extends d (λ t. t == u) d
unfolding has
present-Extends d u v h p = (h, λ t. ground (arith, same t u, p))
