-- ===== src/Topology/Reconciling.antt =====
-- The claim that wins for each entity.
use development_brain.Prelude.{
  ◌≡◌,
  ◌∙◌,
  refl,
  sym,
  ap,
  String,
  true,
  false,
  ◌&&◌,
  Option,
  none,
  some,
  List,
  [],
  ◌∷◌,
  keep,
  ◌==◌,
  string_eq,
  arith,
  Bool-cases,
  inl,
  inr,
  if◌then◌else◌,
  Dict.{Dict, get-insert},
}
use development_brain.Prelude.Dict
use mathlib.Core.Path.{subst}
use development_brain.Prelude.Merge.{pair_eq}
use development_brain.Topology.{
  TopologyClaim, ClaimKey, kind_eq, claim_key, takes_over, reconcile_loop, reconcile,
}
use development_brain.Topology.Strongest.{strongest, fold, first_of, first_of-fold}

-- What the loop has for one entity after the claims.
pick : ClaimKey → Option TopologyClaim → List TopologyClaim → Option TopologyClaim
pick key current [] = current
pick key current (c ∷ cs) =
    let taken = pick key (some c) cs in
    let left = pick key current cs in
    if claim_key c == key && takes_over c current then taken else left

pick-nil : (key : ClaimKey) (current : Option TopologyClaim) → pick key current [] ≡ current
unfolding pick
pick-nil key current = refl

pick-some :
    (key : ClaimKey) (a : TopologyClaim) (cs : List TopologyClaim)
    → pick key (some a) cs ≡ some (fold a (keep (λ c. claim_key c == key) cs))
unfolding pick fold keep takes_over
pick-some key a [] = refl
pick-some key a (c ∷ cs) = elim (Bool-cases (claim_key c == key)) [
  | inl h ↦ rw h (ground (arith, pick-some key c cs, pick-some key a cs))
  | inr h ↦ rw h (pick-some key a cs)
]

pick-none : (key : ClaimKey) (cs : List TopologyClaim) → pick key none cs ≡ strongest key cs
unfolding pick strongest keep takes_over first_of
pick-none key [] = refl
pick-none key (c ∷ cs) = elim (Bool-cases (claim_key c == key)) [
  | inl h ↦ rw h (pick-some key c cs ∙ sym (first_of-fold c (keep (λ d. claim_key d == key) cs)))
  | inr h ↦ rw h (pick-none key cs)
]

abbrev pub value_of : Option TopologyClaim → Option String
value_of none = none
value_of (some c) = some c.value

-- The loop has the value of the best claim so far under each key.
abbrev Agrees : Dict ClaimKey String → Dict ClaimKey TopologyClaim → Type 0
Agrees winners best = (key : ClaimKey) → Dict.get winners key ≡ value_of (Dict.get best key)

insert-Agrees :
    (winners : Dict ClaimKey String) (best : Dict ClaimKey TopologyClaim) (c : TopologyClaim)
    → Agrees winners best
    → Agrees (Dict.insert winners (claim_key c) c.value) (Dict.insert best (claim_key c) c)
insert-Agrees winners best c h key =
    rw (get-insert winners (claim_key c) key c.value, get-insert best (claim_key c) key c)
      (ground (arith, h key))

pick-insert :
    (key : ClaimKey) (best : Dict ClaimKey TopologyClaim) (c : TopologyClaim)
    (cs : List TopologyClaim)
    → takes_over c (Dict.get best (claim_key c)) ≡ true
    → pick key (Dict.get (Dict.insert best (claim_key c) c) key) cs
      ≡ pick key (Dict.get best key) (c ∷ cs)
unfolding pick
pick-insert key best c cs t = elim (Bool-cases (claim_key c == key)) [
  | inl h ↦
      let same : claim_key c ≡ key = (pair_eq.beq_iff (claim_key c) key).0 h in
      let over : takes_over c (Dict.get best key) ≡ true =
        subst (λ k. takes_over c (Dict.get best k) ≡ true) same t in
      rw (get-insert best (claim_key c) key c, h, over) refl
  | inr h ↦ rw (get-insert best (claim_key c) key c, h) refl
]

pick-stay :
    (key : ClaimKey) (best : Dict ClaimKey TopologyClaim) (c : TopologyClaim)
    (cs : List TopologyClaim)
    → takes_over c (Dict.get best (claim_key c)) ≡ false
    → pick key (Dict.get best key) cs ≡ pick key (Dict.get best key) (c ∷ cs)
unfolding pick
pick-stay key best c cs t = elim (Bool-cases (claim_key c == key)) [
  | inl h ↦
      let same : claim_key c ≡ key = (pair_eq.beq_iff (claim_key c) key).0 h in
      let over : takes_over c (Dict.get best key) ≡ false =
        subst (λ k. takes_over c (Dict.get best k) ≡ false) same t in
      rw (h, over) refl
  | inr h ↦ rw h refl
]

get-nil : (key : ClaimKey) → Agrees [] []
unfolding Dict.get
get-nil key k = refl

get-nil_claim :
    (key : ClaimKey) (cs : List TopologyClaim) → pick key (Dict.get [] key) cs ≡ pick key none cs
unfolding Dict.get
get-nil_claim key cs = refl

reconcile_loop-pick :
    (cs : List TopologyClaim) (winners : Dict ClaimKey String) (best : Dict ClaimKey TopologyClaim)
    → Agrees winners best
    → (key : ClaimKey)
    → Dict.get (reconcile_loop cs winners best) key ≡ value_of (pick key (Dict.get best key) cs)
unfolding reconcile_loop
reconcile_loop-pick [] winners best h key = rw (pick-nil key (Dict.get best key)) (h key)
reconcile_loop-pick (c ∷ cs) winners best h key =
    elim (Bool-cases (takes_over c (Dict.get best (claim_key c)))) [
      | inl t ↦
          rw (t, sym (pick-insert key best c cs t))
            (reconcile_loop-pick cs (Dict.insert winners (claim_key c) c.value)
              (Dict.insert best (claim_key c) c) (insert-Agrees winners best c h) key)
      | inr t ↦ rw (t, sym (pick-stay key best c cs t)) (reconcile_loop-pick cs winners best h key)
    ]

-- Under each entity stands the value of the strongest claim about it: the first that no claim about
-- the same entity beats, by its origin and then its confidence. An entity without claims has no value.
pub reconcile-strongest :
    (claims : List TopologyClaim) (key : ClaimKey)
    → Dict.get (reconcile claims) key ≡ value_of (strongest key claims)
unfolding reconcile
reconcile-strongest claims key =
    reconcile_loop-pick claims [] [] (get-nil key) key
    ∙ ap value_of (get-nil_claim key claims ∙ pick-none key claims)
