-- ===== src/KnowledgeGraph/Reachability.antt =====
-- Searches of a graph that was built by `upsert_entities` and `upsert_relations`.
use mathlib.Core.Path.{fun_ext, subst}
use development_brain.Prelude.{
  ℕ, ◌≡◌, refl, ◌∙◌, sym, ◌↔◌, String, Bool, true, false, ◌&&◌, ◌||◌, Option, none, some, List, [],
  ◌∷◌, any, contains, ◌==◌, nat_eq, nat_beq_iff, arith, Option-cases, inl, inr,
}
use development_brain.Prelude.Dict
use development_brain.Prelude.Dict.{Dict, get-insert}
use development_brain.KnowledgeGraph.{
  GraphEntity, GraphRelation, RelationType, KnowledgeGraph, Direction, empty_graph, upsert_entities,
  upsert_relations, neighbors, search_levels, fetch, bfs,
}
use development_brain.KnowledgeGraph.Search.{IsIn, Within, linked, search_levels_lem}
use development_brain.KnowledgeGraph.Links.{joined, neighbors-upsert_all, neighbors-unrelated}

has : Dict ℕ GraphEntity → ℕ → Bool
has d i = elim (Dict.get d i) [ none ↦ false | some _ ↦ true ]

-- Entities stand under their own ids.
abbrev HasOwnIds : Dict ℕ GraphEntity → Type 0
HasOwnIds d = (i : ℕ) (e : GraphEntity) → Dict.get d i ≡ some e → e.id ≡ i

insert-HasOwnIds :
    (d : Dict ℕ GraphEntity) (v : GraphEntity) → HasOwnIds d → HasOwnIds (Dict.insert d v.id v)
insert-HasOwnIds d v h i e q = ground (arith, get-insert d v.id i v, h i e, nat_beq_iff v.id i)

upsert_entities-HasOwnIds :
    (es : List GraphEntity) (g : KnowledgeGraph)
    → HasOwnIds g.entities
    → HasOwnIds (upsert_entities es g).entities
unfolding upsert_entities
upsert_entities-HasOwnIds [] g h = h
upsert_entities-HasOwnIds (e ∷ es) g h =
    upsert_entities-HasOwnIds es (record g { entities = Dict.insert g.entities e.id e })
      (insert-HasOwnIds g.entities e h)

has-upsert_entities :
    (es : List GraphEntity) (g : KnowledgeGraph) (n : ℕ)
    → has (upsert_entities es g).entities n ≡ (has g.entities n || any (λ e. e.id == n) es)
unfolding upsert_entities any
has-upsert_entities [] g n = ground arith
has-upsert_entities (e ∷ es) g n =
    let step : has (Dict.insert g.entities e.id e) n ≡ (has g.entities n || e.id == n) =
      unfold has in ground (arith, get-insert g.entities e.id n e) in
    ground (
      arith,
      step,
      has-upsert_entities es (record g { entities = Dict.insert g.entities e.id e }) n,
    )

fetch-contains :
    (d : Dict ℕ GraphEntity) (is : List ℕ) (n : ℕ)
    → HasOwnIds d
    → any (λ e. e.id == n) (fetch d is) ≡ (contains is n && has d n)
unfolding fetch any contains has
fetch-contains d [] n h = refl
fetch-contains d (i ∷ is) n h = elim (Option-cases (Dict.get d i)) [
  | inl e ↦ rw (fetch, e) (ground (arith, nat_beq_iff n i, e, fetch-contains d is n h))
  | inr (v, e) ↦
      rw (fetch, e)
        (ground (arith, nat_beq_iff n i, nat_beq_iff v.id n, h i v e, e, fetch-contains d is n h))
]

-- The graph after some entities and then some relations were added to an empty one.
abbrev pub built : List GraphEntity → List GraphRelation → KnowledgeGraph
built es rs = upsert_relations rs (upsert_entities es empty_graph)

upsert_relations-entities :
    (rs : List GraphRelation) (g : KnowledgeGraph) → (upsert_relations rs g).entities ≡ g.entities
unfolding upsert_relations
upsert_relations-entities [] g = refl
upsert_relations-entities (r ∷ rs) g = upsert_relations-entities rs (upsert_relations (r ∷ []) g)

upsert_entities-unrelated :
    (es : List GraphEntity) (d : Dict ℕ GraphEntity)
    → (d' : Dict ℕ GraphEntity) × (upsert_entities es (record empty_graph { entities = d })
        ≡ record empty_graph { entities = d' })
unfolding upsert_entities
upsert_entities-unrelated [] d = (d, refl)
upsert_entities-unrelated (e ∷ es) d = upsert_entities-unrelated es (Dict.insert d e.id e)

linked-built :
    (es : List GraphEntity) (rs : List GraphRelation) (types : Option (List RelationType))
    (direction : Direction) (revision : Option String) (s t : ℕ)
    → linked (neighbors (built es rs) direction types revision) s t
      ≡ joined rs direction types revision s t
linked-built es rs types direction revision s t =
    let (d, e) = upsert_entities-unrelated es [] in
    let g = upsert_entities es empty_graph in
    let none_before : contains (neighbors g direction types revision s) t ≡ false =
      rw e (neighbors-unrelated types revision direction d s t) in
    ground (arith, neighbors-upsert_all types revision direction rs g s t, none_before)

built-HasOwnIds :
    (es : List GraphEntity) (rs : List GraphRelation) → HasOwnIds (built es rs).entities
built-HasOwnIds es rs =
    let nothing : HasOwnIds [] = λ i e q. absurd (unfold Dict.get in cc q) in
    rw (upsert_relations-entities rs (upsert_entities es empty_graph))
      (upsert_entities-HasOwnIds es empty_graph nothing)

has-built :
    (es : List GraphEntity) (rs : List GraphRelation) (n : ℕ)
    → has (built es rs).entities n ≡ any (λ e. e.id == n) es
has-built es rs n =
    let nothing : has [] n ≡ false = unfold has Dict.get in refl in
    rw (upsert_relations-entities rs (upsert_entities es empty_graph))
      (has-upsert_entities es empty_graph n ∙ rw nothing refl)

-- A search of a graph that was built from entities and relations has exactly the entities among
-- them that are reached from a start, in at most as many steps as its depth, along relations that
-- it admits, followed in its direction; in every order in which sets are traversed.
pub bfs-Within :
    (each : List ℕ → List ℕ)
    → ((xs : List ℕ) (n : ℕ) → contains (each xs) n ≡ contains xs n)
    → (es : List GraphEntity) (rs : List GraphRelation) (starts : List ℕ)
      (types : Option (List RelationType)) (depth : ℕ) (direction : Direction)
      (revision : Option String) (n : ℕ)
    → (any (λ e. e.id == n) (bfs each (built es rs) starts types depth direction revision) ≡ true)
      ↔ ((any (λ e. e.id == n) es ≡ true)
          × Within (joined rs direction types revision) depth starts n)
unfolding bfs
bfs-Within each h es rs starts types depth direction revision n =
    let g = built es rs in
    let around = neighbors g direction types revision in
    let found = search_levels around depth [] starts in
    let same : linked around ≡ joined rs direction types revision =
      fun_ext (λ s. fun_ext (λ t. linked-built es rs types direction revision s t)) in
    let fetched = fetch-contains g.entities (each found) n (built-HasOwnIds es rs) in
    let members = h found n in
    let stored = has-built es rs n in
    let (sound, complete) = search_levels_lem around depth starts n in
    (
      λ a.
          let both : (contains found n ≡ true) × (any (λ e. e.id == n) es ≡ true) = ground arith in
          (both.1, subst (λ l. Within l depth starts n) same (sound both.0)),
      λ (e, w).
          let f : IsIn found n = complete (subst (λ l. Within l depth starts n) (sym same) w) in
          ground arith,
    )
