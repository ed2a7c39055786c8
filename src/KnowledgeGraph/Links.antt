-- ===== src/KnowledgeGraph/Links.antt =====
-- The neighbours of an entity, by the relations that were added to a graph.
use development_brain.Prelude.{
  ℕ, ◌≡◌, refl, String, Bool, false, ◌&&◌, ◌||◌, Option, List, [], ◌∷◌, ◌++◌, map, keep, any,
  contains, contains-append, ◌==◌, nat_eq, nat_beq_iff, if◌then◌else◌, arith,
}
use development_brain.Prelude.Dict
use development_brain.Prelude.Dict.{Dict, get-insert}
use development_brain.KnowledgeGraph.{
  GraphEntity, GraphRelation, RelationType, KnowledgeGraph, Direction, empty_graph, relations_at,
  append_relation, upsert_relations, admits, neighbors,
}

-- Followed in this direction, the relation leads from `s` to `t`.
unfoldable pub leads : Direction → GraphRelation → ℕ → ℕ → Bool
leads Direction.forward r s t = r.subject_id == s && t == r.object_id
leads Direction.reverse r s t = r.object_id == s && t == r.subject_id
leads Direction.both r s t =
    (r.subject_id == s && t == r.object_id) || (r.object_id == s && t == r.subject_id)

-- Some relation that the search admits leads from `s` to `t`.
unfoldable pub joined :
    List GraphRelation → Direction → Option (List RelationType) → Option String → ℕ → ℕ → Bool
joined rs direction types revision s t =
    any (λ r. admits types revision r && leads direction r s t) rs

relations_at-append :
    (d : Dict ℕ (List GraphRelation)) (k i : ℕ) (r : GraphRelation)
    → relations_at (append_relation d k r) i
      ≡ (if k == i then relations_at d k ++ (r ∷ []) else relations_at d i)
unfolding relations_at append_relation
relations_at-append d k i r = ground (arith, get-insert d k i (relations_at d k ++ (r ∷ [])))

-- Whether `t` is the end, by `f`, of an admitted relation under `i`.
module _ (f : GraphRelation → ℕ) (p : GraphRelation → Bool) where
  ends : List GraphRelation → ℕ → Bool
  ends rs t = any (λ r. p r && t == f r) rs

  contains-ends : (rs : List GraphRelation) (t : ℕ) → contains (map f (keep p rs)) t ≡ ends rs t
  unfolding contains keep any ends
  contains-ends [] t = refl
  contains-ends (r ∷ rs) t = ground (arith, contains-ends rs t)

  ends-append : (rs ss : List GraphRelation) (t : ℕ) → ends (rs ++ ss) t ≡ (ends rs t || ends ss t)
  unfolding any ends
  ends-append [] ss t = refl
  ends-append (r ∷ rs) ss t = ground (arith, ends-append rs ss t)

  ends-append_relation :
      (d : Dict ℕ (List GraphRelation)) (k i t : ℕ) (r : GraphRelation)
      → ends (relations_at (append_relation d k r) i) t
        ≡ (ends (relations_at d i) t || (k == i && (p r && t == f r)))
  unfolding ends any
  ends-append_relation d k i t r = ground (
    arith,
    relations_at-append d k i r,
    ends-append (relations_at d k) (r ∷ []) t,
    nat_beq_iff k i,
  )

module _ (types : Option (List RelationType)) (revision : Option String) where
  outwards-upsert :
      (r : GraphRelation) (d : Dict ℕ (List GraphRelation)) (s t : ℕ)
      → contains
          (map
            (λ q. q.object_id)
            (keep (admits types revision) (relations_at (append_relation d r.subject_id r) s)))
          t
        ≡ (contains (map (λ q. q.object_id) (keep (admits types revision) (relations_at d s))) t
            || (admits types revision r && (r.subject_id == s && t == r.object_id)))
  outwards-upsert r d s t =
      let p = admits types revision in
      ground (
        arith,
        contains-ends (λ q. q.object_id) p (relations_at (append_relation d r.subject_id r) s) t,
        contains-ends (λ q. q.object_id) p (relations_at d s) t,
        ends-append_relation (λ q. q.object_id) p d r.subject_id s t r,
      )

  inwards-upsert :
      (r : GraphRelation) (d : Dict ℕ (List GraphRelation)) (s t : ℕ)
      → contains
          (map
            (λ q. q.subject_id)
            (keep (admits types revision) (relations_at (append_relation d r.object_id r) s)))
          t
        ≡ (contains (map (λ q. q.subject_id) (keep (admits types revision) (relations_at d s))) t
            || (admits types revision r && (r.object_id == s && t == r.subject_id)))
  inwards-upsert r d s t =
      let p = admits types revision in
      ground (
        arith,
        contains-ends (λ q. q.subject_id) p (relations_at (append_relation d r.object_id r) s) t,
        contains-ends (λ q. q.subject_id) p (relations_at d s) t,
        ends-append_relation (λ q. q.subject_id) p d r.object_id s t r,
      )

  -- One relation more is one link more.
  neighbors-upsert :
      (direction : Direction) (r : GraphRelation) (g : KnowledgeGraph) (s t : ℕ)
      → contains (neighbors (upsert_relations (r ∷ []) g) direction types revision s) t ≡ (
          contains (neighbors g direction types revision s) t
          || (admits types revision r && leads direction r s t))
  unfolding neighbors upsert_relations leads
  neighbors-upsert Direction.forward r g s t = outwards-upsert r g.relations_out s t
  neighbors-upsert Direction.reverse r g s t = inwards-upsert r g.relations_in s t
  neighbors-upsert Direction.both r g s t =
      let p = admits types revision in
      let out = relations_at g.relations_out s in
      let out' = relations_at (append_relation g.relations_out r.subject_id r) s in
      let into = relations_at g.relations_in s in
      let into' = relations_at (append_relation g.relations_in r.object_id r) s in
      ground (
        arith,
        contains-append (map (λ q. q.object_id) (keep p out))
            (map (λ q. q.subject_id) (keep p into)) t,
        contains-append (map (λ q. q.object_id) (keep p out'))
            (map (λ q. q.subject_id) (keep p into')) t,
        outwards-upsert r g.relations_out s t,
        inwards-upsert r g.relations_in s t,
      )

  pub neighbors-upsert_all :
      (direction : Direction) (rs : List GraphRelation) (g : KnowledgeGraph) (s t : ℕ)
      → contains (neighbors (upsert_relations rs g) direction types revision s) t ≡ (
          contains (neighbors g direction types revision s) t
          || joined rs direction types revision s t)
  unfolding upsert_relations joined any
  neighbors-upsert_all direction [] g s t = ground arith
  neighbors-upsert_all direction (r ∷ rs) g s t =
      let g' = upsert_relations (r ∷ []) g in
      ground (arith, neighbors-upsert direction r g s t, neighbors-upsert_all direction rs g' s t)

  pub neighbors-unrelated :
      (direction : Direction) (d : Dict ℕ GraphEntity) (s t : ℕ)
      → contains (neighbors (record empty_graph { entities = d }) direction types revision s) t
        ≡ false
  unfolding neighbors relations_at contains Dict.get keep
  neighbors-unrelated Direction.forward d s t = refl
  neighbors-unrelated Direction.reverse d s t = refl
  neighbors-unrelated Direction.both d s t = refl
