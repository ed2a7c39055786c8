-- ===== src/Topology/Merging.antt =====
-- What a combination of discoveries keeps: the candidates and their identities.
use development_brain.Prelude.{Bool, string_eq, ◌≡◌, refl, true, map, distinct, ◌&&◌, arith}
use development_brain.Prelude.Merge.{pair_eq, merge_by-merge_by}
use development_brain.Topology.{
  merge, merge_components, merge_interfaces, merge_resources, merge_dependencies,
  DiscoveredTopology, interface_key, dependency_key,
}

-- No two candidates of a kind have one identity.
unfoldable pub unique_identities : DiscoveredTopology → Bool
unique_identities t =
    distinct (map (λ c. c.name) t.components)
    && (distinct (map interface_key t.interfaces)
        && (distinct (map (λ r. r.name) t.resources)
            && distinct (map dependency_key t.dependencies)))

-- Combining a discovery twice is combining it once, and the identities of the candidates stay unique
-- when they were, whatever the other discovery repeats.
pub merge-unique_identities :
    (t other : DiscoveredTopology)
    → unique_identities t ≡ true
    → (merge (merge t other) other ≡ merge t other) × (unique_identities (merge t other) ≡ true)
unfolding unique_identities merge merge_components merge_interfaces merge_resources
    merge_dependencies
merge-unique_identities t o u =
    let c = merge_by-merge_by (λ c. c.name) t.components o.components in
    let i = merge_by-merge_by interface_key t.interfaces o.interfaces in
    let r = merge_by-merge_by (λ r. r.name) t.resources o.resources in
    let d = merge_by-merge_by dependency_key t.dependencies o.dependencies in
    (rw (c.0, i.0, r.0, d.0) refl, ground (arith, c.1.1, i.1.1, r.1.1, d.1.1))
