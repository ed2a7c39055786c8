-- ===== src/Ingestion/Records.antt =====
-- The helpers of brain/application/openproject_ingestion.py on single records.
use development_brain.Prelude.{
  ℕ, String, Bool, true, false, not, ◌||◌, Option, none, some, [], ◌∷◌, ◌==◌, nat_eq, string_eq,
  list_eq, if◌then◌else◌,
}
use development_brain.Prelude.Dict
use development_brain.Prelude.Dict.{Dict}
use development_brain.Prelude.Object.{Object, Fields, nil, end}
use development_brain.Prelude.Text.{Text, codes, lower, strip, starts_with}
use development_brain.Domain.{ExternalReference}
use development_brain.Domain.Work.{WorkItemRelationType}
use development_brain.KnowledgeGraph.{RelationType}

-- Python's truth value.
unfoldable pub truthy : Object → Bool
truthy Object.null = false
truthy (Object.boolean b) = b
truthy (Object.int n) = not (n == 0)
truthy (Object.str s) = not (s == "")
truthy (Object.items nil) = false
truthy (Object.items _) = true
truthy (Object.dict end) = false
truthy (Object.dict _) = true

field_of : String → Fields → Option Object
field_of k Fields.end = none
field_of k (Fields.field j o rest) = let later = field_of k rest in if j == k then some o else later

-- `raw.get(k)`, with the absence of the key kept apart.
unfoldable pub lookup : String → Object → Option Object
unfolding field_of
lookup k (Object.dict fields) = field_of k fields
lookup k _ = none

unfoldable pub raw_get : String → Object → Object
unfolding lookup
raw_get k raw = elim (lookup k raw) [ none ↦ Object.null | some o ↦ o ]

-- `raw.get(j) or raw.get(k)`
unfoldable pub get_or_get : (j k : String) → Object → Object
unfolding raw_get truthy
get_or_get j k raw = if truthy (raw_get j raw) then raw_get j raw else raw_get k raw

abbrev pub is_null : Object → Bool
is_null Object.null = true
is_null _ = false

-- `text or other`
unfoldable pub text_or : String → String → String
text_or t other = if t == "" then other else t

unfoldable pub optional_text : String → Option String
optional_text t = if t == "" then none else some t

-- The text of an optional one, empty if there is none.
unfoldable pub text_of : Option String → String
text_of none = ""
text_of (some t) = t

-- `str(o or "")`
unfoldable pub text_of_object : (Object → String) → Object → String
unfolding truthy
text_of_object show o = if truthy o then show o else ""

unfoldable pub openproject_ref : (external_id external_type : String) → ExternalReference
openproject_ref external_id external_type = record {
  provider = "openproject";
  external_id = external_id;
  external_type = some external_type;
  url = none;
  namespace = none;
}

unfoldable pub map_relation_type : Text → Option WorkItemRelationType
map_relation_type raw =
    Dict.get
      ((codes "blocks", WorkItemRelationType.blocks)
        ∷ (codes "relates", WorkItemRelationType.relates_to)
        ∷ (codes "relates_to", WorkItemRelationType.relates_to)
        ∷ (codes "precedes", WorkItemRelationType.precedes)
        ∷ (codes "follows", WorkItemRelationType.follows)
        ∷ [])
      (lower (strip raw))

unfoldable pub map_graph_relation : WorkItemRelationType → Option RelationType
map_graph_relation WorkItemRelationType.parent_of = some RelationType.parent_of
map_graph_relation WorkItemRelationType.blocks = some RelationType.blocks
map_graph_relation WorkItemRelationType.relates_to = some RelationType.relates_to
map_graph_relation WorkItemRelationType.precedes = some RelationType.precedes
map_graph_relation WorkItemRelationType.follows = some RelationType.follows

unfoldable pub is_text_attachment : Text → Bool
is_text_attachment content_type =
    let lowered = lower (strip content_type) in
    starts_with lowered (codes "text/")
    || (lowered == codes "application/json"
        || (lowered == codes "application/yaml" || lowered == codes "application/x-yaml"))

unfoldable pub as_int : (Object → String) → (String → Option ℕ) → Object → Option ℕ
as_int show parse Object.null = none
as_int show parse o = parse (show o)

-- The number that an object is.
unfoldable pub number_of : Object → Option ℕ
number_of (Object.int n) = some n
number_of _ = none
