-- ===== src/Provisioning.antt =====
-- brain/application/provisioning.py and brain/ports/provisioning.py: the creation of projects, with
-- projects at the providers, and the linking of those that exist. The providers act on a world W and
-- may raise. `show_id` is the text of an id, and `is_alnum` is `str.isalnum` of one character.
pub mod Linking
pub mod Outcomes
pub mod Creating
mod Samples
use development_brain.Prelude.{
  ℕ, String, Bool, true, false, Option, none, some, List, [], ◌∷◌, ◌++◌, any, keep, ◌==◌, ◌&&◌,
  string_eq, option_eq, list_eq, nat_eq, if◌then◌else◌,
}
use development_brain.Prelude.Text.{Text, codes, strip}
use development_brain.Errors.{PyException, Result, ok, err}
use development_brain.Domain.{ExternalReference, Project, ProjectStatus}
use development_brain.Repositories.{Collection, get_item, Rows, project_rows}

pub record ExternalProjects : Type 0 where
  pub work_management : Option String
  pub source_control : Option String
  pub documentation : Option String

pub record ProvisioningResult : Type 0 where
  pub project : Project
  pub refs_added : List ExternalReference
  pub details : List Text

abbrev pub Call : Type 0 → Type 0
Call W = W → Result ExternalReference × W

pub record Providers (W : Type 0) : Type 0 where
  pub work_management : Option (String → Option String → Call W)
  pub source_control : Option (String → Option String → Call W)
  pub documentation : Option (Text → Call W)

pub record State (W : Type 0) : Type 0 where
  pub rows : Collection Project
  pub world : W

-- The same provider, type and id.
unfoldable pub same_ref : ExternalReference → ExternalReference → Bool
same_ref ref r =
    r.provider == ref.provider
    && (r.external_type == ref.external_type && r.external_id == ref.external_id)

unfoldable pub merge_refs : (merged refs_added : List ExternalReference) → List ExternalReference
merge_refs merged [] = merged
merge_refs merged (ref ∷ refs) =
    let kept = merge_refs merged refs in
    let grown = merge_refs (merged ++ (ref ∷ [])) refs in
    if any (same_ref ref) merged then kept else grown

abbrev pub or_none : Option String → Option String
or_none none = none
or_none (some d) = if d == "" then none else some d

module _ {W : Type 0} where
  unfoldable pub persist_refs : ProvisioningResult → State W → ProvisioningResult × State W
  persist_refs r s = elim r.refs_added [
    | [] ↦ (r, s)
    | _ ↦
        let p = r.project in
        let updated = record p { external_refs = merge_refs p.external_refs r.refs_added } in
        (record r { project = updated }, record s { rows = project_rows.update updated s.rows })
  ]

  unfoldable pub load_project : (ℕ → Text) → ℕ → State W → Result Project
  load_project show_id i s = elim (get_item i s.rows) [
    | none ↦ err (record {
      type_name = codes "ValueError";
      text = codes "project " ++ (show_id i ++ codes " not found");
    })
    | some p ↦ ok p
  ]

  -- What a call leaves of a provider: its reference, or the reason of a failure.
  unfoldable pub try_provide :
      (label : String) → Option (Call W) → ProvisioningResult × W → ProvisioningResult × W
  try_provide label none (r, w) = (
    record r { details = r.details ++ ((codes label ++ codes ": not configured, skipped") ∷ []) },
    w,
  )
  try_provide label (some create) (r, w) =
      let (outcome, w') = create w in
      elim outcome [
        | ok ref ↦ (
          record r {
            refs_added = r.refs_added ++ (ref ∷ []);
            details =
                r.details ++ ((codes label ++ (codes ": created " ++ codes ref.external_id)) ∷ []);
          },
          w',
        )
        | err exc ↦ (
          record r {
            details =
                r.details
                ++ ((if exc.type_name == codes "NotImplementedError"
                      then codes label ++ codes ": creation not supported by provider"
                      else codes label
                        ++ (codes ": provisioning failed (" ++ (exc.text ++ codes ")")))
                    ∷ []);
          },
          w',
        )
      ]

-- The name of a space: the letters and digits of the project's name.
unfoldable pub space_name : (ℕ → Bool) → Text → Text
space_name is_alnum name = elim (keep is_alnum (strip name)) [
  | [] ↦ codes "Project"
  | c ∷ cs ↦ c ∷ cs
]

abbrev pub started : Project → ProvisioningResult
started p = record { project = p; refs_added = []; details = [] }

-- A provider's call for this project, if it is configured.
abbrev pub called : {A W : Type 0} → (A → Call W) → Option A → Option (Call W)
called f none = none
called f (some a) = some (f a)

module _ {W : Type 0} (show_id : ℕ → Text) (is_alnum : ℕ → Bool) where
  -- The three providers in turn.
  unfoldable pub provide_all : Providers W → Project → W → ProvisioningResult × W
  provide_all providers p w =
      let name = p.name in
      let description = or_none p.description in
      try_provide "documentation"
        (called (λ create. create (space_name is_alnum (codes name))) providers.documentation)
        (try_provide "source control"
          (called (λ create. create name description) providers.source_control)
          (try_provide "work management"
            (called (λ create. create name description) providers.work_management) (started p, w)))

  unfoldable pub provision : Providers W → ℕ → State W → Result ProvisioningResult × State W
  provision providers i s = elim (load_project show_id i s) [
    | err exc ↦ (err exc, s)
    | ok p ↦
        let (r, w) = provide_all providers p s.world in
        let (r', s') = persist_refs r (record s { world = w }) in (ok r', s')
  ]

  unfoldable pub create_canonical :
      (id : ℕ) (name : String) → Option String → State W → Project × State W
  create_canonical id name description s =
      let p : Project = record {
        id = id;
        name = name;
        description = description;
        status = ProjectStatus.planned;
        parent_id = none;
        repositories = [];
        external_refs = [];
      } in
      (p, record s { rows = project_rows.create p s.rows })

  unfoldable pub create_connected :
      Providers W
      → (id : ℕ) (name : String) → Option String
      → State W
      → Result ProvisioningResult × State W
  create_connected providers id name description s =
      let (p, s') = create_canonical id name description s in provision providers p.id s'

-- A project at a provider: its provider, its id if one is given, and its type.
abbrev pub Candidate : Type 0
Candidate = String × (Option String × String)

unfoldable pub candidates_of : ExternalProjects → List Candidate
candidates_of external =
    ("openproject", (external.work_management, "project"))
    ∷ ("gitlab", (external.source_control, "project"))
    ∷ ("xwiki", (external.documentation, "space"))
    ∷ []

abbrev pub ref_to : (provider external_id external_type : String) → ExternalReference
ref_to provider external_id external_type = record {
  provider = provider;
  external_id = external_id;
  external_type = some external_type;
  url = none;
  namespace = none;
}

-- One reference: passed over if the project has it.
unfoldable pub link_ref :
    (provider external_id external_type : String) → ProvisioningResult → ProvisioningResult
link_ref provider external_id external_type r =
    let p = r.project in
    let ref = ref_to provider external_id external_type in
    if any (same_ref ref) p.external_refs
    then record r {
      details =
          r.details
          ++ ((codes provider ++ (codes ": already linked (" ++ (codes external_id ++ codes ")")))
              ∷ []);
    }
    else record r {
      project = record p { external_refs = p.external_refs ++ (ref ∷ []) };
      refs_added = r.refs_added ++ (ref ∷ []);
      details =
          r.details ++ ((codes provider ++ (codes ": linked existing " ++ codes external_id)) ∷ []);
    }

unfoldable pub link_candidates : List Candidate → ProvisioningResult → ProvisioningResult
link_candidates [] r = r
link_candidates ((provider, (external_id, external_type)) ∷ rest) r = elim (or_none external_id) [
  | none ↦ link_candidates rest r
  | some i ↦ link_candidates rest (link_ref provider i external_type r)
]

-- The project that is linked is the stored one, so its references are there even before they are saved.
unfoldable pub bootstrap :
    {W : Type 0} → (ℕ → Text) → ℕ → ExternalProjects → State W → Result ProvisioningResult × State W
bootstrap show_id i external s = elim (load_project show_id i s) [
  | err exc ↦ (err exc, s)
  | ok p ↦
      let (r, s') = persist_refs (link_candidates (candidates_of external) (started p)) s in
      (ok r, s')
]
