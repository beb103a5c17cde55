-- ===== src/Deployments/Mappings.antt =====
-- get_deploy_group_mappings and generate_deployments_for_service of
-- paasta_tools/generate_deployments_for_service.py, and DeploymentsJson of paasta_tools/utils.py, which
-- reads what was written.
pub mod Reading
pub mod Tests
use paasta.Prelude.{
  ℕ, Text, text_eq, codes, Bool, true, false, Option, none, some, List, [], ◌∷◌, ◌++◌, Result, ok,
  raise, value_error, no_deployments_available, lookup, insert, if◌then◌else◌,
}
use paasta.Deployments.{
  DesiredState, Refs, build_docker_image_name, get_desired_state, get_latest_deployment_tag, start,
}

-- What a branch is to run.
pub record Mapping : Type 0 where
  pub docker_image : Text
  pub desired_state : DesiredState
  pub force_bounce : Option Text

pub record Deployment : Type 0 where
  pub docker_image : Text
  pub git_sha : Text

pub record Control : Type 0 where
  pub desired_state : DesiredState
  pub force_bounce : Option Text

-- The two parts of deployments.json; v2_mappings is `deployments` and `controls`.
pub record Mappings : Type 0 where
  pub v1 : List (Text × Mapping)
  pub deployments : List (Text × Deployment)
  pub controls : List (Text × Control)

-- '%s:paasta-%s' and '%s:%s'
abbrev pub branch_alias : Text → Text → Text
branch_alias service branch = service ++ (codes ":paasta-" ++ branch)

abbrev pub branch_alias_v2 : Text → Text → Text
branch_alias_v2 service branch = service ++ (codes ":" ++ branch)

-- The commit of the tag, where the tag is a ref.
abbrev pub commit_of : Refs → Option (Text × Text) → Option Text
commit_of refs none = none
commit_of refs (some (ref, sha)) = lookup ref refs

abbrev pub add_mapping :
    Text → Text → Text → Text → DesiredState × Option Text → Mappings → Mappings
add_mapping service branch group commit_sha (state, force_bounce) m =
    let image = build_docker_image_name service commit_sha in
    record {
      v1 =
          insert (branch_alias service branch)
            (record { docker_image = image; desired_state = state; force_bounce = force_bounce })
            m.v1;
      deployments =
          insert group (record { docker_image = image; git_sha = commit_sha }) m.deployments;
      controls =
          insert (branch_alias_v2 service branch)
            (record { desired_state = state; force_bounce = force_bounce }) m.controls;
    }

abbrev pub map_commit : Text → Refs → Text → Text → Option Text → Mappings → Mappings
map_commit service refs branch group none m = m
map_commit service refs branch group (some sha) m =
    add_mapping service branch group sha (get_desired_state branch refs group) m

-- The loop of get_deploy_group_mappings.
abbrev pub map_branches : Text → Refs → List (Text × Text) → Mappings → Mappings
map_branches service refs [] m = m
map_branches service refs ((branch, group) ∷ items) m =
    map_branches service refs items (
      map_commit service refs branch group (commit_of refs (get_latest_deployment_tag refs group))
        m)

abbrev pub fill : List (Text × Text) → List (Text × Text) → List (Text × Text)
fill [] d = d
fill ((k, v) ∷ ps) d = fill ps (insert k v d)

-- dict(pairs)
abbrev pub dict_of : List (Text × Text) → List (Text × Text)
dict_of pairs = fill pairs []

abbrev pub no_mappings : Mappings
no_mappings = record { v1 = []; deployments = []; controls = [] }

abbrev pub mappings_unless_none : Text → Refs → List (Text × Text) → Option Mappings
mappings_unless_none service refs [] = none
mappings_unless_none service refs (item ∷ items) =
    some (map_branches service refs (item ∷ items) no_mappings)

abbrev pub unpacked : Option Mappings → Result Mappings
unpacked none = raise value_error
unpacked (some m) = ok m

-- `service_configs` gives the branch and the deploy group of each config. none where the code returns
-- one empty dict instead of two.
unfoldable pub get_deploy_group_mappings : Text → List (Text × Text) → Refs → Option Mappings
unfolding lookup insert
get_deploy_group_mappings service service_configs remote_refs =
    mappings_unless_none service remote_refs (dict_of service_configs)

-- What is written to deployments.json. One empty dict cannot be taken apart in two.
unfoldable pub generate_deployments_for_service : Text → List (Text × Text) → Refs → Result Mappings
unfolding get_deploy_group_mappings
generate_deployments_for_service service service_configs remote_refs =
    unpacked (get_deploy_group_mappings service service_configs remote_refs)

-- DeploymentsJson.get_branch_dict; none where it is {}.
unfoldable pub get_branch_dict : List (Text × Mapping) → Text → Text → Option Mapping
unfolding lookup
get_branch_dict deployments_json service branch =
    lookup (branch_alias service branch) deployments_json

-- Readers of DeploymentsJson on the second part.
abbrev found {ℓ} : {A : Type ℓ} → Option A → Result A
found (some x) = ok x
found none = raise no_deployments_available

unfoldable pub get_docker_image_for_deploy_group : Mappings → Text → Result Text
unfolding lookup
get_docker_image_for_deploy_group m group = elim (found (lookup group m.deployments)) [
  | ok d ↦ ok d.docker_image
  | raise e ↦ raise e
]

unfoldable pub get_git_sha_for_deploy_group : Mappings → Text → Result Text
unfolding lookup
get_git_sha_for_deploy_group m group = elim (found (lookup group m.deployments)) [
  | ok d ↦ ok d.git_sha
  | raise e ↦ raise e
]

unfoldable pub get_desired_state_for_branch : Mappings → Text → Result DesiredState
unfolding lookup
get_desired_state_for_branch m control_branch = elim (found (lookup control_branch m.controls)) [
  | ok c ↦ ok c.desired_state
  | raise e ↦ raise e
]

unfoldable pub get_force_bounce_for_branch : Mappings → Text → Result (Option Text)
unfolding lookup
get_force_bounce_for_branch m control_branch = elim (found (lookup control_branch m.controls)) [
  | ok c ↦ ok c.force_bounce
  | raise e ↦ raise e
]
