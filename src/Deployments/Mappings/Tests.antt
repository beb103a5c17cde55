-- ===== src/Deployments/Mappings/Tests.antt =====
-- The deployments of a small service.
use paasta.Prelude.{
  ◌≡◌, refl, Text, text_eq, text_beq, codes, some, List, [], ◌∷◌, ok, raise, value_error, lookup,
}
use paasta.Deployments.{
  Refs, build_docker_image_name, deploy_time, get_desired_state, get_latest_deployment_tag, stop,
}
use paasta.Deployments.States.{Decided, get_desired_state-Decided}
use paasta.Deployments.Tags.{Chosen, get_latest_deployment_tag-Chosen}
use paasta.Deployments.Mappings.{
  Mappings, dict_of, generate_deployments_for_service, get_branch_dict,
}
use paasta.Deployments.Mappings.Reading.{expected, get_branch_dict-generate}

abbrev old_tag : Text
old_tag = codes "refs/tags/paasta-dev-20160101T000000-deploy"

abbrev new_tag : Text
new_tag = codes "refs/tags/paasta-dev-20160202T000000-deploy"

abbrev refs : Refs
refs =
    (new_tag, codes "sha2")
    ∷ (old_tag, codes "sha1")
    ∷ (codes "refs/tags/paasta-c.main-77-stop", codes "sha2")
    ∷ (codes "refs/tags/paasta-c.main-66-start", codes "sha2")
    ∷ []

latest_run : get_latest_deployment_tag refs (codes "dev") ≡ some (new_tag, codes "sha2")
unfolding get_latest_deployment_tag
latest_run = refl

state_run : get_desired_state (codes "c.main") refs (codes "dev") ≡ (stop, some (codes "77"))
unfolding get_desired_state text_beq
state_run = refl

-- A dot of a deploy group matches any character.
dot_run :
    deploy_time (codes "a.b") (codes "refs/tags/paasta-axb-20160101T000000-deploy")
    ≡ some (codes "20160101T000000")
unfolding deploy_time
dot_run = refl

get_latest_deployment_tag-Chosen_example :
    Chosen (codes "dev") refs (get_latest_deployment_tag refs (codes "dev"))
get_latest_deployment_tag-Chosen_example = get_latest_deployment_tag-Chosen refs (codes "dev")

abbrev configs : List (Text × Text)
configs = (codes "c.main", codes "dev") ∷ (codes "c.other", codes "prod") ∷ []

none_run : generate_deployments_for_service (codes "s") [] refs ≡ raise value_error
unfolding generate_deployments_for_service
none_run = refl

abbrev written : Mappings
written = record {
  v1 =
      (
        codes "s:paasta-c.main",
        record {
          docker_image = codes "services-s:paasta-sha2";
          desired_state = stop;
          force_bounce = some (codes "77");
        },
      )
      ∷ [];
  deployments =
      (
        codes "dev",
        record { docker_image = codes "services-s:paasta-sha2"; git_sha = codes "sha2" },
      )
      ∷ [];
  controls =
      (codes "s:c.main", record { desired_state = stop; force_bounce = some (codes "77") }) ∷ [];
}

written_run : generate_deployments_for_service (codes "s") configs refs ≡ ok written
unfolding generate_deployments_for_service get_latest_deployment_tag get_desired_state text_beq
    build_docker_image_name
written_run = refl

get_branch_dict-generate_example :
    get_branch_dict written.v1 (codes "s") (codes "c.main")
    ≡ expected (codes "s") refs (lookup (codes "c.main") (dict_of configs)) (codes "c.main")
get_branch_dict-generate_example =
    get_branch_dict-generate (codes "s") configs refs written (codes "c.main") written_run

get_desired_state-Decided_example :
    Decided
      (codes "c.main")
      (get_latest_deployment_tag refs (codes "dev"))
      refs
      (get_desired_state (codes "c.main") refs (codes "dev"))
get_desired_state-Decided_example = get_desired_state-Decided (codes "c.main") refs (codes "dev")
