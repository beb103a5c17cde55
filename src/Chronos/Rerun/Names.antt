-- ===== src/Chronos/Rerun/Names.antt =====
-- The jobs that clone_job of chronos_rerun.py makes, and the parts of their names.
use paasta.Prelude.{
  ℕ, List, nat_eq, ◌≡◌, refl, sym, Text, ◌==◌, true, not, Option, none, some, ◌∷◌, contains-select,
  Result, ok, ok_injective, starts_with, codes, arith,
}
use paasta.JobId.Chronos.{chronos_spacer, compose_chronos_job_id, decompose_chronos_job_id}
use paasta.JobId.RoundTrip.{decompose-compose_chronos_job_id}
use paasta.JobId.Splitting.{Lacks}
use paasta.Chronos.{is_temporary}
use paasta.Chronos.Rerun.{
  JobConfig, JobType, clone_job, dependent, get_job_type, modify_command_for_date, remove_parents,
  removed, scheduled, set_default_schedule, set_tmp_naming_scheme, type_of, without_parents,
}

Lacks-removed : (sep c : ℕ) (t : Text) → Lacks sep t → Lacks sep (removed c t)
unfolding removed
Lacks-removed sep c t lacks = rw (contains-select (λ x. not (x == c)) t sep, lacks) refl

kept_name : (ty : JobType) (job : JobConfig) → (without_parents ty job).name ≡ job.name
unfolding remove_parents
kept_name dependent job = refl
kept_name scheduled job = refl

unscheduled-dependent :
    (schedule : Option Text) (parents : Option (List Text)) (ty : JobType)
    → type_of schedule parents ≡ ok ty
    → schedule ≡ none
    → ty ≡ dependent
unscheduled-dependent none none ty typed e = cc
unscheduled-dependent none (some parents) ty typed e = sym (ok_injective typed)
unscheduled-dependent (some schedule) parents ty typed e = cc

kept_command : (ty : JobType) (job : JobConfig) → (without_parents ty job).command ≡ job.command
unfolding remove_parents
kept_command dependent job = refl
kept_command scheduled job = refl

no_parents :
    (job : JobConfig) (ty : JobType)
    → get_job_type job ≡ ok ty
    → job.schedule ≡ none
    → (other : JobConfig) → (without_parents ty other).parents ≡ none
unfolding get_job_type remove_parents
no_parents job ty typed unscheduled other =
    rw (unscheduled-dependent job.schedule job.parents ty typed unscheduled) refl

named_so :
    (now : Text) (job : JobConfig) (service instance_name : Text)
    → Lacks chronos_spacer now
    → Lacks chronos_spacer service
    → Lacks chronos_spacer instance_name
    → job.name ≡ compose_chronos_job_id service instance_name
    → (is_temporary (set_tmp_naming_scheme now job).name ≡ true)
      × (decompose_chronos_job_id (set_tmp_naming_scheme now job).name
          ≡ ok (service, instance_name))
unfolding set_tmp_naming_scheme is_temporary starts_with
named_so now job service instance_name hn hs hi named =
    let timestamp = removed b'.' (removed b':' now) in
    let lacks =
      Lacks-removed chronos_spacer b'.' (removed b':' now)
        (Lacks-removed chronos_spacer b':' now hn) in
    let part =
      decompose-compose_chronos_job_id (b'-' ∷ timestamp) service instance_name
        (ground (arith, lacks)) hs hi in
    (refl, rw named part.1)

-- A clone is made of a configured job that has a schedule or parents, if its command can be interpolated
-- for the date. If neither the service, nor the instance, nor the time of the clone holds a space, which
-- separates the parts of a job's name, it is a temporary job that is found under the same service and
-- instance, runs once, with the interpolated command, and has no parents if the job has no schedule.
pub clone_job-IsRerun :
    {Date : Type 0} (parse_time_variables : Option Text → Date → Result Text) (now : Text)
    (job : JobConfig) (date : Date) (service instance_name command : Text) (job_type : JobType)
    → Lacks chronos_spacer now
    → Lacks chronos_spacer service
    → Lacks chronos_spacer instance_name
    → job.name ≡ compose_chronos_job_id service instance_name
    → get_job_type job ≡ ok job_type
    → parse_time_variables job.command date ≡ ok command
    → (clone : JobConfig) × (clone_job parse_time_variables now job date ≡ ok clone)
      × (is_temporary clone.name ≡ true)
      × (decompose_chronos_job_id clone.name ≡ ok (service, instance_name))
      × (clone.schedule ≡ some (codes "R1//PT1M"))
      × (clone.command ≡ some command)
      × (job.schedule ≡ none → clone.parents ≡ none)
unfolding clone_job set_default_schedule modify_command_for_date set_tmp_naming_scheme
clone_job-IsRerun parse now job date service instance_name command ty hn hs hi named typed parsed =
    let tmp = set_default_schedule (set_tmp_naming_scheme now job) in
    let clone = set_default_schedule (without_parents ty tmp) in
    let (is_tmp, parts) = named_so now job service instance_name hn hs hi named in
    let name_is = kept_name ty tmp in
    (
      record {
        name = clone.name;
        schedule = clone.schedule;
        parents = clone.parents;
        command = some command;
      },
      rw (typed, kept_command ty tmp, parsed) refl,
      rw name_is is_tmp,
      rw name_is parts,
      refl,
      refl,
      λ unscheduled. no_parents job ty typed unscheduled tmp,
    )
