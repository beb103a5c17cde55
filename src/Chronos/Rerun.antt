-- ===== src/Chronos/Rerun.antt =====
-- clone_job of paasta_tools/chronos_rerun.py: the temporary job that runs a job again for a date. A
-- config holds the fields that it reads or sets.
pub mod Names
use paasta.Prelude.{
  ℕ, nat_eq, Text, codes, ◌==◌, Bool, not, Option, none, some, List, ◌∷◌, ◌++◌, select, Result, ok,
  raise, value_error, ◌>>=◌,
}
use paasta.JobId.Chronos.{chronos_spacer, tmp_job_identifier}

pub record JobConfig : Type 0 where
  pub name : Text
  pub schedule : Option Text
  pub parents : Option (List Text)
  pub command : Option Text

pub data JobType : Type 0 where
  dependent scheduled : JobType

abbrev pub type_of : Option Text → Option (List Text) → Result JobType
type_of (some schedule) parents = ok scheduled
type_of none (some parents) = ok dependent
type_of none none = raise value_error

unfoldable pub get_job_type : JobConfig → Result JobType
get_job_type job = type_of job.schedule job.parents

-- text.replace(c, '')
unfoldable pub removed : ℕ → Text → Text
removed c text = select (λ x. not (x == c)) text

-- `now` is the time in ISO format.
unfoldable pub set_tmp_naming_scheme : (now : Text) → JobConfig → JobConfig
unfolding removed
set_tmp_naming_scheme now job =
    let timestamp = removed b'.' (removed b':' now) in
    record {
      name = tmp_job_identifier ++ b'-' ∷ (timestamp ++ chronos_spacer ∷ job.name);
      schedule = job.schedule;
      parents = job.parents;
      command = job.command;
    }

unfoldable pub set_default_schedule : JobConfig → JobConfig
set_default_schedule job = record {
  name = job.name;
  schedule = some (codes "R1//PT1M");
  parents = job.parents;
  command = job.command;
}

unfoldable pub remove_parents : JobConfig → JobConfig
remove_parents job = record {
  name = job.name;
  schedule = job.schedule;
  parents = none;
  command = job.command;
}

abbrev without_parents : JobType → JobConfig → JobConfig
unfolding remove_parents
without_parents dependent job = remove_parents job
without_parents scheduled job = job

-- parse_time_variables of paasta_tools/chronos_tools.py formats a command by a date with the context of
-- tron, a package whose code is not here: it is a parameter.
module _ {Date : Type 0} (parse_time_variables : Option Text → Date → Result Text) where
  unfoldable pub modify_command_for_date : JobConfig → Date → Result JobConfig
  modify_command_for_date job date = parse_time_variables job.command date >>= λ command.
      ok (record {
        name = job.name;
        schedule = job.schedule;
        parents = job.parents;
        command = some command;
      })

  unfoldable pub clone_job : (now : Text) → JobConfig → Date → Result JobConfig
  unfolding get_job_type set_tmp_naming_scheme set_default_schedule modify_command_for_date
      remove_parents
  clone_job now chronos_job date = get_job_type chronos_job >>= λ job_type.
      let named = set_tmp_naming_scheme now chronos_job in
      let clone = without_parents job_type (set_default_schedule named) in
      modify_command_for_date (set_default_schedule clone) date
