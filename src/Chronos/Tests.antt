-- ===== src/Chronos/Tests.antt =====
-- A clean up of five jobs.
use paasta.Prelude.{
  ◌≡◌, refl, ℕ, true, Result, Text, text_eq, text_beq, codes, false, Option, none, some, List, [],
  ◌∷◌, ok, raise, io_error, value_error, ◌++◌, starts_with,
}
use paasta.Effects.{Oracle}
use paasta.Chronos.{ChronosCall, Job, is_temporary, jobs_to_delete}
use paasta.JobId.Chronos.{compose_chronos_job_id, decompose_chronos_job_id}
use paasta.Chronos.Rerun.{JobConfig, clone_job, dependent, get_job_type}
use paasta.Chronos.Rerun.Names.{clone_job-IsRerun}

abbrev job : Text → Option ℕ → Job
job name ended = record { name = name; disabled = false; last_success = ended; last_failure = none }

abbrev gone : Text
gone = codes "s gone"

-- Of the two temporary jobs one ended long ago; the other one, of the same instance, has not run.
abbrev jobs : List Job
jobs =
    job (codes "s kept") none
    ∷ job gone (some 5)
    ∷ job (codes "tmp1 s i") (some 5)
    ∷ job (codes "tmp2 s i") none
    ∷ job (codes "tmp3 s j") none
    ∷ []

abbrev configured : List (Text × Text)
configured = (codes "s", codes "kept") ∷ []

abbrev kill : List Text
kill = gone ∷ codes "tmp1 s i" ∷ codes "tmp2 s i" ∷ []

kill_run : jobs_to_delete 100000 jobs configured ≡ ok kill
unfolding jobs_to_delete text_beq starts_with
kill_run = refl

abbrev failing : Oracle ChronosCall
failing h c = raise io_error

abbrev now_text : Text
now_text = codes "2017-01-02T03:04:05.67"

abbrev child : JobConfig
child = record {
  name = codes "s child";
  schedule = none;
  parents = some (codes "s parent" ∷ []);
  command = some (codes "run");
}

-- An interpolation that appends the date.
abbrev appended : Option Text → Text → Result Text
appended none date = raise value_error
appended (some command) date = ok (command ++ date)

clone_job-IsRerun_example :
    (clone : JobConfig) × (clone_job appended now_text child (codes "-17") ≡ ok clone)
    × (is_temporary clone.name ≡ true)
    × (decompose_chronos_job_id clone.name ≡ ok (codes "s", codes "child"))
    × (clone.schedule ≡ some (codes "R1//PT1M"))
    × (clone.command ≡ some (codes "run-17"))
    × (child.schedule ≡ none → clone.parents ≡ none)
unfolding get_job_type compose_chronos_job_id
clone_job-IsRerun_example =
    clone_job-IsRerun appended now_text child (codes "-17") (codes "s") (codes "child")
      (codes "run-17") dependent refl refl refl refl refl refl
