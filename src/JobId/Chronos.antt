-- ===== src/JobId/Chronos.antt =====
-- compose_job_id and decompose_job_id of paasta_tools/chronos_tools.py.
use paasta.Prelude.{
  ℕ, Text, List, [], ◌∷◌, ◌++◌, codes, starts_with, Result, ok, raise, invalid_job_name,
  if◌then◌else◌,
}
use paasta.JobId.{split}

-- SPACER and TMP_JOB_IDENTIFIER of chronos_tools.py
abbrev pub chronos_spacer : ℕ
chronos_spacer = b' '

abbrev pub tmp_job_identifier : Text
tmp_job_identifier = codes "tmp"

unfoldable pub compose_chronos_job_id : Text → Text → Text
compose_chronos_job_id service instance_name = service ++ chronos_spacer ∷ instance_name

abbrev chronos_parts : List Text → Result (Text × Text)
chronos_parts (t ∷ s ∷ i ∷ []) =
    if starts_with t tmp_job_identifier then ok (s, i) else raise invalid_job_name
chronos_parts (s ∷ i ∷ []) = ok (s, i)
chronos_parts _ = raise invalid_job_name

unfoldable pub decompose_chronos_job_id : Text → Result (Text × Text)
unfolding split starts_with
decompose_chronos_job_id job_id = chronos_parts (split chronos_spacer job_id)
