-- ===== src/JobId/RoundTrip.antt =====
-- Composing an id and taking it apart again.
use paasta.Prelude.{
  nat_eq, ℕ, Text, ◌≡◌, refl, Option, none, some, ◌∷◌, ◌++◌, arith, Result, ok, raise, ◌>>=◌,
}
use mathlib.Core.List.{append_assoc}
use paasta.JobId.{spacer, compose_job_id, decompose_job_id, long_job_id_to_short_job_id}
use paasta.JobId.Chronos.{
  chronos_spacer, tmp_job_identifier, compose_chronos_job_id, decompose_chronos_job_id,
}
use paasta.JobId.Splitting.{Lacks, split-none, split-append}

-- The parts of a job as the program hands them over: no hash, or two that are not empty.
pub data Hashes : Type 0 where
  absent : Hashes
  given : (git_first : ℕ) (git_rest : Text) (config_first : ℕ) (config_rest : Text) → Hashes

abbrev pub git_of : Hashes → Option Text
git_of absent = none
git_of (given g gs c cs) = some (g ∷ gs)

abbrev pub config_of : Hashes → Option Text
config_of absent = none
config_of (given g gs c cs) = some (c ∷ cs)

abbrev pub LackedBy : ℕ → Hashes → Type 0
LackedBy sep absent = Unit {0}
LackedBy sep (given g gs c cs) = Lacks sep (g ∷ gs) × Lacks sep (c ∷ cs)

-- Taking a composed id apart gives its parts back, if no part holds the separator.
pub decompose-compose_job_id :
    (service instance_name : Text) (hashes : Hashes) (sep : ℕ)
    → Lacks sep service
    → Lacks sep instance_name
    → LackedBy sep hashes
    → (compose_job_id service instance_name (git_of hashes) (config_of hashes) sep >>= λ id.
        decompose_job_id id sep)
      ≡ ok (service, instance_name, git_of hashes, config_of hashes)
unfolding compose_job_id decompose_job_id
decompose-compose_job_id s i absent sep hs hi hh =
    rw (split-append sep s i hs, split-none sep i hi) refl
decompose-compose_job_id s i (given g gs c cs) sep hs hi hh =
    rw
      (
        append_assoc s (sep ∷ i) (sep ∷ g ∷ (gs ++ sep ∷ c ∷ cs)),
        split-append sep s (i ++ sep ∷ g ∷ (gs ++ sep ∷ c ∷ cs)) hs,
        split-append sep i (g ∷ (gs ++ sep ∷ c ∷ cs)) hi,
        split-append sep (g ∷ gs) (c ∷ cs) hh.0,
        split-none sep (c ∷ cs) hh.1,
      )
      refl

-- A long id is shortened to the id of its service and instance, if no part holds the spacer.
long_job_id_to_short_job_id-compose :
    (service instance_name : Text) (hashes : Hashes)
    → Lacks spacer service
    → Lacks spacer instance_name
    → LackedBy spacer hashes
    → (compose_job_id service instance_name (git_of hashes) (config_of hashes) spacer
        >>= long_job_id_to_short_job_id)
      ≡ compose_job_id service instance_name none none spacer
unfolding compose_job_id long_job_id_to_short_job_id
long_job_id_to_short_job_id-compose s i hashes hs hi hh =
    shorten (compose_job_id s i (git_of hashes) (config_of hashes) spacer)
      (decompose-compose_job_id s i hashes spacer hs hi hh)
  where
    shorten :
        (id : Result Text)
        → (id >>= λ t. decompose_job_id t spacer) ≡ ok (s, i, git_of hashes, config_of hashes)
        → (id >>= long_job_id_to_short_job_id) ≡ compose_job_id s i none none spacer
    shorten (ok t) e = rw e refl
    shorten (raise x) e = cc

-- Chronos: a job id of two parts is taken apart into them, and so is that of a temporary job, if no
-- part holds the space.
pub decompose-compose_chronos_job_id :
    (tmp service instance_name : Text)
    → Lacks chronos_spacer tmp
    → Lacks chronos_spacer service
    → Lacks chronos_spacer instance_name
    → (decompose_chronos_job_id (compose_chronos_job_id service instance_name)
        ≡ ok (service, instance_name))
      × (decompose_chronos_job_id (
            (tmp_job_identifier ++ tmp)
            ++ chronos_spacer ∷ compose_chronos_job_id service instance_name)
          ≡ ok (service, instance_name))
unfolding compose_chronos_job_id decompose_chronos_job_id
decompose-compose_chronos_job_id tmp s i ht hs hi = (
  rw (split-append chronos_spacer s i hs, split-none chronos_spacer i hi) refl,
  rw
      (
        split-append chronos_spacer (tmp_job_identifier ++ tmp) (s ++ chronos_spacer ∷ i)
            (ground arith),
        split-append chronos_spacer s i hs,
        split-none chronos_spacer i hi,
      )
      refl,
)
