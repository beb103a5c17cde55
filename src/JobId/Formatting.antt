-- ===== src/JobId/Formatting.antt =====
-- format_job_id and deformat_job_id of paasta_tools/marathon_tools.py.
use paasta.Prelude.{
  ℕ, nat_eq, Text, ◌≡◌, refl, sym, ap, ◌∙◌, inl, inr, Bool, false, ◌||◌, ◌&&◌, some, [], ◌∷◌, ◌++◌,
  nat_beq, nat_beq_iff, arith, ok, ◌>>=◌, Bool-cases,
}
use mathlib.Core.List.{append_assoc, append-nil}
use paasta.JobId.{
  spacer, truthy, compose_job_id, decompose_job_id, underscores_to_dashes, dashes_to_underscores,
  format_job_id, deformat_job_id,
}
use paasta.JobId.Splitting.{Lacks}
use paasta.JobId.RoundTrip.{
  Hashes, absent, given, git_of, config_of, LackedBy, decompose-compose_job_id,
}

abbrev starts_dash : Text → Bool
starts_dash [] = false
starts_dash (c ∷ s) = nat_beq c b'-'

abbrev dash_or_underscore : Text → Bool
dash_or_underscore [] = false
dash_or_underscore (c ∷ s) = nat_beq c b'-' || nat_beq c b'_'

-- No dash is followed by a dash or an underscore.
abbrev pub IsFormattable : Text → Type 0
IsFormattable [] = Unit {0}
IsFormattable (c ∷ s) = ((nat_beq c b'-' && dash_or_underscore s) ≡ false) × IsFormattable s

head_kept :
    (c : ℕ) (t : Text)
    → (nat_beq c b'-' && starts_dash t) ≡ false
    → dashes_to_underscores (c ∷ t) ≡ c ∷ dashes_to_underscores t
unfolding dashes_to_underscores
head_kept c [] h = refl
head_kept c (b ∷ t) h = rw (h, dashes_to_underscores) refl

pair_replaced :
    (t : Text) → dashes_to_underscores (b'-' ∷ b'-' ∷ t) ≡ b'_' ∷ dashes_to_underscores t
unfolding dashes_to_underscores
pair_replaced t = refl

module _ (rest : Text) (plain : starts_dash rest ≡ false) where
  starts_after :
      (c : ℕ) (s : Text)
      → (nat_beq c b'-' && dash_or_underscore s) ≡ false
      → (nat_beq c b'-' && starts_dash (underscores_to_dashes s ++ rest)) ≡ false
  unfolding underscores_to_dashes
  starts_after c [] h = ground arith
  starts_after c (d ∷ s) h = ground arith

  -- Replacing back what was replaced, in front of more text.
  dashes-underscores :
      (s : Text)
      → IsFormattable s
      → dashes_to_underscores (underscores_to_dashes s ++ rest) ≡ s ++ dashes_to_underscores rest
  unfolding underscores_to_dashes
  dashes-underscores [] h = refl
  dashes-underscores (c ∷ s) h = elim (Bool-cases (nat_beq c b'_')) [
    | inl under ↦
        let is_under : c ≡ b'_' = (nat_beq_iff c b'_').0 under in
        rw (is_under, pair_replaced (underscores_to_dashes s ++ rest))
          (ap (λ t. b'_' ∷ t) (dashes-underscores s h.1))
    | inr other ↦ rw other (
        head_kept c (underscores_to_dashes s ++ rest) (starts_after c s h.0)
        ∙ ap (λ t. c ∷ t) (dashes-underscores s h.1))
  ]

-- The text at the end of an id.
last_part : (s : Text) → IsFormattable s → dashes_to_underscores (underscores_to_dashes s) ≡ s
last_part s h =
    ap dashes_to_underscores (sym (append-nil (underscores_to_dashes s)))
    ∙ dashes-underscores [] refl s h
    ∙ nil_kept
  where
    nil_kept : s ++ dashes_to_underscores [] ≡ s
    nil_kept = unfold dashes_to_underscores in append-nil s

-- The text before a spacer.
part_before :
    (s t : Text)
    → IsFormattable s
    → dashes_to_underscores (underscores_to_dashes s ++ spacer ∷ t)
      ≡ s ++ spacer ∷ dashes_to_underscores t
part_before s t h =
    dashes-underscores (spacer ∷ t) refl s h ∙ ap (λ u. s ++ u) (head_kept spacer t refl)

abbrev pub FormattableHashes : Hashes → Type 0
FormattableHashes absent = Unit {0}
FormattableHashes (given g gs c cs) = IsFormattable (g ∷ gs) × IsFormattable (c ∷ cs)

formatted_true :
    (c : ℕ) (s : Text)
    → truthy (some (underscores_to_dashes (c ∷ s))) ≡ some (underscores_to_dashes (c ∷ s))
unfolding underscores_to_dashes
formatted_true c s = ground arith

regroup :
    (s i g c : Text)
    → IsFormattable s
    → IsFormattable i
    → IsFormattable g
    → IsFormattable c
    → dashes_to_underscores (
        (underscores_to_dashes s ++ spacer ∷ underscores_to_dashes i)
        ++ spacer ∷ (underscores_to_dashes g ++ spacer ∷ underscores_to_dashes c))
      ≡ (s ++ spacer ∷ i) ++ spacer ∷ (g ++ spacer ∷ c)
regroup s i g c hs hi hg hc =
    ap dashes_to_underscores (
      append_assoc (underscores_to_dashes s) (spacer ∷ underscores_to_dashes i)
        (spacer ∷ (underscores_to_dashes g ++ spacer ∷ underscores_to_dashes c)))
    ∙ part_before s _ hs
    ∙ ap (λ u. s ++ spacer ∷ u)
        (part_before i _ hi
          ∙ ap (λ u. i ++ spacer ∷ u)
              (part_before g _ hg ∙ ap (λ u. g ++ spacer ∷ u) (last_part c hc)))
    ∙ sym (append_assoc s (spacer ∷ i) (spacer ∷ (g ++ spacer ∷ c)))

-- A formatted id, with its dashes put back, is the plain composed id.
deformatted :
    (service instance_name : Text) (hashes : Hashes)
    → IsFormattable service
    → IsFormattable instance_name
    → FormattableHashes hashes
    → (format_job_id service instance_name (git_of hashes) (config_of hashes) >>= deformat_job_id)
      ≡ (compose_job_id service instance_name (git_of hashes) (config_of hashes) spacer >>= λ id.
          decompose_job_id id spacer)
unfolding format_job_id deformat_job_id
deformatted s i absent hs hi hh =
    ap (λ id. decompose_job_id id spacer)
      (part_before s (underscores_to_dashes i) hs ∙ ap (λ u. s ++ spacer ∷ u) (last_part i hi))
deformatted s i (given g gs c cs) hs hi hh =
    rw (formatted_true g gs, formatted_true c cs)
      (ap (λ id. decompose_job_id id spacer) (regroup s i (g ∷ gs) (c ∷ cs) hs hi hh.0 hh.1))

-- Formatting a job's id for Marathon and reading it back gives the job's parts, if no part holds
-- the spacer and no dash stands before a dash or an underscore.
deformat-format_job_id :
    (service instance_name : Text) (hashes : Hashes)
    → IsFormattable service
    → IsFormattable instance_name
    → FormattableHashes hashes
    → Lacks spacer service
    → Lacks spacer instance_name
    → LackedBy spacer hashes
    → (format_job_id service instance_name (git_of hashes) (config_of hashes) >>= deformat_job_id)
      ≡ ok (service, instance_name, git_of hashes, config_of hashes)
deformat-format_job_id s i hashes fs fi fh hs hi hh =
    deformatted s i hashes fs fi fh ∙ decompose-compose_job_id s i hashes spacer hs hi hh
