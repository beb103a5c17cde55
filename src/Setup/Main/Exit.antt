-- ===== src/Setup/Main/Exit.antt =====
-- What the exit code and the events say of the deployments.
use paasta.Prelude.{
  ℕ, suc, ◌≡◌, ◌≢◌, refl, ap, ◌∙◌, ◌≤◌, ltb, nat_beq, String, Text, Bool, true, not, Option, some,
  List, [], ◌∷◌, Bool-cases, Result-cases, inl, inr, arith, Exception, key_error, type_error,
  attribute_error, invalid_instance_config, Result, ok, raise, ok_injective, if◌then◌else◌,
}
use paasta.Effects.{Oracle, Act, call, pure, and_then, >>=-eq-ok}
use paasta.Marathon.{Effect, send_event}
use paasta.JobId.{JobParts, spacer, decompose_job_id}
use paasta.Bounce.{HealthEnv}
use paasta.Bounce.Locks.Sessions.{latest}
use paasta.Setup.Deploy.{Request, Status, setup_service}
use paasta.Setup.Main.{
  Entry, short_name, report_failure, set_up_and_report, deploy_marathon_service, deploy_entry,
  count_failed, main,
}

module _ (oracle : Oracle Effect) (env : HealthEnv) (draining_hosts : List String) (polls : ℕ) where
  one_is_not_zero :
      (r : Result Bool) (h : List Effect) → (and_then {B = ℕ} r (λ b. pure 1) h).0 ≢ ok 0
  one_is_not_zero (ok b) h = λ e. absurd (no_one (ok_injective e))
    where
      no_one : {n : ℕ} → suc n ≡ 0 → ⊥
      no_one e = omega arith
  one_is_not_zero (raise x) h = λ e. cc

  report_failure_fails :
      (name : Text) (x : Exception) (h : List Effect)
      → (report_failure oracle env draining_hosts polls name x h).0 ≢ ok 0
  unfolding call
  report_failure_fails name key_error h = one_is_not_zero (oracle h (send_event name true)) _
  report_failure_fails name type_error h = one_is_not_zero (oracle h (send_event name true)) _
  report_failure_fails name attribute_error h = one_is_not_zero (oracle h (send_event name true)) _
  report_failure_fails name invalid_instance_config h =
      one_is_not_zero (oracle h (send_event name true)) _
  report_failure_fails name x h = λ e. cc

  abbrev deploy : JobParts → Entry → Act Effect ℕ
  deploy parts entry =
      deploy_marathon_service oracle env draining_hosts polls (short_name parts) entry.loaded

  -- Each entry's text can be taken apart, and its deployment returns 0, one after the other.
  pub data AllDeployed : List Entry → List Effect → Type 0 where
    done : {h : List Effect} → AllDeployed [] h
    next :
        {entry : Entry} {entries : List Entry} {h : List Effect} (parts : JobParts)
        → decompose_job_id entry.service_instance spacer ≡ ok parts
        → (deploy parts entry h).0 ≡ ok 0
        → AllDeployed entries (deploy parts entry h).1
        → AllDeployed (entry ∷ entries) h

  abbrev entered : Entry → Result JobParts → Act Effect ℕ
  entered entry r = deploy_entry oracle env draining_hosts polls r entry.loaded

  count_failed_grows :
      (entries : List Entry) (failed : ℕ) (h : List Effect) (n : ℕ)
      → (count_failed oracle env draining_hosts polls entries failed h).0 ≡ ok n
      → failed ≤ n
  unfolding count_failed
  count_failed_grows [] failed h n e = let same : failed ≡ n = ok_injective e in omega arith
  count_failed_grows (entry ∷ entries) failed h n e =
      let (bad, first, second, same) =
        >>=-eq-ok (entered entry (decompose_job_id entry.service_instance spacer)) _ h e in
      let after : (if ltb 0 bad then suc failed else failed) ≤ n =
        count_failed_grows entries _ _ n second in
      elim (Bool-cases (ltb 0 bad)) [
        | inl failing ↦ let more : suc failed ≤ n = rw failing at after in omega arith
        | inr fine ↦ rw fine at after
      ]

  counted :
      (entry : Entry) (entries : List Entry) (h : List Effect) (r : Result JobParts)
      → decompose_job_id entry.service_instance spacer ≡ r
      → (entered entry r h).0 ≡ ok 0
      → AllDeployed entries (entered entry r h).1
      → AllDeployed (entry ∷ entries) h
  counted entry entries h (ok parts) split first rest = next parts split first rest
  counted entry entries h (raise x) split first rest = absurd (one_is_not_zero (ok true) h first)

  count_failed-AllDeployed :
      (entries : List Entry) (h : List Effect)
      → (count_failed oracle env draining_hosts polls entries 0 h).0 ≡ ok 0
      → AllDeployed entries h
  unfolding count_failed
  count_failed-AllDeployed [] h e = done
  count_failed-AllDeployed (entry ∷ entries) h e =
      let parts = decompose_job_id entry.service_instance spacer in
      let (bad, first, second, same) = >>=-eq-ok (entered entry parts) _ h e in
      let after : (if ltb 0 bad then 1 else 0) ≤ 0 = count_failed_grows entries _ _ 0 second in
      elim (Bool-cases (ltb 0 bad)) [
        | inl failing ↦ let more : 1 ≤ 0 = rw failing at after in absurd (omega arith)
        | inr fine ↦
            let none_failed : bad ≡ 0 = ground arith in
            counted entry entries h parts refl (first ∙ ap ok none_failed)
              (count_failed-AllDeployed entries _ (rw fine at second))
      ]

  -- main exits with 0 only where each service instance's text can be taken apart and each deployment,
  -- one after the other, returned 0.
  pub main-AllDeployed :
      (entries : List Entry) (h : List Effect)
      → (main oracle env draining_hosts polls entries h).0 ≡ ok 0
      → AllDeployed entries h
  unfolding main
  main-AllDeployed entries h e =
      let (failed, first, second, same) =
        >>=-eq-ok (count_failed oracle env draining_hosts polls entries 0) _ h e in
      let none_failed : failed ≡ 0 = exit_zero failed (ok_injective second) in
      count_failed-AllDeployed entries h (first ∙ ap ok none_failed)
    where
      exit_zero : (n : ℕ) → ◌≡◌ {A = ℕ} (if ltb 0 n then 1 else 0) 0 → n ≡ 0
      exit_zero n z = ground arith

  -- Where a deployment of a loaded config returns 0, its last call is the event, which is critical
  -- exactly where setup_service returned a status other than 0.
  pub deploy_marathon_service_reports :
      (name : Text) (req : Option Request) (h : List Effect)
      → (deploy_marathon_service oracle env draining_hosts polls name (ok req) h).0 ≡ ok 0
      → (st : Status) × ((setup_service oracle env draining_hosts polls req h).0 ≡ ok st)
        × (latest (deploy_marathon_service oracle env draining_hosts polls name (ok req) h).1
            ≡ some (send_event name (not (nat_beq st.0 0))))
  unfolding deploy_marathon_service call
  deploy_marathon_service_reports name req h e =
      elim (Result-cases (set_up_and_report oracle env draining_hosts polls name req h).0) [
        | inl (n, returned) ↦
            let (st, first, second, same) =
              >>=-eq-ok (setup_service oracle env draining_hosts polls req) _ h returned in
            let sent =
              >>=-eq-ok (call oracle (send_event name (not (nat_beq st.0 0)))) (λ b. pure 0) _
                second in
            (st, first, rw returned (ap (λ p. latest p.1) same ∙ ap (λ p. latest p.1) sent.3))
        | inr (x, failed) ↦ absurd (report_failure_fails name x _ (rw failed at e))
      ]
