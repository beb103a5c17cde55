-- ===== src/Chronos/Cleanup.antt =====
-- The jobs that cleanup_chronos_jobs.py deletes.
use paasta.Prelude.{
  ℕ, ◌≡◌, refl, sym, ap, ◌∙◌, inl, inr, Text, text_eq, ◌==◌, Bool, true, false, ◌&&◌, ◌||◌, not,
  List, [], ◌∷◌, map, any_of, contains, contains-append, contains-diff, contains-select,
  contains-set_of, set_of, diff, select, Result, ok, raise, ok_injective, >>=-eq-ok, Bool-cases,
  Result-cases, arith,
}
use paasta.Effects.{Oracle}
use paasta.JobId.Chronos.{decompose_chronos_job_id}
use paasta.Chronos.{
  ChronosCall, Job, cleanup_chronos_jobs, cleanup_each, compose_pair, delete, delete_tasks,
  execute_call, filter_expired_tmp_jobs, filter_paasta_jobs, filter_tmp_jobs, get_status_last_run,
  get_temporary_jobs_for_service_instance, has_expired, is_job_id, is_temporary, jobs_to_delete,
  name_for_each,
}

abbrev expired_among : ℕ → List Job → Result (Text × Text) → Bool
expired_among now jobs (raise e) = false
expired_among now jobs (ok parts) =
    any_of (λ job. has_expired now (get_status_last_run job))
      (get_temporary_jobs_for_service_instance jobs parts.0 parts.1)

-- Whether some temporary job of the same service and instance ended more than a day ago.
abbrev pub expired_like : ℕ → List Job → Text → Bool
expired_like now jobs name = expired_among now jobs (decompose_chronos_job_id name)

-- A temporary job is spared while none of its service and instance has expired.
abbrev pub is_spared : ℕ → List Job → Text → Bool
is_spared now jobs name =
    (is_job_id (decompose_chronos_job_id name) && is_temporary name)
    && not (expired_like now jobs name)

contains-name_for_each :
    (name : Text) (now : ℕ) (jobs : List Job) (n : Text)
    → contains (name_for_each name now jobs) n
      ≡ ((n == name) && any_of (λ job. has_expired now (get_status_last_run job)) jobs)
contains-name_for_each name now [] n = ground arith
contains-name_for_each name now (job ∷ jobs) n =
    elim (Bool-cases (has_expired now (get_status_last_run job))) [
      | inl expired ↦ rw (expired, contains-name_for_each name now jobs n) (both (n == name) _)
      | inr fresh ↦ rw fresh (contains-name_for_each name now jobs n)
    ]
  where
    both : (a b : Bool) → (a || (a && b)) ≡ (a && true)
    both a b = ground arith

contains-filter_expired :
    (now : ℕ) (jobs : List Job) (names expired : List Text) (n : Text)
    → filter_expired_tmp_jobs now jobs names ≡ ok expired
    → contains expired n ≡ (contains names n && expired_like now jobs n)
unfolding filter_expired_tmp_jobs
contains-filter_expired now jobs [] expired n e = ap (λ l. contains l n) (sym (ok_injective e))
contains-filter_expired now jobs (name ∷ names) expired n e =
    let (parts, taken_apart, rest) = >>=-eq-ok (decompose_chronos_job_id name) _ e in
    let (more, others, joined) = >>=-eq-ok (filter_expired_tmp_jobs now jobs names) _ rest in
    let mine = get_temporary_jobs_for_service_instance jobs parts.0 parts.1 in
    ap (λ l. contains l n) (sym (ok_injective joined))
    ∙ contains-append (name_for_each name now mine) more n
    ∙ rw
        (
          contains-name_for_each name now mine n,
          contains-filter_expired now jobs names more n others,
        )
        (elim (Bool-cases (n == name)) [
          | inl same ↦
              rw (same, (text_eq.beq_iff n name).0 same, taken_apart)
                (absorb _ (contains names name))
          | inr other ↦ rw other refl
        ])
  where
    absorb : (a b : Bool) → (a || (b && a)) ≡ a
    absorb a b = ground arith

-- Where the jobs to delete can be told, a job is among them exactly where it runs, is not configured, and is
-- not spared as a temporary job.
jobs_to_delete_are :
    (now : ℕ) (jobs : List Job) (configured : List (Text × Text)) (kill : List Text) (n : Text)
    → jobs_to_delete now jobs configured ≡ ok kill
    → contains kill n ≡ (
        contains (map (λ (job : Job). job.name) jobs) n
        && (not (contains (map compose_pair configured) n) && not (is_spared now jobs n)))
unfolding jobs_to_delete filter_tmp_jobs filter_paasta_jobs
jobs_to_delete_are now jobs configured kill n e =
    let running = set_of (map (λ (job : Job). job.name) jobs) in
    let expected = set_of (map compose_pair configured) in
    let paasta = select (λ job. is_job_id (decompose_chronos_job_id job)) running in
    let tmp = set_of (select is_temporary paasta) in
    let (expired, found, joined) = >>=-eq-ok (filter_expired_tmp_jobs now jobs tmp) _ e in
    ap (λ l. contains l n) (sym (ok_injective joined))
    ∙ contains-diff (diff running expected) (diff tmp (set_of expired)) n
    ∙ rw
        (
          contains-diff running expected n,
          contains-diff tmp (set_of expired) n,
          contains-set_of expired n,
          contains-filter_expired now jobs tmp expired n found,
          contains-set_of (select is_temporary paasta) n,
          contains-select is_temporary paasta n,
          contains-select (λ job. is_job_id (decompose_chronos_job_id job)) running n,
          contains-set_of (map (λ (job : Job). job.name) jobs) n,
          contains-set_of (map compose_pair configured) n,
        )
        (simplify (contains (map (λ (job : Job). job.name) jobs) n)
          (contains (map compose_pair configured) n) (is_job_id (decompose_chronos_job_id n))
          (is_temporary n) (expired_like now jobs n))
  where
    simplify :
        (r c j t x : Bool)
        → ((r && not c) && not (((r && j) && t) && not (((r && j) && t) && x)))
          ≡ (r && (not c && not ((j && t) && not x)))
    simplify r c j t x = ground arith

-- The calls for each of the jobs, after those of a history.
abbrev pub calls : (Text → ChronosCall) → List Text → List ChronosCall → List ChronosCall
calls api_call [] h = h
calls api_call (job ∷ jobs) h = calls api_call jobs (api_call job ∷ h)

module _ (oracle : Oracle ChronosCall) where
  execute_call-returns :
      (c : ChronosCall) (h : List ChronosCall)
      → (failed : Bool) × (execute_call oracle c h ≡ (ok failed, c ∷ h))
  unfolding execute_call
  execute_call-returns c h = elim (Result-cases (oracle h c)) [
    | inl (b, answered) ↦ (false, rw answered refl)
    | inr (why, raised) ↦ (true, rw raised refl)
  ]

  cleanup_each-calls :
      (api_call : Text → ChronosCall) (jobs : List Text) (h : List ChronosCall)
      → (failed : Bool) × (cleanup_each oracle api_call jobs h ≡ (ok failed, calls api_call jobs h))
  unfolding cleanup_each
  cleanup_each-calls api_call [] h = (false, refl)
  cleanup_each-calls api_call (job ∷ jobs) h =
      let (failed, called) = execute_call-returns (api_call job) h in
      let (others, all_called) = cleanup_each-calls api_call jobs (api_call job ∷ h) in
      (failed || others, rw (called, all_called) refl)

  -- Whatever calls fail, the clean up returns, and has asked for the deletion of the tasks of each job to
  -- delete, and then of each such job.
  cleanup_chronos_jobs-calls :
      (now : ℕ) (jobs : List Job) (configured : List (Text × Text)) (kill : List Text)
      (h : List ChronosCall)
      → jobs_to_delete now jobs configured ≡ ok kill
      → (exits_with_1 : Bool) × (cleanup_chronos_jobs oracle now jobs configured h
          ≡ (ok exits_with_1, calls delete kill (calls delete_tasks kill h)))
  unfolding cleanup_chronos_jobs
  cleanup_chronos_jobs-calls now jobs configured kill h told =
      let (tasks_failed, tasks) = cleanup_each-calls delete_tasks kill h in
      let (jobs_failed, deleted) = cleanup_each-calls delete kill (calls delete_tasks kill h) in
      (jobs_failed || tasks_failed, rw (told, tasks, deleted) refl)
