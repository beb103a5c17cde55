-- ===== src/Replication/Names.antt =====
-- Which tasks the replication check counts for an instance that is not in smartstack.
use paasta.Prelude.{
  ℕ, ◌≤◌, ◌≡◌, ◌≢◌, refl, sym, ap, ◌∙◌, inl, inr, nat_beq, length, Text, text_eq, starts_with,
  starts_with→append, starts_with-append, Bool, true, false, some, List, [], ◌∷◌, ◌++◌, select,
  Bool-cases, ok, ok_injective, >>=-eq-ok, arith,
}
use mathlib.Core.List.{append_assoc}
use paasta.JobId.{compose_job_id, format_job_id, spacer, underscores_to_dashes}
use paasta.Replication.{
  Environment, MarathonTask, Monitored, check_healthy_marathon_tasks_for_service_instance,
  get_replication_crit_percentage, is_under_replicated,
  get_healthy_marathon_instances_for_short_app_id, is_healthy_and_old,
  send_event_if_under_replication,
}
use paasta.Replication.Alerts.{event_sent}

underscores_to_dashes-append :
    (s t : Text)
    → underscores_to_dashes (s ++ t) ≡ underscores_to_dashes s ++ underscores_to_dashes t
unfolding underscores_to_dashes
underscores_to_dashes-append [] t = refl
underscores_to_dashes-append (c ∷ s) t = elim (Bool-cases (nat_beq c b'_')) [
  | inl hit ↦ rw hit (ap (λ r. b'-' ∷ b'-' ∷ r) (underscores_to_dashes-append s t))
  | inr miss ↦ rw miss (ap (λ r. c ∷ r) (underscores_to_dashes-append s t))
]

-- What starts with a text starts with each beginning of it.
starts_with_shorter : (a s t : Text) → starts_with a (s ++ t) ≡ true → starts_with a s ≡ true
unfolding starts_with
starts_with_shorter a s t h =
    let (rest, e) = starts_with→append a (s ++ t) h in
    ap (λ b. starts_with b s) (e ∙ append_assoc s t rest) ∙ starts_with-append s (t ++ rest)

select_more :
    {A : Type 0} (p q r : A → Bool) (xs : List A)
    → ((x : A) → p x ≡ true → q x ≡ true)
    → length (select r (select p xs)) ≤ length (select r (select q xs))
select_more p q r [] h = omega arith
select_more p q r (x ∷ xs) h =
    let rest = select_more p q r xs h in
    elim (Bool-cases (p x)) [
      | inl both ↦ elim (Bool-cases (r x)) [
        | inl kept ↦ rw (both, h x both, kept) (omega (arith, rest))
        | inr gone ↦ rw (both, h x both, gone) rest
      ]
      | inr out ↦ elim (Bool-cases (q x)) [
        | inr neither ↦ rw (out, neither) rest
        | inl more ↦ elim (Bool-cases (r x)) [
          | inl kept ↦ rw (out, more, kept) (omega (arith, rest))
          | inr gone ↦ rw (out, more, gone) rest
        ]
      ]
    ]

-- The tasks counted for an app id are counted for each beginning of it.
counted_for_shorter :
    (env : Environment) (tasks : List MarathonTask) (s t : Text)
    → get_healthy_marathon_instances_for_short_app_id env tasks (s ++ t)
      ≤ get_healthy_marathon_instances_for_short_app_id env tasks s
unfolding get_healthy_marathon_instances_for_short_app_id
counted_for_shorter env tasks s t =
    select_more (λ (k : MarathonTask). starts_with k.app_id (b'/' ∷ (s ++ t)))
      (λ (k : MarathonTask). starts_with k.app_id (b'/' ∷ s)) (is_healthy_and_old env) tasks
      (λ k h. starts_with_shorter k.app_id (b'/' ∷ s) t h)

more_is_fine :
    (few many expected threshold : ℕ)
    → few ≤ many
    → is_under_replicated few expected threshold ≡ false
    → is_under_replicated many expected threshold ≡ false
unfolding is_under_replicated
more_is_fine few many expected threshold le h = ground arith

hidden :
    (env : Environment) (s t : Text) {longer : Text} {tasks tasks2 : List MarathonTask}
    (expected threshold : ℕ)
    → longer ≡ s ++ t
    → tasks2 ≡ tasks
    → is_under_replicated
        (get_healthy_marathon_instances_for_short_app_id env tasks s)
        expected
        threshold
      ≡ true
    → is_under_replicated
        (get_healthy_marathon_instances_for_short_app_id env tasks2 longer)
        expected
        threshold
      ≢ false
hidden env s t {longer} {tasks} {tasks2} expected threshold name same critical well =
    let more = counted_for_shorter env tasks s t in
    let count = get_healthy_marathon_instances_for_short_app_id env in
    let fine : is_under_replicated (count tasks (s ++ t)) expected threshold ≡ false =
      ap (λ n. is_under_replicated n expected threshold)
        (sym (ap (count tasks2) name ∙ ap (λ l. count l (s ++ t)) same))
      ∙ well in
    cc (critical, more_is_fine (count tasks (s ++ t)) (count tasks s) expected threshold more fine)

-- The instance of another name.
abbrev pub renamed : Monitored → Text → Monitored
renamed m name = record {
  service = m.service;
  instance_name = name;
  configs = m.configs;
  registration = m.registration;
  proxy_port = m.proxy_port;
  replication_threshold = m.replication_threshold;
  monitoring_blacklist = m.monitoring_blacklist;
  discover = m.discover;
}

-- Take two instances of a service of which one's name continues the other's, with the same threshold and
-- the same number of expected tasks. Where the check by Marathon's tasks finds the one with the longer
-- name to be replicated well enough, it sends no critical event for the other, whatever tasks that has.
pub check_healthy_marathon_tasks_misses :
    (env : Environment) (m : Monitored) (more : Text) (expected : ℕ)
    → check_healthy_marathon_tasks_for_service_instance env
        (renamed m (m.instance_name ++ more))
        expected
      ≡ ok (some false)
    → check_healthy_marathon_tasks_for_service_instance env m expected ≢ ok (some true)
unfolding check_healthy_marathon_tasks_for_service_instance format_job_id compose_job_id
    send_event_if_under_replication
check_healthy_marathon_tasks_misses env m more expected fine alerted =
    let (tasks, listed, sent) = >>=-eq-ok env.tasks _ alerted in
    let (tasks2, listed2, sent2) = >>=-eq-ok env.tasks _ fine in
    let critical = event_sent env _ _ sent in
    let well = event_sent env _ _ sent2 in
    let name = underscores_to_dashes m.instance_name in
    let longer =
      ap (λ r. underscores_to_dashes m.service ++ spacer ∷ r)
        (underscores_to_dashes-append m.instance_name more)
      ∙ sym (
          append_assoc (underscores_to_dashes m.service) (spacer ∷ name)
            (underscores_to_dashes more)) in
    hidden env (underscores_to_dashes m.service ++ spacer ∷ name) (underscores_to_dashes more)
      expected (get_replication_crit_percentage m) longer (ok_injective (sym listed2 ∙ listed))
      critical well
