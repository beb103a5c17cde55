-- ===== src/Autoscaling/Services/Pass.antt =====
-- The calls of autoscale_services of autoscaling_service_lib.py.
use paasta.Prelude.{
  ℕ, nat_eq, text_eq, ◌≡◌, refl, ℤ, ltb, length, Bool, true, none, List, [], ◌∷◌, Bool-cases, inl,
  inr, Exception, lock_held, lock_timeout, no_data, no_deployments_available, Result, ok, raise,
  ok_injective,
}
use mathlib.Core.Path.{subst}
use paasta.Effects.{Oracle, Act}
use paasta.Effects.Confined.{
  Confined, Confined-call, Confined-result, Confined-if, Confined-bind, Confined-seq,
  Confined-try_except, Confined-try_finally, Extends, same, more,
}
use paasta.JobId.{format_job_id}
use paasta.Autoscaling.{
  Config, Error, Request, start_zookeeper, lock, unlock, stop_zookeeper, set_instances,
}
use paasta.Autoscaling.Bounds.{SetsWithin, autoscale_marathon_instance-Confined}
use paasta.Autoscaling.Services.{
  Instance, RunningTask, healthy_task_ids, is_scalable, choose, get_configs_of_services_to_scale,
  lock_failed, create_autoscaling_lock, autoscale_service, autoscale_each, skip_if_held,
  autoscale_services,
}

-- The instance is one of the list, with this config.
pub data Among (i : Instance) (config : Config) : List Instance → Type 0 where
  here : {rest : List Instance} → i.config ≡ ok config → Among i config (i ∷ rest)
  later : {j : Instance} {rest : List Instance} → Among i config rest → Among i config (j ∷ rest)

-- A request that scales an instance of the list whose config has a maximum, wants it started and
-- leaves its scaling to this pass, within the config's limits; or a request for the lock.
abbrev pub Scales : List Instance → Request → Type 0
Scales instances (set_instances id n) =
    (i : Instance) × (config : Config) × (Among i config instances)
    × (is_scalable config ≡ true)
    × (SetsWithin config (set_instances id n))
Scales instances _ = Unit {0}

-- Every chosen pair is a scalable instance of the list.
pub data Chosen (instances : List Instance) : List (Instance × Config) → Type 0 where
  none_left : Chosen instances []
  one_more :
      {i : Instance} {config : Config} {rest : List (Instance × Config)}
      → Among i config instances
      → is_scalable config ≡ true
      → Chosen instances rest
      → Chosen instances ((i, config) ∷ rest)

Chosen-later :
    (j : Instance) {instances : List Instance} {chosen : List (Instance × Config)}
    → Chosen instances chosen
    → Chosen (j ∷ instances) chosen
Chosen-later j none_left = none_left
Chosen-later j (one_more m s c) = one_more (later m) s (Chosen-later j c)

Chosen-choose :
    (i : Instance) (instances : List Instance) (loaded : Result Config)
    (rest : Result (List (Instance × Config))) (chosen : List (Instance × Config))
    → i.config ≡ loaded
    → ((later_ones : List (Instance × Config)) → rest ≡ ok later_ones → Chosen instances later_ones)
    → choose i loaded rest ≡ ok chosen
    → Chosen (i ∷ instances) chosen
Chosen-choose i instances (ok config) (ok rest) chosen at ih e =
    elim (Bool-cases (is_scalable config)) [
      | inl fit ↦
          subst (Chosen (i ∷ instances)) (ok_injective (rw fit at e))
            (one_more (here at) fit (Chosen-later i (ih rest refl)))
      | inr unfit ↦
          subst (Chosen (i ∷ instances)) (ok_injective (rw unfit at e))
            (Chosen-later i (ih rest refl))
    ]
Chosen-choose i instances (ok config) (raise x) chosen at ih e = cc
Chosen-choose i instances (raise no_deployments_available) rest chosen at ih e =
    Chosen-later i (ih chosen e)
Chosen-choose i instances (raise x) rest chosen at ih e = cc

-- The configs that are chosen are those of scalable instances.
pub get_configs_of_services_to_scale-Chosen :
    (instances : List Instance) (chosen : List (Instance × Config))
    → get_configs_of_services_to_scale instances ≡ ok chosen
    → Chosen instances chosen
unfolding get_configs_of_services_to_scale
get_configs_of_services_to_scale-Chosen [] chosen e = subst (Chosen []) (ok_injective e) none_left
get_configs_of_services_to_scale-Chosen (i ∷ instances) chosen e =
    Chosen-choose i instances i.config (get_configs_of_services_to_scale instances) chosen refl
      (λ rest found. get_configs_of_services_to_scale-Chosen instances rest found) e

weaken :
    {A : Type 0} {P Q : Request → Type 0} {m : Act Request A}
    → ((r : Request) → P r → Q r)
    → Confined P m
    → Confined Q m
weaken {A} {P} {Q} {m} f c = record { at = λ h. extend (c.at h) }
  where
    extend : {h h' : List Request} → Extends P h h' → Extends Q h h'
    extend same = same
    extend (more p x) = more (f _ p) (extend x)

module _ (oracle : Oracle Request) (policy : ℕ → Error → Result ℤ) (tasks : List RunningTask)
    (instances : List Instance) where
  autoscale_service-Confined :
      (i : Instance) (config : Config)
      → Among i config instances
      → is_scalable config ≡ true
      → Confined (Scales instances) (autoscale_service oracle policy tasks i config)
  unfolding autoscale_service
  autoscale_service-Confined i config among fit =
      Confined-bind _ _ (Confined-result (format_job_id i.service i.instance_name none none))
        λ job_id h e.
          Confined-bind _ _ (Confined-result (healthy_task_ids job_id tasks)) λ ids h' e'.
            Confined-if (ltb 0 (length ids)) _ _
              (λ some_healthy.
                Confined-seq _ _
                  (weaken scales (
                    autoscale_marathon_instance-Confined oracle policy config i.zk_instances
                      (length ids) i.utilization i.den))
                  (Confined-result (ok true)))
              (λ none_healthy. Confined-result (raise no_data))
    where
      scales : (r : Request) → SetsWithin config r → Scales instances r
      scales (set_instances id n) within = (i, config, among, fit, within)
      scales start_zookeeper w = tt
      scales lock w = tt
      scales unlock w = tt
      scales stop_zookeeper w = tt

  autoscale_each-Confined :
      (configs : List (Instance × Config))
      → Chosen instances configs
      → Confined (Scales instances) (autoscale_each oracle policy tasks configs)
  unfolding autoscale_each
  autoscale_each-Confined [] none_left = Confined-result (ok true)
  autoscale_each-Confined ((i, config) ∷ configs) (one_more among fit rest) =
      Confined-seq _ _
        (Confined-try_except _ _ (autoscale_service-Confined i config among fit)
          (λ x. Confined-result (ok true)))
        (autoscale_each-Confined configs rest)

  create_autoscaling_lock-Confined :
      (body : Act Request Bool)
      → Confined (Scales instances) body
      → Confined (Scales instances) (create_autoscaling_lock oracle body)
  unfolding create_autoscaling_lock
  create_autoscaling_lock-Confined body c =
      Confined-seq _ _ (Confined-call oracle start_zookeeper tt) (
        Confined-try_finally _ _
          (Confined-seq _ _
            (Confined-try_except _ _ (Confined-seq _ _ (Confined-call oracle lock tt) c) failed)
            (Confined-call oracle unlock tt))
          (Confined-call oracle stop_zookeeper tt))
    where
      failed : (x : Exception) → Confined (Scales instances) (lock_failed oracle x)
      failed lock_timeout = Confined-result (raise lock_held)
      failed x = Confined-result (raise x)

  -- Whatever the other systems answer or raise, a pass sets the instances of scalable instances only,
  -- each within the limits of its config.
  pub autoscale_services-Confined :
      Confined (Scales instances) (autoscale_services oracle policy tasks instances)
  unfolding autoscale_services
  autoscale_services-Confined =
      Confined-try_except _ _
        (create_autoscaling_lock-Confined _ (
          Confined-bind _ _ (Confined-result (get_configs_of_services_to_scale instances))
            λ configs h e.
              autoscale_each-Confined configs
                (get_configs_of_services_to_scale-Chosen instances configs e)))
        skipped
    where
      skipped : (x : Exception) → Confined (Scales instances) (skip_if_held oracle policy tasks x)
      skipped lock_held = Confined-result (ok true)
      skipped x = Confined-result (raise x)
