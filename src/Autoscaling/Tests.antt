-- ===== src/Autoscaling/Tests.antt =====
-- Autoscaling at concrete inputs.
use paasta.Prelude.{
  ℕ, nat_eq, text_eq, ◌≡◌, ◌≤◌, ◌<◌, ◌*◌, ◌-◌, refl, arith, ℤ, pos, negsuc, codes, true, false,
  none, some, List, [], ◌∷◌, Result, ok,
}
use paasta.Effects.{Oracle}
use paasta.Effects.Confined.{Confined}
use paasta.Autoscaling.{
  Config, Error, under, Request, get_error_from_utilization, autoscaling_amount,
  threshold_decision_policy, humanize_error,
}
use paasta.Autoscaling.Bounds.{threshold_scale_down_is_safe}
use paasta.Autoscaling.Services.{Instance, RunningTask, autoscale_services}
use paasta.Autoscaling.Services.Pass.{Scales, autoscale_services-Confined}

abbrev config : Config
config = record {
  id = codes "web.main";
  min_instances = some 2;
  max_instances = some 12;
  instances = none;
  desired_start = true;
  is_bespoke = false;
  setpoint = 80;
}

-- 10 instances at 70 % with a setpoint of 80 %: 720 of 1000 would still do.
spare_load : get_error_from_utilization 70 80 100 10 ≡ ok (under 20 1000)
unfolding get_error_from_utilization
spare_load = refl

two_percent : humanize_error (under 20 1000) ≡ 2
unfolding humanize_error
two_percent = refl

one_less : threshold_decision_policy 10 (under 20 1000) ≡ negsuc 0
unfolding threshold_decision_policy autoscaling_amount
one_less = refl

threshold_scale_down_is_safe_example : 70 * 10 ≤ 80 * (10 - 1)
threshold_scale_down_is_safe_example =
    threshold_scale_down_is_safe 70 80 100 10 0 (under 20 1000) (omega arith) spare_load one_less

-- 100 instances at 79 % are cut to 90, which are then at 87 % of a setpoint of 80 %.
ten_less : threshold_decision_policy 100 (under 20 10000) ≡ negsuc 9
unfolding threshold_decision_policy autoscaling_amount
ten_less = refl

spare_load_of_100 : get_error_from_utilization 79 80 100 100 ≡ ok (under 20 10000)
unfolding get_error_from_utilization
spare_load_of_100 = refl

too_much_load : 80 * (100 - 10) < 79 * 100
too_much_load = omega arith

abbrev policy : ℕ → Error → Result ℤ
policy n error = ok (threshold_decision_policy n error)

abbrev agree : Oracle Request
agree h r = ok true

abbrev instances : List Instance
instances =
    record {
      service = codes "web";
      instance_name = codes "main";
      config = ok config;
      zk_instances = ok (some (pos 2));
      utilization = ok 95;
      den = 100;
    }
    ∷ []

abbrev tasks : List RunningTask
tasks =
    record { id = codes "web.main.g1.c1.t1"; is_healthy = true; has_health_checks = ok true }
    ∷ record { id = codes "web.main.g1.c1.t2"; is_healthy = false; has_health_checks = ok false }
    ∷ []

autoscale_services-Confined_example :
    Confined (Scales instances) (autoscale_services agree policy tasks instances)
autoscale_services-Confined_example = autoscale_services-Confined agree policy tasks instances
