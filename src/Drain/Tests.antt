-- ===== src/Drain/Tests.antt =====
-- Drain methods on small inputs.
use paasta.Prelude.{
  ℕ, nat_eq, ◌+◌, ◌<◌, ◌≡◌, refl, Text, text_eq, text_beq, codes, true, false, none, some, List, [],
  ◌∷◌, ok, raise, any_of, type_error, value_error,
}
use paasta.JobId.{split}
use paasta.Drain.{
  DrainTask, Response, Responses, http_request, SpoolInfo, World, first_port, test_drain_method,
  mark_arbitrary_task_as_safe_to_kill,
}
use paasta.Drain.Hacheck.{
  Hacheck, hacheck_drain_method, hacheck_safe_is_down, make_hacheck, spool_info,
}
use paasta.Drain.Http.{UrlSpec, checked_verb, http_drain_method, parse_success_codes}
use paasta.Drain.Http.Codes.{HttpOperation, http_answers, run, series_accepts}
use paasta.Drain.Contract.{
  Operation, answers_in, answers_of, asks_draining, asks_safe, drains, stops,
  test_drain_method_refines, test_phase,
}
use paasta.Drain.Registry.{
  Chosen, config_drain_method, get_drain_method, get_drain_method_params, recreate_drain_method,
}

abbrev task : DrainTask
task = record { id = codes "t1"; host = codes "h"; ports = 8888 ∷ [] }

abbrev world : World
world = record { downed_task_ids = codes "t2" ∷ []; safe_to_kill_task_ids = []; requests = [] }

abbrev operations : List Operation
operations =
    drains task ∷ asks_draining task ∷ asks_safe task ∷ stops task ∷ asks_draining task ∷ []

operations_run :
    answers_in test_drain_method operations world
    ≡ ok true ∷ ok true ∷ ok false ∷ ok true ∷ ok false ∷ []
unfolding test_drain_method text_beq
operations_run = refl

test_drain_method_refines_example :
    answers_in test_drain_method operations world ≡ answers_of operations (test_phase world)
test_drain_method_refines_example = test_drain_method_refines operations world

marked_run : (mark_arbitrary_task_as_safe_to_kill 0 world).1.safe_to_kill_task_ids ≡ codes "t2" ∷ []
unfolding mark_arbitrary_task_as_safe_to_kill text_beq
marked_run = refl

abbrev success : Text
success = codes "200-202,404"

abbrev acceptable : List ℕ
acceptable = 200 ∷ 201 ∷ 202 ∷ 404 ∷ []

success_run : parse_success_codes success ≡ ok acceptable
unfolding parse_success_codes
success_run = refl

malformed_run : parse_success_codes (codes "200-300-400") ≡ raise value_error
unfolding parse_success_codes
malformed_run = refl

abbrev spec : UrlSpec
spec = record {
  url_format = codes "http://{host}";
  method = some (codes "post");
  success_codes = success;
}

abbrev answer : Response
answer = record {
  status_code = 404;
  for_status = ok true;
  spool = some (record { state = "down"; since = some 100 });
}

abbrev answering : Responses
answering h r = ok answer

known_verb : checked_verb spec ≡ ok (codes "POST")
unfolding checked_verb text_beq
known_verb = refl

has_port : first_port task ≡ ok 8888
unfolding first_port
has_port = refl

-- The operations of a method with another url for each but the last.
abbrev spec_at : Text → UrlSpec
spec_at url = record { url_format = url; method = none; success_codes = codes "200" }

abbrev specs : HttpOperation → UrlSpec
specs HttpOperation.drain = spec_at (codes "http://{host}/drain")
specs HttpOperation.stop_draining = spec_at (codes "http://{host}/stop")
specs HttpOperation.is_draining = spec_at (codes "http://{host}/draining")
specs HttpOperation.is_safe_to_kill = spec

http_answers_example :
    let method =
      http_drain_method answering
        (specs HttpOperation.drain)
        (specs HttpOperation.stop_draining)
        (specs HttpOperation.is_draining)
        spec in
    let accepts = any_of (series_accepts 404) (split b',' success) in
    ((run method HttpOperation.is_safe_to_kill task world).0 ≡ ok accepts)
    × ((run method HttpOperation.is_safe_to_kill task world).1.requests
        ≡ http_request (codes "POST") spec.url_format task.host 8888 ∷ world.requests)
http_answers_example =
    http_answers answering specs HttpOperation.is_safe_to_kill task world 8888 (codes "POST") answer
      acceptable has_port known_verb refl success_run

abbrev hacheck : Hacheck
hacheck = record { delay = 60; expiration = 600 }

reported_safe :
    ((hacheck_drain_method answering hacheck 200).is_safe_to_kill task world).0 ≡ ok true
unfolding hacheck_drain_method text_beq
reported_safe = refl

hacheck_safe_is_down_example :
    (info : SpoolInfo) × ((spool_info answering hacheck 200 task world).0 ≡ ok info)
    × (((hacheck_drain_method answering hacheck 200).is_draining task world).0 ≡ ok true)
    × ((since : ℕ) → info.since ≡ some since → since + 60 < 200)
hacheck_safe_is_down_example = hacheck_safe_is_down answering hacheck 200 task world reported_safe

-- A service in smartstack with nothing configured.
abbrev smartstack : Chosen
smartstack = record { is_in_smartstack = true; drain_method = none; drain_method_params = none }

deployment_run :
    get_drain_method answering 200
      (config_drain_method smartstack)
      (get_drain_method_params smartstack)
    ≡ ok (hacheck_drain_method answering (record { delay = 60; expiration = 600 }) 200)
unfolding get_drain_method config_drain_method get_drain_method_params text_beq make_hacheck
deployment_run = refl

native_run :
    recreate_drain_method answering 200
      (config_drain_method smartstack)
      (get_drain_method_params smartstack)
    ≡ raise type_error
unfolding recreate_drain_method config_drain_method get_drain_method_params text_beq make_hacheck
native_run = refl
