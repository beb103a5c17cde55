-- ===== src/Drain/Registry.antt =====
-- get_drain_method and list_drain_methods of paasta_tools/drain_lib.py, the choice of a method by
-- paasta_tools/long_running_service_tools.py, and the call of recreate_drain_method of
-- paasta_tools/native_mesos_scheduler.py.
use paasta.Prelude.{
  ℕ, Text, text_eq, codes, Bool, ◌==◌, Option, none, some, List, [], ◌∷◌, Result, ok, raise,
  key_error, type_error, contains, get_or, lookup, all_of, if◌then◌else◌, ◌>>=◌,
}
use paasta.Drain.{
  DrainMethod, Responses, crashy_drain_drain_method, crashy_safe_to_kill_drain_method,
  noop_drain_method, test_drain_method,
}
use paasta.Drain.Hacheck.{hacheck_drain_method, make_hacheck}
use paasta.Drain.Http.{UrlSpec, http_drain_method}

-- A value of drain_method_params.
pub data Param : Type 0 where
  seconds : ℕ → Param
  url_spec : UrlSpec → Param

abbrev pub Params : Type 0
Params = List (Text × Param)

-- float(value), which a dict is no argument for
abbrev as_seconds : Param → Result ℕ
as_seconds (seconds n) = ok n
as_seconds (url_spec u) = raise type_error

abbrev required_spec : Option Param → Result UrlSpec
required_spec (some (url_spec u)) = ok u
required_spec _ = raise type_error

abbrev names_of : Params → List Text
names_of [] = []
names_of ((name, value) ∷ params) = name ∷ names_of params

abbrev http_arguments : List Text
http_arguments =
    codes "drain" ∷ codes "stop_draining" ∷ codes "is_draining" ∷ codes "is_safe_to_kill" ∷ []

module _ (responses : Responses) (now : ℕ) where
  -- HacheckDrainMethod(...), which takes any keyword
  abbrev new_hacheck : Params → Result DrainMethod
  new_hacheck params = as_seconds (get_or (codes "delay") (seconds 120) params) >>= λ delay.
      as_seconds (get_or (codes "expiration") (seconds 0) params) >>= λ expiration.
      ok (hacheck_drain_method responses (make_hacheck delay expiration) now)

  -- HTTPDrainMethod(...), which takes its four keywords and no other
  abbrev new_http : Params → Result DrainMethod
  new_http params =
      if all_of (contains http_arguments) (names_of params)
      then required_spec (lookup (codes "drain") params) >>= (λ drain.
        required_spec (lookup (codes "stop_draining") params) >>= λ stop_draining.
        required_spec (lookup (codes "is_draining") params) >>= λ is_draining.
        required_spec (lookup (codes "is_safe_to_kill") params) >>= λ is_safe_to_kill.
        ok (http_drain_method responses drain stop_draining is_draining is_safe_to_kill))
      else raise type_error

  unfoldable pub get_drain_method : Text → Params → Result DrainMethod
  unfolding get_or lookup
  get_drain_method name params =
      if name == codes "noop"
      then ok noop_drain_method
      else if name == codes "test"
      then ok test_drain_method
      else if name == codes "crashy_drain"
      then ok crashy_drain_drain_method
      else if name == codes "crashy_is_safe_to_kill"
      then ok crashy_safe_to_kill_drain_method
      else if name == codes "hacheck"
      then new_hacheck params
      else if name == codes "http"
      then new_http params
      else raise key_error

  -- recreate_drain_method hands the params to get_drain_method as keywords of its own, which it does
  -- not take. (A param named drain_method_params, which it would take, is left out.)
  unfoldable pub recreate_drain_method : Text → Params → Result DrainMethod
  unfolding get_drain_method
  recreate_drain_method name [] = get_drain_method name []
  recreate_drain_method name (p ∷ params) = raise type_error

-- sorted(_drain_methods.keys())
abbrev pub list_drain_methods : List Text
list_drain_methods =
    codes "crashy_drain"
    ∷ codes "crashy_is_safe_to_kill"
    ∷ codes "hacheck"
    ∷ codes "http"
    ∷ codes "noop"
    ∷ codes "test"
    ∷ []

-- The part of a config that the choice reads.
pub record Chosen : Type 0 where
  pub is_in_smartstack : Bool
  pub drain_method : Option Text
  pub drain_method_params : Option Params

unfoldable pub config_drain_method : Chosen → Text
config_drain_method c = elim c.drain_method [
  | some name ↦ name
  | none ↦ if c.is_in_smartstack then codes "hacheck" else codes "noop"
]

unfoldable pub get_drain_method_params : Chosen → Params
get_drain_method_params c = elim c.drain_method_params [
  | some params ↦ params
  | none ↦ if c.is_in_smartstack then (codes "delay", seconds 60) ∷ [] else []
]
