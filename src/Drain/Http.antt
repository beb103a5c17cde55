-- ===== src/Drain/Http.antt =====
-- HTTPDrainMethod of paasta_tools/drain_lib.py: requests to given urls, whose answers are read by
-- their status codes.
pub mod Codes
use paasta.Prelude.{
  ℕ, nat_eq, zero, suc, ◌+◌, ◌-◌, ◌*◌, leb, nat_beq, Text, text_eq, codes, Bool, true, false, ◌&&◌,
  ◌||◌, not, Option, none, some, List, [], ◌∷◌, ◌++◌, Result, ok, raise, key_error, value_error,
  status_code_not_acceptable, contains, union, add, Exception, ◌>>=◌ as bind, if◌then◌else◌, ◌==◌,
}
use paasta.JobId.{split}
use paasta.Effects.Stateful.{Prog, and_then, pure, throw, lift, read, update, ◌>>=◌, ◌>>◌}
use paasta.Drain.{
  DrainMethod, DrainTask, Request, Response, Responses, World, first_port, http_request, request,
}

abbrev digit_value : ℕ → Option ℕ
digit_value c = if leb b'0' c && leb c b'9' then some (c - b'0') else none

abbrev read_digits : ℕ → Text → Result ℕ
read_digits n [] = ok n
read_digits n (c ∷ s) = elim (digit_value c) [
  | none ↦ raise value_error
  | some k ↦ read_digits (10 * n + k) s
]

abbrev is_space : ℕ → Bool
is_space c = nat_beq c 32 || (leb 9 c && leb c 13)

abbrev strip_left : Text → Text
strip_left [] = []
strip_left (c ∷ s) = if is_space c then strip_left s else c ∷ s

abbrev keep_or_drop : ℕ → Text → Text
keep_or_drop c [] = if is_space c then [] else c ∷ []
keep_or_drop c (d ∷ s) = c ∷ d ∷ s

abbrev strip_right : Text → Text
strip_right [] = []
strip_right (c ∷ s) = keep_or_drop c (strip_right s)

abbrev some_digits : Text → Result ℕ
some_digits [] = raise value_error
some_digits (c ∷ s) = read_digits 0 (c ∷ s)

abbrev without_plus : Text → Text
without_plus [] = []
without_plus (c ∷ s) = if nat_beq c b'+' then s else c ∷ s

-- int(s), for a text of ASCII without a minus.
unfoldable pub int_of : Text → Result ℕ
int_of s = some_digits (without_plus (strip_right (strip_left s)))

-- range(start, start + n)
abbrev pub numbers_from : ℕ → ℕ → List ℕ
numbers_from start zero = []
numbers_from start (suc n) = start ∷ numbers_from (start + 1) n

abbrev pub range_of : List Text → Result (List ℕ)
range_of (start ∷ end ∷ []) =
    bind (int_of start) λ a. bind (int_of end) λ b. ok (numbers_from a (b + 1 - a))
range_of _ = raise value_error

abbrev pub single_code : Text → Result (List ℕ)
single_code s = bind (int_of s) λ n. ok (n ∷ [])

-- The codes of one series: `200-399` or `500`.
unfoldable pub codes_of_series : Text → Result (List ℕ)
unfolding int_of split
codes_of_series series_str =
    if contains series_str b'-' then range_of (split b'-' series_str) else single_code series_str

unfoldable pub codes_of_all : List Text → Result (List ℕ)
unfolding codes_of_series union
codes_of_all [] = ok []
codes_of_all (s ∷ ss) =
    let rest = codes_of_all ss in
    bind (codes_of_series s) λ cs. bind rest λ more. ok (union cs more)

unfoldable pub parse_success_codes : Text → Result (List ℕ)
unfolding codes_of_all split
parse_success_codes success_codes_str = codes_of_all (split b',' success_codes_str)

unfoldable pub check_response_code : ℕ → Text → Result Bool
unfolding parse_success_codes
check_response_code status_code success_codes_str =
    bind (parse_success_codes success_codes_str) λ acceptable.
      if contains acceptable status_code then ok true else raise status_code_not_acceptable

pub record UrlSpec : Type 0 where
  pub url_format : Text
  pub method : Option Text
  pub success_codes : Text

-- s.upper(), for ASCII
abbrev upper : Text → Text
upper [] = []
upper (c ∷ s) = (if leb b'a' c && leb c b'z' then c - 32 else c) ∷ upper s

abbrev verb_of : Option Text → Text
verb_of none = codes "GET"
verb_of (some m) = upper m

abbrev verbs : List Text
verbs =
    codes "GET"
    ∷ codes "POST"
    ∷ codes "PUT"
    ∷ codes "PATCH"
    ∷ codes "DELETE"
    ∷ codes "OPTIONS"
    ∷ codes "HEAD"
    ∷ []

-- The lookup in the dict of functions of requests.
unfoldable pub checked_verb : UrlSpec → Result Text
checked_verb spec =
    let verb = verb_of spec.method in if contains verbs verb then ok verb else raise key_error

abbrev pub caught : Result Bool → Result Bool
caught (ok b) = ok true
caught (raise status_code_not_acceptable) = ok false
caught (raise e) = raise e

-- `try: body` / `except StatusCodeNotAcceptableError: return False` / `else: return True`
abbrev pub accepted : Prog World Bool → Prog World Bool
accepted body w = let (result, after) = body w in (caught result, after)

module _ (responses : Responses) where
  unfoldable pub issue_request : UrlSpec → DrainTask → Prog World Bool
  unfolding first_port checked_verb request check_response_code
  issue_request spec task = lift (first_port task) >>= λ port. lift (checked_verb spec) >>= λ verb.
      request responses (http_request verb spec.url_format task.host port) >>= λ response.
      lift (check_response_code response.status_code spec.success_codes)

  unfoldable pub http_drain_method :
      (drain stop_draining is_draining is_safe_to_kill : UrlSpec) → DrainMethod
  unfolding issue_request
  http_drain_method drain stop_draining is_draining is_safe_to_kill = record {
    drain = issue_request drain;
    stop_draining = issue_request stop_draining;
    is_draining = λ task. accepted (issue_request is_draining task);
    is_safe_to_kill = λ task. accepted (issue_request is_safe_to_kill task);
  }
