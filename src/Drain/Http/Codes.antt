-- ===== src/Drain/Http/Codes.antt =====
-- The requests of HTTPDrainMethod, and which status codes a text of success codes accepts.
use paasta.Prelude.{
  ℕ, nat_eq, zero, suc, ◌+◌, ◌-◌, leb, ltb, nat_beq, ◌≡◌, refl, sym, ap, ◌∙◌, inl, inr, Text,
  text_eq, Bool, true, false, ◌&&◌, List, [], ◌∷◌, Result, ok, raise, ok_injective,
  status_code_not_acceptable, contains, contains-union, any_of, >>=-eq-ok, Bool-cases,
  if◌then◌else◌, arith,
}
use paasta.JobId.{split}
use paasta.Effects.Stateful.{Prog}
use paasta.Drain.{
  DrainMethod, DrainTask, Response, Responses, World, first_port, http_request, request,
}
use paasta.Drain.Http.{
  UrlSpec, caught, checked_verb, http_drain_method, issue_request, check_response_code,
  codes_of_all, codes_of_series, int_of, numbers_from, parse_success_codes, range_of, single_code,
}

-- Whether the code lies between the numbers that two texts stand for.
abbrev between : ℕ → Result ℕ → Result ℕ → Bool
between c (ok a) (ok b) = leb a c && leb c b
between c _ _ = false

abbrev is_number : ℕ → Result ℕ → Bool
is_number c (ok a) = nat_beq c a
is_number c (raise e) = false

abbrev in_bounds : ℕ → List Text → Bool
in_bounds c (start ∷ end ∷ []) = between c (int_of start) (int_of end)
in_bounds c _ = false

-- What a series of codes is to mean: `200-399` the codes from 200 to 399, `500` that code.
abbrev pub series_accepts : ℕ → Text → Bool
series_accepts c series_str =
    if contains series_str b'-'
    then in_bounds c (split b'-' series_str)
    else is_number c (int_of series_str)

contains-numbers_from :
    (start n c : ℕ) → contains (numbers_from start n) c ≡ (leb start c && ltb c (start + n))
contains-numbers_from start zero c = ground arith
contains-numbers_from start (suc n) c = ground (arith, contains-numbers_from (start + 1) n c)

bounds_same : (a b c : ℕ) → (leb a c && ltb c (a + (b + 1 - a))) ≡ (leb a c && leb c b)
bounds_same a b c = ground arith

single_code-accepts :
    (c : ℕ) (s : Text) (cs : List ℕ)
    → single_code s ≡ ok cs
    → contains cs c ≡ is_number c (int_of s)
single_code-accepts c s cs e =
    let (n, number, listed) = >>=-eq-ok (int_of s) _ e in
    rw number (ap (λ l. contains l c) (sym (ok_injective listed)) ∙ only c n)
  where
    only : (c n : ℕ) → contains (n ∷ []) c ≡ nat_beq c n
    only c n = ground arith

range_of-accepts :
    (c : ℕ) (parts : List Text) (cs : List ℕ)
    → range_of parts ≡ ok cs
    → contains cs c ≡ in_bounds c parts
range_of-accepts c [] cs e = cc
range_of-accepts c (a ∷ []) cs e = cc
range_of-accepts c (a ∷ (b ∷ (d ∷ parts))) cs e = cc
range_of-accepts c (start ∷ (end ∷ [])) cs e =
    let (a, first, rest) = >>=-eq-ok (int_of start) _ e in
    let (b, last, listed) = >>=-eq-ok (int_of end) _ rest in
    rw (first, last)
      (ap (λ l. contains l c) (sym (ok_injective listed))
        ∙ contains-numbers_from a (b + 1 - a) c
        ∙ bounds_same a b c)

codes_of_series-accepts :
    (c : ℕ) (s : Text) (cs : List ℕ)
    → codes_of_series s ≡ ok cs
    → contains cs c ≡ series_accepts c s
unfolding codes_of_series
codes_of_series-accepts c s cs e = elim (Bool-cases (contains s b'-')) [
  | inl dash ↦ rw dash (range_of-accepts c (split b'-' s) cs (rw dash at e))
  | inr single ↦ rw single (single_code-accepts c s cs (rw single at e))
]

codes_of_all-accepts :
    (c : ℕ) (ss : List Text) (cs : List ℕ)
    → codes_of_all ss ≡ ok cs
    → contains cs c ≡ any_of (series_accepts c) ss
unfolding codes_of_all
codes_of_all-accepts c [] cs e = ap (λ l. contains l c) (sym (ok_injective e))
codes_of_all-accepts c (s ∷ ss) cs e =
    let (here, of_series, rest) = >>=-eq-ok (codes_of_series s) _ e in
    let (more, of_all, joined) = >>=-eq-ok (codes_of_all ss) _ rest in
    ap (λ l. contains l c) (sym (ok_injective joined))
    ∙ contains-union here more c
    ∙ rw (codes_of_series-accepts c s here of_series, codes_of_all-accepts c ss more of_all) refl

-- Where the text of success codes can be read, the codes that it accepts are those that one of its
-- series means: the code itself, or one from the first of its range to the last.
parse_success_codes-accepts :
    (text : Text) (acceptable : List ℕ) (c : ℕ)
    → parse_success_codes text ≡ ok acceptable
    → contains acceptable c ≡ any_of (series_accepts c) (split b',' text)
unfolding parse_success_codes
parse_success_codes-accepts text acceptable c e =
    codes_of_all-accepts c (split b',' text) acceptable e

caught_lem : (b : Bool) → caught (if b then ok true else raise status_code_not_acceptable) ≡ ok b
caught_lem true = refl
caught_lem false = refl

-- The four operations of a drain method.
pub data HttpOperation : Type 0 where
  drain stop_draining is_draining is_safe_to_kill : HttpOperation

abbrev pub run : DrainMethod → HttpOperation → DrainTask → Prog World Bool
run method drain = method.drain
run method stop_draining = method.stop_draining
run method is_draining = method.is_draining
run method is_safe_to_kill = method.is_safe_to_kill

-- What an operation answers where the code of the response is accepted, or not.
abbrev pub outcome : HttpOperation → (accepts : Bool) → Result Bool
outcome drain accepts = if accepts then ok true else raise status_code_not_acceptable
outcome stop_draining accepts = if accepts then ok true else raise status_code_not_acceptable
outcome is_draining accepts = ok accepts
outcome is_safe_to_kill accepts = ok accepts

issue_request_lem :
    (responses : Responses) (spec : UrlSpec) (task : DrainTask) (w : World) (port : ℕ) (verb : Text)
    (response : Response) (acceptable : List ℕ)
    → first_port task ≡ ok port
    → checked_verb spec ≡ ok verb
    → responses w.requests (http_request verb spec.url_format task.host port) ≡ ok response
    → parse_success_codes spec.success_codes ≡ ok acceptable
    → issue_request responses spec task w ≡ (
      if any_of (series_accepts response.status_code) (split b',' spec.success_codes)
          then ok true
          else raise status_code_not_acceptable,
      record {
        downed_task_ids = w.downed_task_ids;
        safe_to_kill_task_ids = w.safe_to_kill_task_ids;
        requests = http_request verb spec.url_format task.host port ∷ w.requests;
      },
    )
unfolding issue_request request check_response_code
issue_request_lem responses spec task w port verb response acceptable first known answered
      readable =
    rw
      (
        first,
        known,
        answered,
        readable,
        ← (parse_success_codes-accepts spec.success_codes acceptable response.status_code readable),
      )
      refl

-- Each operation of the HTTP method has a spec of its own. Where the task has a port, the spec's verb is
-- known, its success codes can be read and its request is answered, the operation makes that request,
-- with the verb and the url of its spec, and no other. Then is_draining and is_safe_to_kill answer
-- whether one of the spec's series means the code of the answer, and drain and stop_draining return where
-- one does, and raise a StatusCodeNotAcceptableError where none does.
pub http_answers :
    (responses : Responses) (specs : HttpOperation → UrlSpec) (operation : HttpOperation)
    (task : DrainTask) (w : World) (port : ℕ) (verb : Text) (response : Response)
    (acceptable : List ℕ)
    → let spec = specs operation in
      first_port task ≡ ok port
      → checked_verb spec ≡ ok verb
      → responses w.requests (http_request verb spec.url_format task.host port) ≡ ok response
      → parse_success_codes spec.success_codes ≡ ok acceptable
      → let method =
          http_drain_method responses
            (specs drain)
            (specs stop_draining)
            (specs is_draining)
            (specs is_safe_to_kill) in
        let accepts =
          any_of (series_accepts response.status_code) (split b',' spec.success_codes) in
        ((run method operation task w).0 ≡ outcome operation accepts)
        × ((run method operation task w).1.requests
            ≡ http_request verb spec.url_format task.host port ∷ w.requests)
unfolding http_drain_method
http_answers responses specs drain task w port verb response acceptable first known answered
      readable =
    rw
      (issue_request_lem responses (specs drain) task w port verb response acceptable first known
        answered readable)
      (refl, refl)
http_answers responses specs stop_draining task w port verb response acceptable first known answered
      readable =
    rw
      (issue_request_lem responses (specs stop_draining) task w port verb response acceptable first
        known answered readable)
      (refl, refl)
http_answers responses specs is_draining task w port verb response acceptable first known answered
      readable =
    rw
      (issue_request_lem responses (specs is_draining) task w port verb response acceptable first
        known answered readable)
      (caught_lem _, refl)
http_answers responses specs is_safe_to_kill task w port verb response acceptable first known
      answered readable =
    rw
      (issue_request_lem responses (specs is_safe_to_kill) task w port verb response acceptable
        first known answered readable)
      (caught_lem _, refl)
