-- ===== src/Drain.antt =====
-- paasta_tools/drain_lib.py: the drain methods, which stop the traffic to a task without killing it.
-- A method is a record of its four operations on the state of its world: the sets of the Test method
-- and the requests that were made, with an oracle for the responses.
pub mod Http
pub mod Hacheck
pub mod Contract
pub mod Registry
pub mod Tests
use paasta.Prelude.{
  ℕ, zero, suc, String, Text, text_eq, str_eq, Bool, true, false, not, Option, none, some, List, [],
  ◌∷◌, Result, ok, raise, key_error, index_error, other, add, contains, diff, union, if◌then◌else◌,
}
use paasta.Effects.Stateful.{Prog, pure, throw, lift, read, update, ◌>>=◌, ◌>>◌}

-- What the methods read of a task.
pub record DrainTask : Type 0 where
  pub id : Text
  pub host : Text
  pub ports : List ℕ

-- task.ports[0]
unfoldable pub first_port : DrainTask → Result ℕ
first_port task = elim task.ports [ [] ↦ raise index_error | ◌∷◌ p ps ↦ ok p ]

-- The requests of the Hacheck and the HTTP method, their urls not put together yet.
pub data Request : Type 0 where
  post_spool : (host : Text) (port : ℕ) (status : String) (expiration : ℕ) → Request
  get_spool : (host : Text) (port : ℕ) → Request
  http_request : (verb : Text) (url_format : Text) (host : Text) (port : ℕ) → Request

-- What the regular expression of get_spool finds in a text, of the groups that are used.
pub record SpoolInfo : Type 0 where
  pub state : String
  pub since : Option ℕ

-- A response of the requests library: `for_status` is what its raise_for_status does, `spool` is none
-- where the text does not match.
pub record Response : Type 0 where
  pub status_code : ℕ
  pub for_status : Result Bool
  pub spool : Option SpoolInfo

pub record World : Type 0 where
  pub downed_task_ids : List Text
  pub safe_to_kill_task_ids : List Text
  pub requests : List Request

abbrev pub Responses : Type 0
Responses = List Request → Request → Result Response

unfoldable pub request : Responses → Request → Prog World Response
request responses r w = (responses w.requests r, record w { requests = r ∷ w.requests })

pub record DrainMethod : Type 0 where
  pub drain : DrainTask → Prog World Bool
  pub stop_draining : DrainTask → Prog World Bool
  pub is_draining : DrainTask → Prog World Bool
  pub is_safe_to_kill : DrainTask → Prog World Bool

unfoldable pub noop_drain_method : DrainMethod
noop_drain_method = record {
  drain = λ task. pure true;
  stop_draining = λ task. pure true;
  is_draining = λ task. pure false;
  is_safe_to_kill = λ task. pure true;
}

abbrev set_downed : List Text → World → World
set_downed ids w = record w { downed_task_ids = ids }

abbrev down_unless_safe : Text → World → World
down_unless_safe id w =
    if contains w.safe_to_kill_task_ids id then w else set_downed (add id w.downed_task_ids) w

abbrev forget : Text → World → World
forget id w = record w {
  downed_task_ids = diff w.downed_task_ids (id ∷ []);
  safe_to_kill_task_ids = diff w.safe_to_kill_task_ids (id ∷ []);
}

unfoldable pub test_drain_method : DrainMethod
unfolding add diff union
test_drain_method = record {
  drain = λ task. update (down_unless_safe task.id);
  stop_draining = λ task. update (forget task.id);
  is_draining =
      λ task. read (λ w. contains (union w.downed_task_ids w.safe_to_kill_task_ids) task.id);
  is_safe_to_kill = λ task. read (λ w. contains w.safe_to_kill_task_ids task.id);
}

-- The set's pop takes any member: `position` is the place of it in the list.
abbrev pub taken : ℕ → List Text → Option Text
taken position [] = none
taken zero (id ∷ ids) = some id
taken (suc n) (id ∷ []) = some id
taken (suc n) (id ∷ (i ∷ ids)) = taken n (i ∷ ids)

abbrev mark : Text → World → World
mark id w = record w {
  downed_task_ids = diff w.downed_task_ids (id ∷ []);
  safe_to_kill_task_ids = add id w.safe_to_kill_task_ids;
}

abbrev mark_taken : Option Text → Prog World Bool
mark_taken none = throw key_error
mark_taken (some id) = update (mark id)

unfoldable pub mark_arbitrary_task_as_safe_to_kill : ℕ → Prog World Bool
unfolding add diff
mark_arbitrary_task_as_safe_to_kill position =
    read (λ w. taken position w.downed_task_ids) >>= mark_taken

unfoldable pub crashy_drain_drain_method : DrainMethod
unfolding noop_drain_method
crashy_drain_drain_method = record noop_drain_method { drain = λ task. throw other }

unfoldable pub crashy_safe_to_kill_drain_method : DrainMethod
unfolding noop_drain_method
crashy_safe_to_kill_drain_method = record noop_drain_method {
  is_safe_to_kill = λ task. throw other;
}
