-- ===== src/JobId.antt =====
-- Job and app ids: compose_job_id and decompose_job_id of paasta_tools/utils.py, format_job_id and
-- deformat_job_id of paasta_tools/marathon_tools.py, and compose_job_id and decompose_job_id of
-- paasta_tools/chronos_tools.py. An id is a list of code points.
pub mod Chronos
pub mod Splitting
pub mod RoundTrip
pub mod Formatting
pub mod Tests
use paasta.Prelude.{
  ℕ, Text, true, false, ◌&&◌, Option, none, some, List, [], ◌∷◌, ◌++◌, nat_beq, Result, ok, raise,
  invalid_job_name, ◌>>=◌, if◌then◌else◌,
}

-- SPACER of utils.py
abbrev pub spacer : ℕ
spacer = b'.'

abbrev prepend : ℕ → List Text → List Text
prepend a [] = (a ∷ []) ∷ []
prepend a (w ∷ ws) = (a ∷ w) ∷ ws

-- s.split(c)
unfoldable pub split : ℕ → Text → List Text
split c [] = [] ∷ []
split c (a ∷ s) = let rest = split c s in if nat_beq a c then [] ∷ rest else prepend a rest

-- A hash that is None or empty is false in Python.
abbrev pub truthy : Option Text → Option Text
truthy none = none
truthy (some []) = none
truthy (some (c ∷ s)) = some (c ∷ s)

abbrev with_hashes : Text → ℕ → Option Text → Option Text → Result Text
with_hashes composed sep (some g) (some c) = ok (composed ++ sep ∷ (g ++ sep ∷ c))
with_hashes composed sep none none = ok composed
with_hashes composed sep _ _ = raise invalid_job_name

unfoldable pub compose_job_id : Text → Text → Option Text → Option Text → ℕ → Result Text
compose_job_id name instance_name git_hash config_hash sep =
    with_hashes (name ++ sep ∷ instance_name) sep (truthy git_hash) (truthy config_hash)

abbrev pub JobParts : Type 0
JobParts = Text × Text × Option Text × Option Text

abbrev parts_of : List Text → Result JobParts
parts_of (s ∷ i ∷ []) = ok (s, i, none, none)
parts_of (s ∷ i ∷ g ∷ c ∷ []) = ok (s, i, some g, some c)
parts_of _ = raise invalid_job_name

unfoldable pub decompose_job_id : Text → ℕ → Result JobParts
unfolding split
decompose_job_id job_id sep = parts_of (split sep job_id)

-- s.replace('_', '--')
unfoldable pub underscores_to_dashes : Text → Text
underscores_to_dashes [] = []
underscores_to_dashes (c ∷ s) =
    let rest = underscores_to_dashes s in if nat_beq c b'_' then b'-' ∷ b'-' ∷ rest else c ∷ rest

-- s.replace('--', '_'), from the left
unfoldable pub dashes_to_underscores : Text → Text
dashes_to_underscores [] = []
dashes_to_underscores (a ∷ []) = a ∷ []
dashes_to_underscores (a ∷ b ∷ s) = elim (nat_beq a b'-' && nat_beq b b'-') [
  | true ↦ b'_' ∷ dashes_to_underscores s
  | false ↦ a ∷ dashes_to_underscores (b ∷ s)
]

-- A hash is replaced if it is true.
abbrev formatted_hash : Option Text → Option Text
formatted_hash none = none
formatted_hash (some h) = some (underscores_to_dashes h)

unfoldable pub format_job_id : Text → Text → Option Text → Option Text → Result Text
unfolding compose_job_id underscores_to_dashes
format_job_id service instance_name git_hash config_hash =
    compose_job_id (underscores_to_dashes service) (underscores_to_dashes instance_name)
      (formatted_hash git_hash) (formatted_hash config_hash) spacer

unfoldable pub deformat_job_id : Text → Result JobParts
unfolding decompose_job_id dashes_to_underscores
deformat_job_id job_id = decompose_job_id (dashes_to_underscores job_id) spacer

unfoldable pub long_job_id_to_short_job_id : Text → Result Text
unfolding decompose_job_id compose_job_id
long_job_id_to_short_job_id long_job_id = do
  parts ← decompose_job_id long_job_id spacer
  compose_job_id parts.0 parts.1 none none spacer
