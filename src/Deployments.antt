-- ===== src/Deployments.antt =====
-- paasta_tools/generate_deployments_for_service.py: which commit a deploy group runs and in which
-- state its branches are to be, read from the tags of the service's git repository. The tag patterns
-- are matched by hand: a dot of a deploy group or a branch matches any character, since the code puts
-- the names into regular expressions as they are; other names with a special character are left out.
pub mod Tags
pub mod States
pub mod Mappings
use paasta.Prelude.{
  text_leb, ℕ, nat_eq, zero, suc, leb, ltb, nat_beq, Text, text_eq, codes, Bool, true, false, ◌&&◌,
  not, ◌==◌, Option, none, some, List, [], ◌∷◌, ◌++◌, lookup, insert, if◌then◌else◌,
}

-- A dict from git refs to shas.
abbrev pub Refs : Type 0
Refs = List (Text × Text)

-- What is left of the text after the literal, in which a dot stands for any character but a newline.
abbrev after_literal : Text → Text → Option Text
after_literal [] s = some s
after_literal (p ∷ ps) [] = none
after_literal (p ∷ ps) (c ∷ s) =
    let rest = after_literal ps s in
    if nat_beq p c then rest else if nat_beq p b'.' && not (nat_beq c 10) then rest else none

abbrev is_digit : ℕ → Bool
is_digit c = leb b'0' c && leb c b'9'

abbrev Found : Type 0
Found = Option (Text × Text)

abbrev with_more : ℕ → Found → Found
with_more c (some (taken, rest)) = some (c ∷ taken, rest)
with_more c none = none

-- \d{n}: the digits, and what is left
abbrev digits : ℕ → Text → Found
digits zero s = some ([], s)
digits (suc n) [] = none
digits (suc n) (c ∷ s) = let more = digits n s in if is_digit c then with_more c more else none

abbrev join : Text → Found → Option Text → Option Text
join date (some (time, rest)) (some []) = some (date ++ b'T' ∷ time)
join date _ _ = none

abbrev rest_of : Found → Option Text
rest_of (some (taken, rest)) = some rest
rest_of none = none

abbrev then_literal : Text → Option Text → Option Text
then_literal literal (some s) = after_literal literal s
then_literal literal none = none

abbrev time_part : Text → Option Text → Option Text
time_part date (some s) =
    let time = digits 6 s in join date time (then_literal (codes "-deploy") (rest_of time))
time_part date none = none

abbrev date_part : Found → Option Text
date_part (some (date, rest)) = time_part date (after_literal (b'T' ∷ []) rest)
date_part none = none

abbrev after_group : Option Text → Option Text
after_group (some s) = date_part (digits 8 s)
after_group none = none

-- The time of a tag `refs/tags/paasta-<deploy_group>-<time>-deploy`.
unfoldable pub deploy_time : Text → Text → Option Text
deploy_time deploy_group ref_name =
    after_group (after_literal (codes "refs/tags/paasta-" ++ deploy_group ++ b'-' ∷ []) ref_name)

-- most_recent_dtime, most_recent_ref and most_recent_sha, which are None together.
abbrev pub Latest : Type 0
Latest = Option (Text × Text × Text)

-- dtime > most_recent_dtime, where every text is above None
abbrev pub is_later : Text → Latest → Bool
is_later dtime none = true
is_later dtime (some (t, ref, sha)) = not (text_leb dtime t)

abbrev pub take_later : Option Text → Text → Text → Latest → Latest
take_later none ref sha latest = latest
take_later (some dtime) ref sha latest =
    if is_later dtime latest then some (dtime, ref, sha) else latest

abbrev pub latest_loop : Text → Refs → Latest → Latest
latest_loop deploy_group [] latest = latest
latest_loop deploy_group ((ref, sha) ∷ refs) latest =
    latest_loop deploy_group refs (take_later (deploy_time deploy_group ref) ref sha latest)

abbrev pub without_time : Latest → Option (Text × Text)
without_time none = none
without_time (some (t, ref, sha)) = some (ref, sha)

-- The tag and its sha; none where the code returns None twice.
unfoldable pub get_latest_deployment_tag : Refs → Text → Option (Text × Text)
unfolding deploy_time
get_latest_deployment_tag refs deploy_group = without_time (latest_loop deploy_group refs none)

pub data DesiredState : Type 0 where
  start stop : DesiredState

-- [^-]+-: what stands before the next dash, if anything, and what follows it
abbrev up_to_dash : Text → Found
up_to_dash [] = none
up_to_dash (c ∷ s) =
    let more = up_to_dash s in if nat_beq c b'-' then some ([], s) else with_more c more

abbrev as_state : Text → Text → Option (DesiredState × Text)
as_state [] s = none
as_state (c ∷ token) s =
    if s == codes "start"
    then some (start, c ∷ token)
    else if s == codes "stop"
    then some (stop, c ∷ token)
    else none

abbrev state_part : Found → Option (DesiredState × Text)
state_part (some (force_bounce, s)) = as_state force_bounce s
state_part none = none

abbrev after_branch : Option Text → Option (DesiredState × Text)
after_branch (some s) = state_part (up_to_dash s)
after_branch none = none

abbrev or_else :
    Option (DesiredState × Text) → Option (DesiredState × Text) → Option (DesiredState × Text)
or_else (some x) y = some x
or_else none y = y

-- The branch after as many times `paasta-` as are given.
abbrev control_after : Text → Text → Text → Option (DesiredState × Text)
control_after prefix branch ref_name =
    after_branch (after_literal (codes "refs/tags/" ++ prefix ++ branch ++ b'-' ∷ []) ref_name)

-- The state and the force_bounce of a tag `refs/tags/(paasta-){0,2}<branch>-<force_bounce>-<state>`.
unfoldable pub control_tag : Text → Text → Option (DesiredState × Text)
control_tag branch ref_name =
    or_else (control_after (codes "paasta-paasta-") branch ref_name)
      (or_else (control_after (codes "paasta-") branch ref_name) (control_after [] branch ref_name))

-- sorted(states, key=force_bounce)[-1]: of the states read so far and the next one, which sorts last.
abbrev pub sorts_last : Option (DesiredState × Text) → DesiredState × Text → DesiredState × Text
sorts_last none x = x
sorts_last (some y) x = if text_leb y.1 x.1 then x else y

abbrev pub take_state :
    Bool
    → Option (DesiredState × Text)
    → Option (DesiredState × Text)
    → Option (DesiredState × Text)
take_state true (some x) best = some (sorts_last best x)
take_state true none best = best
take_state false found best = best

abbrev pub is_sha : Text → Option (Text × Text) → Bool
is_sha sha none = false
is_sha sha (some (ref, head_sha)) = sha == head_sha

abbrev pub states_loop :
    Text → Option (Text × Text) → Refs → Option (DesiredState × Text) → Option (DesiredState × Text)
states_loop branch head [] best = best
states_loop branch head ((ref, sha) ∷ refs) best =
    states_loop branch head refs (take_state (is_sha sha head) (control_tag branch ref) best)

abbrev pub or_start : Option (DesiredState × Text) → DesiredState × Option Text
or_start none = (start, none)
or_start (some (state, force_bounce)) = (state, some force_bounce)

unfoldable pub get_desired_state : Text → Refs → Text → DesiredState × Option Text
unfolding control_tag get_latest_deployment_tag
get_desired_state branch remote_refs deploy_group =
    or_start
      (states_loop branch (get_latest_deployment_tag remote_refs deploy_group) remote_refs none)

unfoldable pub build_docker_image_name : Text → Text → Text
build_docker_image_name service sha = codes "services-" ++ service ++ codes ":paasta-" ++ sha
