-- ===== src/Drain/Hacheck.antt =====
-- HacheckDrainMethod of paasta_tools/drain_lib.py: tasks are taken down by hacheck's spool. Times and
-- delays are whole seconds, `now` is what time.time() answers during the call.
use paasta.Prelude.{
  ℕ, ◌+◌, ◌*◌, ltb, nat_beq, ◌≡◌, refl, ap, inl, inr, String, str_eq, Bool, true, false, not,
  Option, none, some, Result, ok, ok_injective, ◌<◌, ltb→lt, raise, attribute_error, Bool-cases,
  if◌then◌else◌,
}
use paasta.Effects.Stateful.{Prog, pure, lift, ◌>>=◌, >>=-eq-ok}
use paasta.Drain.{
  DrainMethod, DrainTask, Response, Responses, SpoolInfo, World, first_port, get_spool, post_spool,
  request,
}

pub record Hacheck : Type 0 where
  pub delay : ℕ
  pub expiration : ℕ

-- float(expiration) or float(delay) * 10
unfoldable pub make_hacheck : (delay expiration : ℕ) → Hacheck
make_hacheck delay expiration = record {
  delay = delay;
  expiration = if nat_beq expiration 0 then delay * 10 else expiration;
}

abbrev up_info : SpoolInfo
up_info = record { state = "up"; since = none }

-- match.groupdict() fails where there is no match.
abbrev matched : Option SpoolInfo → Result SpoolInfo
matched none = raise attribute_error
matched (some info) = ok info

unfoldable pub info_of : Response → Result SpoolInfo
info_of r = if nat_beq r.status_code 200 then ok up_info else matched r.spool

-- float(groupdict['since'] or 0)
abbrev pub or_zero : Option ℕ → ℕ
or_zero none = 0
or_zero (some n) = n

unfoldable pub says_draining : SpoolInfo → Bool
says_draining info = not (str_eq info.state "up")

-- since < time.time() - delay, once the task is down
unfoldable pub says_safe : Hacheck → ℕ → SpoolInfo → Bool
says_safe hacheck now info =
    if str_eq info.state "up" then false else ltb (or_zero info.since + hacheck.delay) now

module _ (responses : Responses) (hacheck : Hacheck) (now : ℕ) where
  unfoldable pub post_status : String → DrainTask → Prog World Bool
  unfolding first_port request
  post_status status task = lift (first_port task) >>= λ port.
      request responses (post_spool task.host port status (now + hacheck.expiration))
      >>= λ response. lift response.for_status

  unfoldable pub spool_info : DrainTask → Prog World SpoolInfo
  unfolding first_port request info_of
  spool_info task = lift (first_port task) >>= λ port.
      request responses (get_spool task.host port) >>= λ response. lift (info_of response)

  unfoldable pub hacheck_drain_method : DrainMethod
  unfolding post_status spool_info says_draining says_safe
  hacheck_drain_method = record {
    drain = post_status "down";
    stop_draining = post_status "up";
    is_draining = λ task. spool_info task >>= λ info. pure (says_draining info);
    is_safe_to_kill = λ task. spool_info task >>= λ info. pure (says_safe hacheck now info);
  }

-- What a spool entry that lets a task be killed says.
safe_says :
    (hacheck : Hacheck) (now : ℕ) (info : SpoolInfo)
    → says_safe hacheck now info ≡ true
    → (says_draining info ≡ true) × (or_zero info.since + hacheck.delay < now)
unfolding says_safe says_draining
safe_says hacheck now info says = elim (Bool-cases (str_eq info.state "up")) [
  | inl is_up ↦ cc (rw is_up at says)
  | inr down ↦ (rw down refl, ltb→lt (or_zero info.since + hacheck.delay) now (rw down at says))
]

long_ago_since :
    (delay now : ℕ) (since : Option ℕ)
    → or_zero since + delay < now
    → (n : ℕ) → since ≡ some n
    → n + delay < now
long_ago_since delay now since h n e = rw (ap or_zero e) at h

-- A task that is reported safe to kill has an entry in the spool, is draining by that entry, and if the
-- entry says since when, has been so for longer than the delay. (An entry that does not say it counts as
-- one since the epoch.)
pub hacheck_safe_is_down :
    (responses : Responses) (hacheck : Hacheck) (now : ℕ) (task : DrainTask) (w : World)
    → ((hacheck_drain_method responses hacheck now).is_safe_to_kill task w).0 ≡ ok true
    → (info : SpoolInfo) × ((spool_info responses hacheck now task w).0 ≡ ok info)
      × (((hacheck_drain_method responses hacheck now).is_draining task w).0 ≡ ok true)
      × ((since : ℕ) → info.since ≡ some since → since + hacheck.delay < now)
unfolding hacheck_drain_method
hacheck_safe_is_down responses hacheck now task w is_safe =
    let (info, found, says, same) =
      >>=-eq-ok (spool_info responses hacheck now task) (λ info. pure (says_safe hacheck now info))
        w is_safe in
    let (draining, long_ago) = safe_says hacheck now info (ok_injective says) in
    (info, found, rw (found, draining) refl, long_ago_since hacheck.delay now info.since long_ago)
