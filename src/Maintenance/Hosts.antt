-- ===== src/Maintenance/Hosts.antt =====
-- The hosts that are past a window, and those that are forgotten.
use paasta.Prelude.{
  ℕ, nat_eq, text_eq, ◌≡◌, refl, sym, ap, ◌∙◌, ◌-◌, nat_beq, Text, Bool, true, ◌&&◌, ◌||◌, List, [],
  ◌∷◌, contains, set_of, contains-append, contains-select, contains-set_of, or_cases, or_left,
  or_right, and_parts, Bool-cases, Result-cases, inl, inr, arith, Result, ok, raise, ok_injective,
  ◌>>=◌,
}
use paasta.Maintenance.{
  Window, Schedule, Status, get_draining_hosts, get_hosts_past_maintenance_start, hosts_where,
  has_started, has_ended, windows_of, hostnames, get_hosts_past_maintenance_end, intersection,
  get_hosts_forgotten_draining, is_host_draining, is_host_drained, is_host_past_maintenance_start,
  is_safe_to_kill,
}

-- A weaker test finds the hosts again.
hosts_where_weaker :
    (p q : Window → Bool) (ws : List Window) (host : Text)
    → ((w : Window) → p w ≡ true → q w ≡ true)
    → contains (hosts_where p ws) host ≡ true
    → contains (hosts_where q ws) host ≡ true
hosts_where_weaker p q [] host weaker m = m
hosts_where_weaker p q (w ∷ ws) host weaker m = elim (Bool-cases (p w)) [
  | inl holds ↦
      let both : (contains (hostnames w) host || contains (hosts_where p ws) host) ≡ true =
        sym (contains-append (hostnames w) (hosts_where p ws) host) ∙ rw holds at m in
      rw (weaker w holds) (
        contains-append (hostnames w) (hosts_where q ws) host
        ∙ elim (or_cases (contains (hostnames w) host) _ both) [
          | inl here ↦ or_left _ here
          | inr later ↦ or_right _ (hosts_where_weaker p q ws host weaker later)
        ])
  | inr fails ↦
      let later : contains (hosts_where q ws) host ≡ true =
        hosts_where_weaker p q ws host weaker (rw fails at m) in
      elim (Bool-cases (q w)) [
        | inl found ↦
            rw found (contains-append (hostnames w) (hosts_where q ws) host ∙ or_right _ later)
        | inr not_found ↦ rw not_found later
      ]
]

-- A host that is past the end of a window is past the start of one, at the same time and grace.
past_maintenance_end_is_past_start :
    (schedule : Result Schedule) (now grace : ℕ) (ended : List Text) (host : Text)
    → get_hosts_past_maintenance_end schedule now grace ≡ ok ended
    → contains ended host ≡ true
    → (started : List Text) × (get_hosts_past_maintenance_start schedule now grace ≡ ok started)
      × (contains started host ≡ true)
unfolding get_hosts_past_maintenance_end get_hosts_past_maintenance_start
past_maintenance_end_is_past_start (ok s) now grace ended host e m = (
  hosts_where (has_started (now - grace)) (windows_of s),
  refl,
  hosts_where_weaker (has_ended (now - grace)) (has_started (now - grace)) (windows_of s) host
      (λ w h. ground arith) (ap (λ l. contains l host) (ok_injective e) ∙ m),
)
past_maintenance_end_is_past_start (raise x) now grace ended host e m = cc

contains-intersection :
    (xs ys : List Text) (a : Text)
    → contains (intersection xs ys) a ≡ (contains xs a && contains ys a)
unfolding intersection
contains-intersection xs ys a =
    contains-select (contains ys) (set_of xs) a
    ∙ ap (λ b. b && contains ys a) (contains-set_of xs a)

-- Whatever the grace, a host that was forgotten draining is draining, and is safe to kill, if it is
-- known how many tasks it runs.
forgotten_draining_is_safe_to_kill :
    (status : Status) (schedule : Result Schedule) (now grace running : ℕ) (forgotten : List Text)
    (host : Text)
    → get_hosts_forgotten_draining status schedule now grace ≡ ok forgotten
    → contains forgotten host ≡ true
    → (is_host_draining status host ≡ ok true)
      × (is_safe_to_kill status (ok running) schedule now host ≡ ok true)
unfolding get_hosts_forgotten_draining is_host_draining is_safe_to_kill is_host_drained
    is_host_past_maintenance_start get_hosts_past_maintenance_start
forgotten_draining_is_safe_to_kill status (raise x) now grace running forgotten host e m =
    absurd (fails (get_draining_hosts status) e)
  where
    fails :
        (r : Result (List Text))
        → (r >>= λ hosts. (raise x >>= λ (past : List Text). ok (intersection hosts past)))
          ≡ ok forgotten
        → ⊥
    fails (ok hosts) e' = cc
    fails (raise y) e' = cc
forgotten_draining_is_safe_to_kill status (ok s) now grace running forgotten host e m =
    elim (Result-cases (get_draining_hosts status)) [
      | inl (hosts, listed) ↦
          let past = hosts_where (has_started (now - grace)) (windows_of s) in
          let both : (contains hosts host && contains past host) ≡ true =
            sym (contains-intersection hosts past host)
            ∙ ap (λ l. contains l host) (ok_injective (rw listed at e))
            ∙ m in
          let (draining, started) = and_parts (contains hosts host) (contains past host) both in
          let started_now : contains (hosts_where (has_started (now - 0)) (windows_of s)) host
              ≡ true =
            hosts_where_weaker (has_started (now - grace)) (has_started (now - 0)) (windows_of s)
              host (λ w h. ground arith) started in
          (
            rw listed (ap ok draining),
            rw (listed, draining)
                (elim (Bool-cases (nat_beq running 0)) [
                  | inl idle ↦ rw idle refl
                  | inr busy ↦ rw (busy, started_now) refl
                ]),
          )
      | inr (x, failed) ↦ cc (rw failed at e)
    ]
