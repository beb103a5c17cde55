-- ===== src/Scheduler/Round/Planning.antt =====
-- What a round of kill_tasks_if_necessary decides.
use paasta.Prelude.{
  ℕ, ◌+◌, ◌-◌, ◌≤◌, min, ◌≡◌, refl, sym, ap, ◌∙◌, inl, inr, Text, text_eq, Bool, true, false, ◌||◌,
  ◌&&◌, not, List, [], ◌∷◌, ◌++◌, ok, contains, contains-append, contains-diff, contains-drop,
  contains-select, contains-set_of, diff, drop, select, set_of, length, length-append, length-drop,
  length-diff_add, drop-append, select_eq, or_left, length-select_le, no_repeats, no_repeats-set_of,
  no_repeats-select, Bool-cases, or_cases, or_right, and_parts, arith,
}
use paasta.Bounce.{ceil_margin, list_tasks}
use paasta.Scheduler.{
  Config, TasksWithFlags, get_new_tasks, get_old_tasks, group_tasks_by_version, is_task_new, keys,
}
use paasta.Scheduler.Round.{Plan, crossover, get_draining_tasks, plan_round}
use paasta.Scheduler.Round.Grouping.{contains-group_tasks_by_version, length-group_tasks_by_version}
use paasta.Scheduler.Round.Returning.{
  happy_in, Tracked, Tracked, get_happy_tasks-returns, by_desirability-returns,
}

and_false : (b : Bool) → (b && false) ≡ false
and_false b = ground arith

or_false : (b : Bool) → (b || false) ≡ b
or_false b = ground arith

ceil_margin_one : (n : ℕ) → ceil_margin n 1 1 ≡ n
unfolding ceil_margin
ceil_margin_one n = omega arith

module _ (config : Config) (name : Text) (d : TasksWithFlags) where
  abbrev pub new_tasks : List Text
  new_tasks = get_new_tasks name (keys d)

  abbrev pub old_tasks : List Text
  old_tasks = get_old_tasks name (keys d)

  abbrev pub happy_new : List Text
  happy_new = select (happy_in d) new_tasks

  abbrev pub happy_old : List Text
  happy_old = select (happy_in d) old_tasks

  abbrev pub unhappy_old : List Text
  unhappy_old = diff (diff old_tasks happy_old) (get_draining_tasks d)

  abbrev drained : List Text → List Text
  drained surplus =
      crossover config.desired_instances happy_new (group_tasks_by_version (happy_old ++ surplus))
        (group_tasks_by_version unhappy_old)

  Tracked-filtered : (p : Text → Bool) → Tracked d (set_of (select p (keys d)))
  Tracked-filtered p t m =
      (and_parts (contains (keys d) t) (p t)
        (sym (contains-select p (keys d) t) ∙ sym (contains-set_of (select p (keys d)) t) ∙ m)).0

  plan_round-returns :
      (surplus : List Text) × (plan_round config name d
        ≡ ok (record {
          tasks_to_undrain = diff new_tasks (drained surplus);
          tasks_to_drain = drained surplus;
        }))
      × (length surplus ≡ length new_tasks - config.desired_instances)
  unfolding plan_round get_new_tasks get_old_tasks
  plan_round-returns =
      let new_tracked : Tracked d new_tasks = Tracked-filtered (is_task_new name) in
      let old_tracked : Tracked d old_tasks = Tracked-filtered (λ t. not (is_task_new name t)) in
      let (sorted, returned, long) = by_desirability-returns d name new_tasks new_tracked in
      (
        drop config.desired_instances sorted,
        rw
            (
              get_happy_tasks-returns d new_tasks new_tracked,
              returned,
              get_happy_tasks-returns d old_tasks old_tracked,
            )
            refl,
        length-drop config.desired_instances sorted ∙ ap (λ n. n - config.desired_instances) long,
      )

  -- The tasks to drain, in the order in which they are given up.
  abbrev old_happy_first : List Text → List Text
  old_happy_first surplus = list_tasks (group_tasks_by_version (happy_old ++ surplus))

  abbrev unhappy_last : List Text
  unhappy_last = list_tasks (group_tasks_by_version unhappy_old)

  abbrev needed : ℕ
  needed = config.desired_instances - length happy_new

  contains-drained :
      (surplus : List Text) (t : Text)
      → contains (drained surplus) t ≡ (
          contains (drop needed (old_happy_first surplus)) t
          || contains (drop (needed - length (old_happy_first surplus)) unhappy_last) t)
  unfolding crossover
  contains-drained surplus t =
      let first = old_happy_first surplus in
      rw (ceil_margin_one config.desired_instances) (
        contains-set_of (drop needed (first ++ unhappy_last)) t
        ∙ rw (drop-append needed first unhappy_last)
            (contains-append (drop needed first) (drop (needed - length first) unhappy_last) t))

  happy_not_last :
      (n : ℕ) (t : Text) → contains happy_old t ≡ true → contains (drop n unhappy_last) t ≡ false
  happy_not_last n t m = elim (Bool-cases (contains (drop n unhappy_last) t)) [
    | inr out ↦ out
    | inl there ↦
        let unhappy : contains unhappy_old t ≡ true =
          sym (contains-group_tasks_by_version unhappy_old t)
          ∙ contains-drop n unhappy_last t there in
        let (not_happy, _) =
          and_parts (contains (diff old_tasks happy_old) t)
            (not (contains (get_draining_tasks d) t))
            (sym (contains-diff (diff old_tasks happy_old) (get_draining_tasks d) t) ∙ unhappy) in
        cc (
          m,
          (and_parts (contains old_tasks t) (not (contains happy_old t))
              (sym (contains-diff old_tasks happy_old t) ∙ not_happy)).1,
        )
  ]

  happy_old-no_repeats : no_repeats happy_old ≡ true
  unfolding get_old_tasks
  happy_old-no_repeats =
      no_repeats-select (happy_in d) old_tasks
        (no_repeats-set_of (select (λ t. not (is_task_new name t)) (keys d)))

  -- Without surplus at most the happy old tasks beyond the needed ones are drained.
  drained_happy :
      (surplus : List Text)
      → length surplus ≡ 0
      → length (select (contains (drained surplus)) happy_old) ≤ length happy_old - needed
  drained_happy surplus empty =
      let first = old_happy_first surplus in
      rw
        (select_eq (contains (drained surplus)) (contains (drop needed first)) happy_old λ t m.
          contains-drained surplus t
          ∙ rw (happy_not_last (needed - length first) t m)
              (or_false (contains (drop needed first) t)))
        (omega (
          arith,
          length-select_le happy_old (drop needed first) happy_old-no_repeats,
          length-drop needed first,
          length-group_tasks_by_version (happy_old ++ surplus),
          length-append happy_old surplus,
        ))

  no_surplus : (surplus : List Text) → length surplus ≡ 0 → surplus ≡ []
  no_surplus [] empty = refl
  no_surplus (x ∷ xs) empty = absurd (omega arith)

  -- What is drained are old tasks, where there is no surplus.
  drained_old :
      (surplus : List Text)
      → length surplus ≡ 0
      → (t : Text) → contains (drained surplus) t ≡ true
      → contains old_tasks t ≡ true
  drained_old surplus empty t m =
      let first = old_happy_first surplus in
      elim (or_cases (contains (drop needed first) t)
        (contains (drop (needed - length first) unhappy_last) t)
        (sym (contains-drained surplus t) ∙ m)) [
          | inl in_first ↦
              let happy : contains (happy_old ++ surplus) t ≡ true =
                sym (contains-group_tasks_by_version (happy_old ++ surplus) t)
                ∙ contains-drop needed first t in_first in
              let old_and_happy : contains happy_old t ≡ true =
                sym (or_false (contains happy_old t))
                ∙ sym (contains-append happy_old [] t)
                ∙ rw (no_surplus surplus empty) at happy in
              (and_parts (contains old_tasks t) (happy_in d t)
                (sym (contains-select (happy_in d) old_tasks t) ∙ old_and_happy)).0
          | inr in_last ↦
              let unhappy : contains unhappy_old t ≡ true =
                sym (contains-group_tasks_by_version unhappy_old t)
                ∙ contains-drop (needed - length first) unhappy_last t in_last in
              let (not_happy, _) =
                and_parts (contains (diff old_tasks happy_old) t)
                  (not (contains (get_draining_tasks d) t))
                  (sym (contains-diff (diff old_tasks happy_old) (get_draining_tasks d) t)
                    ∙ unhappy) in
              (and_parts (contains old_tasks t) (not (contains happy_old t))
                (sym (contains-diff old_tasks happy_old t) ∙ not_happy)).0
        ]

  kind_of :
      (p : Text → Bool) (t : Text)
      → contains (set_of (select p (keys d))) t ≡ (contains (keys d) t && p t)
  kind_of p t = contains-set_of (select p (keys d)) t ∙ contains-select p (keys d) t

  new_apart_old : (t : Text) → contains new_tasks t ≡ true → contains old_tasks t ≡ false
  unfolding get_new_tasks get_old_tasks
  new_apart_old t m =
      let (_, is_new) =
        and_parts (contains (keys d) t) (is_task_new name t)
          (sym (kind_of (is_task_new name) t) ∙ m) in
      kind_of (λ u. not (is_task_new name u)) t ∙ rw is_new (and_false (contains (keys d) t))

  -- While no more new tasks are tracked than are desired, a round can be planned, drains no new task,
  -- and leaves as many happy tasks as are desired, or all there are.
  pub round_keeps_service :
      length new_tasks ≤ config.desired_instances
      → (plan : Plan) × (plan_round config name d ≡ ok plan)
        × ((t : Text) → contains new_tasks t ≡ true → contains plan.tasks_to_drain t ≡ false)
        × (min config.desired_instances (length happy_new + length happy_old)
            ≤ length happy_new + length (diff happy_old plan.tasks_to_drain))
  round_keeps_service few =
      let (surplus, returned, long) = plan_round-returns in
      let empty : length surplus ≡ 0 = omega arith in
      (
        _,
        returned,
        λ t m. elim (Bool-cases (contains (drained surplus) t)) [
          | inl drains ↦ cc (new_apart_old t m, drained_old surplus empty t drains)
          | inr stays ↦ stays
        ],
        omega (arith, length-diff_add happy_old (drained surplus), drained_happy surplus empty),
      )

  -- Once as many new tasks are happy as are desired, a round drains every old task that does not drain yet.
  pub round_finishes :
      config.desired_instances ≤ length happy_new
      → (plan : Plan) × (plan_round config name d ≡ ok plan)
        × ((t : Text)
            → contains old_tasks t ≡ true
            → contains (get_draining_tasks d) t ≡ false
            → contains plan.tasks_to_drain t ≡ true)
  round_finishes enough =
      let (surplus, returned, long) = plan_round-returns in
      let none_needed : needed ≡ 0 = omega arith in
      let none_left : 0 - length (old_happy_first surplus) ≡ 0 = omega arith in
      (
        _,
        returned,
        λ t old stays.
            contains-drained surplus t ∙ rw (none_needed, none_left) (gives_up surplus t old stays),
      )
    where
      gives_up :
          (surplus : List Text) (t : Text)
          → contains old_tasks t ≡ true
          → contains (get_draining_tasks d) t ≡ false
          → (contains (old_happy_first surplus) t || contains unhappy_last t) ≡ true
      gives_up surplus t old stays = elim (Bool-cases (contains happy_old t)) [
        | inl happy ↦ or_left (contains unhappy_last t) (
            contains-group_tasks_by_version (happy_old ++ surplus) t
            ∙ contains-append happy_old surplus t
            ∙ or_left (contains surplus t) happy)
        | inr unhappy ↦ or_right (contains (old_happy_first surplus) t) (
            contains-group_tasks_by_version unhappy_old t
            ∙ contains-diff (diff old_tasks happy_old) (get_draining_tasks d) t
            ∙ rw (contains-diff old_tasks happy_old t, old, unhappy, stays) refl)
      ]
