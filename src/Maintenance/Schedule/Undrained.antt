-- ===== src/Maintenance/Schedule/Undrained.antt =====
-- The schedule that undraining a host builds.
use paasta.Prelude.{
  ℕ, zero, suc, nat_eq, text_eq, ◌≡◌, refl, sym, ap, ◌∙◌, ◌≤◌, ◌+◌, ◌-◌, ◌==◌, Text, true, false,
  none, some, List, [], ◌∷◌, map, contains, select, drop, length, length-map, length-append,
  Bool-cases, Option-cases, inl, inr, arith, ◌⊎◌, Result, ok, ok_injective,
}
use paasta.Maintenance.{Machine, Window, Schedule, windows_of}
use paasta.Maintenance.Schedule.{
  machine_eq, window_eq, get_machine_ids, get_elem?, set_elem, remove, purge_ids, purged, emptied,
  drop_emptied, purge_windows, purge_schedule, build_undrain_payload,
}
use paasta.Maintenance.Schedule.Indexing.{drop-get_elem?, drop-none, drop-all, set_elem-get_elem?}
use paasta.Maintenance.Schedule.Kept.{bookings, book, bookings-drop_emptied}

module _ (m : Machine) where
  abbrev pub times_in : List Machine → ℕ
  times_in ms = length (select (λ x. x == m) ms)

  abbrev pub times_booked : List Window → ℕ
  times_booked [] = 0
  times_booked (w ∷ ws) = times_in w.machine_ids + times_booked ws

  times_in-remove :
      (x : Machine) (ms : List Machine) → (x == m) ≡ true → times_in (remove x ms) ≡ times_in ms - 1
  unfolding remove
  times_in-remove x [] h = refl
  times_in-remove x (y ∷ ms) h = elim (Bool-cases (y == x)) [
    | inl same ↦
        let at : (y == m) ≡ true = ap (λ z. z == m) ((machine_eq.beq_iff y x).0 same) ∙ h in
        rw (same, at) (omega arith)
    | inr other ↦ elim (Bool-cases (y == m)) [
      | inl hit ↦
          let at : y ≡ x = (machine_eq.beq_iff y m).0 hit ∙ sym ((machine_eq.beq_iff x m).0 h) in
          cc (other, (machine_eq.beq_iff y x).1 at)
      | inr miss ↦ rw (other, miss) (times_in-remove x ms h)
    ]
  ]

  contains_one : (x : Machine) → contains (m ∷ []) x ≡ (x == m)
  contains_one x = elim (Bool-cases (x == m)) [ inl h ↦ rw h refl | inr h ↦ rw h refl ]

  times_in-get_elem? :
      (i : ℕ) (x : Machine) (ms : List Machine)
      → get_elem? i ms ≡ some x
      → (x == m) ≡ true
      → 1 ≤ times_in ms
  unfolding get_elem?
  times_in-get_elem? i x [] here hit = cc
  times_in-get_elem? zero x (y ∷ ms) here hit = let at : (y == m) ≡ true = cc in rw at (omega arith)
  times_in-get_elem? (suc i) x (y ∷ ms) here hit = elim (Bool-cases (y == m)) [
    | inl h ↦ rw h (omega arith)
    | inr h ↦ rw h (times_in-get_elem? i x ms here hit)
  ]

  -- Where the machine is not in the list, nothing happens.
  purge_ids-none :
      (fuel i : ℕ) (ms : List Machine) → times_in ms ≡ 0 → purge_ids (m ∷ []) fuel i ms ≡ ms
  unfolding purge_ids
  purge_ids-none zero i ms h = refl
  purge_ids-none (suc fuel) i ms h = elim (Option-cases (get_elem? i ms)) [
    | inl done ↦ rw (purge_ids, done) refl
    | inr (x, here) ↦ elim (Bool-cases (x == m)) [
      | inl hit ↦ absurd (omega (arith, times_in-get_elem? i x ms here hit))
      | inr miss ↦ rw (purge_ids, here, contains_one x ∙ miss) (purge_ids-none fuel (suc i) ms h)
    ]
  ]

  -- Where it is there at most once, it is removed.
  times_in-purge_ids :
      (fuel i : ℕ) (ms : List Machine)
      → length ms ≤ fuel + i
      → times_in ms ≡ times_in (drop i ms)
      → times_in ms ≤ 1
      → times_in (purge_ids (m ∷ []) fuel i ms) ≡ 0
  unfolding purge_ids
  times_in-purge_ids zero i ms enough from once = from ∙ ap times_in (drop-all i ms (omega arith))
  times_in-purge_ids (suc fuel) i ms enough from once = elim (Option-cases (get_elem? i ms)) [
    | inl done ↦ rw (purge_ids, done) (from ∙ ap times_in (drop-none i ms done))
    | inr (x, here) ↦ elim (Bool-cases (x == m)) [
      | inl hit ↦
          let gone : times_in (remove x ms) ≡ 0 = omega (arith, times_in-remove x ms hit) in
          rw (purge_ids, here, contains_one x ∙ hit)
            (ap times_in (purge_ids-none fuel (suc i) (remove x ms) gone) ∙ gone)
      | inr miss ↦
          rw (purge_ids, here, contains_one x ∙ miss)
            (times_in-purge_ids fuel (suc i) ms (omega arith) (from ∙ later x here miss) once)
    ]
  ]
    where
      later :
          (x : Machine)
          → get_elem? i ms ≡ some x
          → (x == m) ≡ false
          → times_in (drop i ms) ≡ times_in (drop (suc i) ms)
      later x here miss = rw (drop-get_elem? i ms x here, miss) refl

  times_booked-eq-length : (ws : List Window) → times_booked ws ≡ length (bookings (λ x. x == m) ws)
  times_booked-eq-length [] = refl
  times_booked-eq-length (w ∷ ws) = omega (
    arith,
    times_booked-eq-length ws,
    length-append (map (book w) (select (λ x. x == m) w.machine_ids)) (bookings (λ x. x == m) ws),
    length-map (book w) (select (λ x. x == m) w.machine_ids),
  )

  times_booked-drop_emptied :
      (before after : Window) (ws : List Window)
      → times_booked (drop_emptied before after ws) ≡ times_booked ws
  times_booked-drop_emptied before after ws =
      times_booked-eq-length (drop_emptied before after ws)
      ∙ ap length (bookings-drop_emptied (λ x. x == m) before after ws)
      ∙ sym (times_booked-eq-length ws)

  times_booked-set_elem :
      (i : ℕ) (w v : Window) (ws : List Window)
      → get_elem? i ws ≡ some w
      → times_booked (set_elem i v ws) + times_in w.machine_ids
        ≡ times_booked ws + times_in v.machine_ids
  unfolding get_elem? set_elem
  times_booked-set_elem i w v [] here = cc
  times_booked-set_elem zero w v (u ∷ ws) here = let at : u ≡ w = cc in rw at (omega arith)
  times_booked-set_elem (suc i) w v (u ∷ ws) here =
      omega (arith, times_booked-set_elem i w v ws here)

  not_emptied : (ms : List Machine) → emptied ms ms ≡ false
  not_emptied [] = refl
  not_emptied (x ∷ ms) = refl

  -- A window without the machine stays as it is.
  step-none :
      (i : ℕ) (w : Window) (ws : List Window)
      → get_elem? i ws ≡ some w
      → times_in w.machine_ids ≡ 0
      → drop_emptied w (purged (m ∷ []) w) (set_elem i (purged (m ∷ []) w) ws) ≡ ws
  step-none i w ws here none_in =
      rw
        (
          purge_ids-none (length w.machine_ids) zero w.machine_ids none_in,
          not_emptied w.machine_ids,
        )
        (set_elem-get_elem? i w ws here)

  times_booked-get_elem? :
      (i : ℕ) (w : Window) (ws : List Window)
      → get_elem? i ws ≡ some w
      → times_in w.machine_ids ≤ times_booked ws
  unfolding get_elem?
  times_booked-get_elem? i w [] here = cc
  times_booked-get_elem? zero w (u ∷ ws) here = let at : u ≡ w = cc in rw at (omega arith)
  times_booked-get_elem? (suc i) w (u ∷ ws) here = omega (arith, times_booked-get_elem? i w ws here)

  purge_windows-none :
      (fuel i : ℕ) (ws : List Window) → times_booked ws ≡ 0 → purge_windows (m ∷ []) fuel i ws ≡ ws
  unfolding purge_windows
  purge_windows-none zero i ws h = refl
  purge_windows-none (suc fuel) i ws h = elim (Option-cases (get_elem? i ws)) [
    | inl done ↦ rw (purge_windows, done) refl
    | inr (w, here) ↦
        rw (purge_windows, here)
          (ap (purge_windows (m ∷ []) fuel (suc i))
              (step-none i w ws here (omega (arith, times_booked-get_elem? i w ws here)))
            ∙ purge_windows-none fuel (suc i) ws h)
  ]

  times_booked-purge_windows :
      (fuel i : ℕ) (ws : List Window)
      → length ws ≤ fuel + i
      → times_booked ws ≡ times_booked (drop i ws)
      → times_booked ws ≤ 1
      → times_booked (purge_windows (m ∷ []) fuel i ws) ≡ 0
  unfolding purge_windows
  times_booked-purge_windows zero i ws enough from once =
      from ∙ ap times_booked (drop-all i ws (omega arith))
  times_booked-purge_windows (suc fuel) i ws enough from once =
      elim (Option-cases (get_elem? i ws)) [
        | inl done ↦ rw (purge_windows, done) (from ∙ ap times_booked (drop-none i ws done))
        | inr (w, here) ↦
            rw (purge_windows, here)
              (step w here (λ f. times_booked-purge_windows fuel (suc i) ws (omega arith) f once)
                (none_or_some (times_in w.machine_ids)))
      ]
    where
      none_or_some : (n : ℕ) → (n ≡ 0) ⊎ (1 ≤ n)
      none_or_some zero = inl refl
      none_or_some (suc n) = inr (omega arith)

      after : Window → List Window
      after w = drop_emptied w (purged (m ∷ []) w) (set_elem i (purged (m ∷ []) w) ws)

      later :
          (w : Window)
          → get_elem? i ws ≡ some w
          → times_in w.machine_ids ≡ 0
          → times_booked (drop i ws) ≡ times_booked (drop (suc i) ws)
      later w here none_in = ap times_booked (drop-get_elem? i ws w here) ∙ omega arith

      step :
          (w : Window)
          → get_elem? i ws ≡ some w
          → (times_booked ws ≡ times_booked (drop (suc i) ws)
              → times_booked (purge_windows (m ∷ []) fuel (suc i) ws) ≡ 0)
          → (times_in w.machine_ids ≡ 0) ⊎ (1 ≤ times_in w.machine_ids)
          → times_booked (purge_windows (m ∷ []) fuel (suc i) (after w)) ≡ 0
      step w here next (inl none_in) =
          ap (λ l. times_booked (purge_windows (m ∷ []) fuel (suc i) l))
            (step-none i w ws here none_in)
          ∙ next (from ∙ later w here none_in)
      step w here next (inr hit) =
          let at : times_in w.machine_ids ≤ times_booked ws = times_booked-get_elem? i w ws here in
          let inner : times_in (purge_ids (m ∷ []) (length w.machine_ids) zero w.machine_ids) ≡ 0 =
            times_in-purge_ids (length w.machine_ids) zero w.machine_ids (omega arith) refl
              (omega arith) in
          let gone : times_booked (after w) ≡ 0 = omega (
            arith,
            times_booked-drop_emptied w (purged (m ∷ []) w) (set_elem i (purged (m ∷ []) w) ws),
            times_booked-set_elem i w (purged (m ∷ []) w) ws here,
            inner,
          ) in
          ap times_booked (purge_windows-none fuel (suc i) (after w) gone) ∙ gone

-- Undraining one host takes it off the schedule, if it is in at most one window there and once.
undrain_frees_host :
    (resolve : Text → Result Text) (s : Schedule) (host : Text) (m : Machine) (ws : List Window)
    → get_machine_ids resolve (host ∷ []) ≡ ok (m ∷ [])
    → build_undrain_payload resolve (ok s) (host ∷ []) ≡ ok ws
    → times_booked m (windows_of s) ≤ 1
    → times_booked m ws ≡ 0
unfolding build_undrain_payload purge_schedule
undrain_frees_host resolve s host m ws found built once =
    ap (times_booked m) (sym (ok_injective (rw found at built))) ∙ freed s once
  where
    freed :
        (s : Schedule)
        → times_booked m (windows_of s) ≤ 1
        → times_booked m (purge_schedule (m ∷ []) s) ≡ 0
    freed none once = refl
    freed (some old) once =
        times_booked-purge_windows m (length old) zero old (omega arith) refl once
