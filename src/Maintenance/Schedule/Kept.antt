-- ===== src/Maintenance/Schedule/Kept.antt =====
-- The windows of a schedule that a new one is built from.
use paasta.Prelude.{
  ℕ, zero, suc, nat_eq, text_eq, ◌≡◌, refl, sym, ap, ◌∙◌, Eq, ◌==◌, Text, Bool, true, false, not,
  none, some, List, [], ◌∷◌, ◌++◌, map, contains, select, length, Bool-cases, Option-cases, inl,
  inr, Result, ok, ok_injective,
}
use mathlib.Core.List.{append_assoc}
use paasta.Maintenance.{Machine, Window, Schedule, windows_of}
use paasta.Maintenance.Schedule.{
  machine_eq, window_eq, get_machine_ids, get_elem?, set_elem, remove, purge_ids, purged, emptied,
  drop_emptied, purge_windows, purge_schedule, build_drain_payload, build_undrain_payload,
}

-- A machine with the times of a window that it is in.
abbrev pub Booking : Type 0
Booking = Machine × ℕ × ℕ

abbrev pub book : Window → Machine → Booking
book w m = (m, w.start, w.duration)

-- The bookings of the machines that satisfy the test, in order.
abbrev pub bookings : (Machine → Bool) → List Window → List Booking
bookings p [] = []
bookings p (w ∷ ws) = map (book w) (select p w.machine_ids) ++ bookings p ws

-- Every machine but the given ones.
abbrev pub others : List Machine → Machine → Bool
others ids m = not (contains ids m)

select-remove :
    {A : Type 0} ⦃e : Eq A⦄ (p : A → Bool) (a : A) (xs : List A)
    → p a ≡ false
    → select p (remove a xs) ≡ select p xs
unfolding remove
select-remove p a [] out = refl
select-remove ⦃e⦄ p a (x ∷ xs) out = elim (Bool-cases (x == a)) [
  | inl same ↦ let gone : p x ≡ false = ap p ((e.beq_iff x a).0 same) ∙ out in rw (same, gone) refl
  | inr other ↦ elim (Bool-cases (p x)) [
    | inl kept ↦ rw (other, kept) (ap (λ l. x ∷ l) (select-remove p a xs out))
    | inr gone ↦ rw (other, gone) (select-remove p a xs out)
  ]
]

not_others : (ids : List Machine) (m : Machine) → contains ids m ≡ true → others ids m ≡ false
not_others ids m h = rw h refl

pub select-purge_ids :
    (ids : List Machine) (fuel i : ℕ) (ms : List Machine)
    → select (others ids) (purge_ids ids fuel i ms) ≡ select (others ids) ms
unfolding purge_ids
select-purge_ids ids zero i ms = refl
select-purge_ids ids (suc fuel) i ms = elim (Option-cases (get_elem? i ms)) [
  | inl done ↦ rw (purge_ids, done) refl
  | inr (m, here) ↦ elim (Bool-cases (contains ids m)) [
    | inl hit ↦
        rw (purge_ids, here, hit)
          (select-purge_ids ids fuel (suc i) (remove m ms)
            ∙ select-remove (others ids) m ms (not_others ids m hit))
    | inr miss ↦ rw (purge_ids, here, miss) (select-purge_ids ids fuel (suc i) ms)
  ]
]

-- A window in place of one with the same bookings.
bookings-set_elem :
    (p : Machine → Bool) (i : ℕ) (w v : Window) (ws : List Window)
    → get_elem? i ws ≡ some w
    → map (book v) (select p v.machine_ids) ≡ map (book w) (select p w.machine_ids)
    → bookings p (set_elem i v ws) ≡ bookings p ws
unfolding get_elem? set_elem
bookings-set_elem p i w v [] here same = cc
bookings-set_elem p zero w v (u ∷ ws) here same =
    let at : u ≡ w = cc in
    ap (λ l. l ++ bookings p ws) (same ∙ ap (λ x. map (book x) (select p x.machine_ids)) (sym at))
bookings-set_elem p (suc i) w v (u ∷ ws) here same =
    ap (λ l. map (book u) (select p u.machine_ids) ++ l) (bookings-set_elem p i w v ws here same)

bookings-remove :
    (p : Machine → Bool) (w : Window) (ws : List Window)
    → w.machine_ids ≡ []
    → bookings p (remove w ws) ≡ bookings p ws
unfolding remove
bookings-remove p w [] empty = refl
bookings-remove p w (u ∷ ws) empty = elim (Bool-cases (u == w)) [
  | inl same ↦
      let at : u ≡ w = (window_eq.beq_iff u w).0 same in
      let none_here : u.machine_ids ≡ [] = ap (λ x. x.machine_ids) at ∙ empty in
      rw (same, none_here) refl
  | inr other ↦
      rw other (ap (λ l. map (book u) (select p u.machine_ids) ++ l) (bookings-remove p w ws empty))
]

emptied_lem : (before after : List Machine) → emptied before after ≡ true → after ≡ []
emptied_lem [] after h = cc
emptied_lem (m ∷ ms) [] h = refl
emptied_lem (m ∷ ms) (n ∷ ns) h = cc

pub bookings-drop_emptied :
    (p : Machine → Bool) (before after : Window) (ws : List Window)
    → bookings p (drop_emptied before after ws) ≡ bookings p ws
bookings-drop_emptied p before after ws =
    elim (Bool-cases (emptied before.machine_ids after.machine_ids)) [
      | inl gone ↦ rw gone (bookings-remove p after ws (emptied_lem _ _ gone))
      | inr left ↦ rw left refl
    ]

pub bookings-purge_windows :
    (ids : List Machine) (fuel i : ℕ) (ws : List Window)
    → bookings (others ids) (purge_windows ids fuel i ws) ≡ bookings (others ids) ws
unfolding purge_windows
bookings-purge_windows ids zero i ws = refl
bookings-purge_windows ids (suc fuel) i ws = elim (Option-cases (get_elem? i ws)) [
  | inl done ↦ rw (purge_windows, done) refl
  | inr (w, here) ↦
      rw (purge_windows, here)
        (bookings-purge_windows ids fuel (suc i) _
          ∙ bookings-drop_emptied (others ids) w (purged ids w) (set_elem i (purged ids w) ws)
          ∙ bookings-set_elem (others ids) i w (purged ids w) ws here
              (ap (map (book w)) (select-purge_ids ids (length w.machine_ids) zero w.machine_ids)))
]

pub bookings-purge_schedule :
    (ids : List Machine) (s : Schedule)
    → bookings (others ids) (purge_schedule ids s) ≡ bookings (others ids) (windows_of s)
unfolding purge_schedule
bookings-purge_schedule ids none = refl
bookings-purge_schedule ids (some ws) = bookings-purge_windows ids (length ws) zero ws

-- Undraining hosts leaves every window of every other machine as it is, in the same order.
pub undrain_keeps_others :
    (resolve : Text → Result Text) (s : Schedule) (hosts : List Text) (ids : List Machine)
    (ws : List Window)
    → get_machine_ids resolve hosts ≡ ok ids
    → build_undrain_payload resolve (ok s) hosts ≡ ok ws
    → bookings (others ids) ws ≡ bookings (others ids) (windows_of s)
unfolding build_undrain_payload
undrain_keeps_others resolve s hosts ids ws found built =
    ap (bookings (others ids)) (sym (ok_injective (rw found at built)))
    ∙ bookings-purge_schedule ids s

bookings-append :
    (p : Machine → Bool) (vs ws : List Window)
    → bookings p (vs ++ ws) ≡ bookings p vs ++ bookings p ws
bookings-append p [] ws = refl
bookings-append p (v ∷ vs) ws =
    ap (λ l. map (book v) (select p v.machine_ids) ++ l) (bookings-append p vs ws)
    ∙ sym (append_assoc (map (book v) (select p v.machine_ids)) (bookings p vs) (bookings p ws))

-- Draining hosts adds one window, the last, with exactly their machines and the given times, and
-- leaves every window of every other machine as it is, in the same order.
drain_adds_window :
    (resolve : Text → Result Text) (s : Schedule) (hosts : List Text) (start duration : ℕ)
    (ids : List Machine)
    → get_machine_ids resolve hosts ≡ ok ids
    → (ws : List Window) × (build_drain_payload resolve (ok s) hosts start duration
        ≡ ok (ws ++ record { machine_ids = ids; start = start; duration = duration } ∷ []))
      × (bookings (others ids) ws ≡ bookings (others ids) (windows_of s))
unfolding build_drain_payload
drain_adds_window resolve s hosts start duration ids found =
    (purge_schedule ids s, rw found refl, bookings-purge_schedule ids s)
