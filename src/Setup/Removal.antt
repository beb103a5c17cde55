-- ===== src/Setup/Removal.antt =====
-- The apps that do_bounce removes once their tasks are killed.
use paasta.Prelude.{
  nat_eq, text_eq, ◌≡◌, ◌↔◌, inl, inr, refl, sym, ap, ◌∙◌, Text, true, false, Option, none, some,
  List, [], ◌∷◌, ◌==◌, contains, contains-union, diff, union, length, length-diff_zero, nat_beq,
  nat_beq_iff, lookup, text_beq_iff, ok, ok_injective, Bool-cases, Result-cases, or_cases, or_left,
  or_right, map,
}
use paasta.Marathon.{Task}
use paasta.Bounce.{AppTasks}
use paasta.Setup.{OldTasks, four, tasks_of_app, find_apps_to_kill}

-- Each task of the one list is in the other.
abbrev Within : List Task → List Task → Type 0
Within tasks killed = (t : Task) → contains tasks t ≡ true → contains killed t ≡ true

-- What the entry of a dict for an app lists is killed, if there is one.
abbrev pub EntryKilled : (killed : List Task) → Option (List Task) → Type 0
EntryKilled killed entry = (tasks : List Task) → entry ≡ some tasks → Within tasks killed

-- The app is not the new one, and the tasks that each of the four dicts lists for it are to be killed.
pub record Finished (old : OldTasks) (jobid : Text) (killed : List Task) (app : Text) : Type 0 where
  pub is_old : (app == (b'/' ∷ jobid)) ≡ false
  pub happy : EntryKilled killed (lookup app old.happy)
  pub unhappy : EntryKilled killed (lookup app old.unhappy)
  pub draining : EntryKilled killed (lookup app old.draining)
  pub at_risk : EntryKilled killed (lookup app old.at_risk)

abbrev pub keys : AppTasks → List Text
keys = map (λ e. e.0)

diff-nil : (tasks killed : List Task) → Within tasks killed → diff tasks killed ≡ []
unfolding diff
diff-nil [] killed within = refl
diff-nil (t ∷ tasks) killed within =
    rw (within t (or_left (contains tasks t) ((nat_beq_iff t t).1 refl)))
      (diff-nil tasks killed (λ a m. within a (or_right (a == t) m)))

gone_iff :
    (tasks killed : List Task)
    → (nat_beq (length (diff tasks killed)) 0 ≡ true) ↔ Within tasks killed
gone_iff tasks killed = (
  λ gone. length-diff_zero tasks killed ((nat_beq_iff _ _).0 gone),
  λ within. (nat_beq_iff _ _).1 (ap length (diff-nil tasks killed within)),
)

union-Within :
    (xs ys killed : List Task) → Within (union xs ys) killed ↔ (Within xs killed × Within ys killed)
union-Within xs ys killed = (
  λ both. (
    λ t m. both t (contains-union xs ys t ∙ or_left (contains ys t) m),
    λ t m. both t (contains-union xs ys t ∙ or_right (contains xs t) m),
  ),
  λ each t m. elim (or_cases (contains xs t) (contains ys t) (sym (contains-union xs ys t) ∙ m)) [
    | inl left ↦ each.0 t left
    | inr right ↦ each.1 t right
  ],
)

abbrev given : Option (List Task) → List Task
given none = []
given (some tasks) = tasks

entry-Within : (tasks killed : List Task) → Within tasks killed ↔ EntryKilled killed (some tasks)
entry-Within tasks killed =
    (λ w ts e t m. w t (ap (λ l. contains l t) (ap given e) ∙ m), λ k. k tasks refl)

-- All that is in one of the four entries is killed.
abbrev EachKilled : (killed : List Task) (h u d r : Option (List Task)) → Type 0
EachKilled killed h u d r =
    EntryKilled killed h × EntryKilled killed u × EntryKilled killed d × EntryKilled killed r

four-Within :
    (h u d r : Option (List Task)) (tasks killed : List Task)
    → four h u d r ≡ ok tasks
    → Within tasks killed ↔ EachKilled killed h u d r
four-Within none u d r tasks killed e = cc
four-Within (some h) none d r tasks killed e = cc
four-Within (some h) (some u) none r tasks killed e = cc
four-Within (some h) (some u) (some d) none tasks killed e = cc
four-Within (some h) (some u) (some d) (some r) tasks killed e =
    let all = ok_injective e in
    let of = entry-Within in
    let hud_r = union-Within (union (union h u) d) r killed in
    let hu_d = union-Within (union h u) d killed in
    let h_u = union-Within h u killed in
    (
      λ w.
          let (hud, at_r) = hud_r.0 (λ t m. w t (ap (λ l. contains l t) (sym all) ∙ m)) in
          let (hu, at_d) = hu_d.0 hud in
          let (at_h, at_u) = h_u.0 hu in
          ((of h killed).0 at_h, (of u killed).0 at_u, (of d killed).0 at_d, (of r killed).0 at_r),
      λ each t m.
          hud_r.1
            (
              hu_d.1
                  (h_u.1 ((of h killed).1 each.0, (of u killed).1 each.1), (of d killed).1 each.2),
              (of r killed).1 each.3,
            )
            t (ap (λ l. contains l t) all ∙ m),
    )

module _ (old : OldTasks) (jobid : Text) (killed : List Task) where
  Finished-iff :
      (app : Text) (tasks : List Task)
      → (app == (b'/' ∷ jobid)) ≡ false
      → tasks_of_app old app ≡ ok tasks
      → (nat_beq (length (diff tasks killed)) 0 ≡ true) ↔ Finished old jobid killed app
  unfolding tasks_of_app
  Finished-iff app tasks is_old known =
      let each = four-Within _ _ _ _ tasks killed known in
      (
        λ gone.
            let (h, u, d, r) = each.0 ((gone_iff tasks killed).0 gone) in
            record { is_old = is_old; happy = h; unhappy = u; draining = d; at_risk = r },
        λ f. (gone_iff tasks killed).1 (each.1 (f.happy, f.unhappy, f.draining, f.at_risk)),
      )

  -- Whether an app is among those that are listed and finished.
  abbrev Removed : Text → AppTasks → Type 0
  Removed app apps = (contains (keys apps) app ≡ true) × Finished old jobid killed app

  listed_one :
      (a app : Text) (apps : AppTasks) (tasks : List Task) (later : List Text)
      → Finished old jobid killed a
      → (contains later app ≡ true) ↔ Removed app apps
      → (contains (a ∷ later) app ≡ true) ↔ Removed app ((a, tasks) ∷ apps)
  listed_one a app apps tasks later done ih = (
    λ m. elim (or_cases (app == a) (contains later app) m) [
      | inl same ↦ (or_left _ same, rw ((text_beq_iff app a).0 same) done)
      | inr more ↦ let (found, f) = ih.0 more in (or_right (app == a) found, f)
    ],
    λ r. elim (or_cases (app == a) (contains (keys apps) app) r.0) [
      | inl same ↦ or_left _ same
      | inr found ↦ or_right (app == a) (ih.1 (found, r.1))
    ],
  )

  skipped_one :
      (a app : Text) (apps : AppTasks) (tasks : List Task) (later : List Text)
      → (Finished old jobid killed a → ⊥)
      → (contains later app ≡ true) ↔ Removed app apps
      → (contains later app ≡ true) ↔ Removed app ((a, tasks) ∷ apps)
  skipped_one a app apps tasks later not_done ih = (
    λ m. let (found, f) = ih.0 m in (or_right (app == a) found, f),
    λ r. elim (or_cases (app == a) (contains (keys apps) app) r.0) [
      | inl same ↦ absurd (not_done (rw (← (text_beq_iff app a).0 same) r.1))
      | inr found ↦ ih.1 (found, r.1)
    ],
  )

  pub find_apps_to_kill-Finished :
      (apps : AppTasks) (ks : List Text) (app : Text)
      → find_apps_to_kill old jobid killed apps ≡ ok ks
      → (contains ks app ≡ true)
        ↔ ((contains (keys apps) app ≡ true) × Finished old jobid killed app)
  unfolding find_apps_to_kill
  find_apps_to_kill-Finished [] ks app e =
      (λ m. cc (ap (λ l. contains l app) (ok_injective e)), λ r. cc (r.0))
  find_apps_to_kill-Finished ((a, tasks) ∷ apps) ks app e =
      elim (Bool-cases (a == (b'/' ∷ jobid))) [
        | inl new ↦
            skipped_one a app apps tasks ks (λ f. cc (new, f.is_old))
              (find_apps_to_kill-Finished apps ks app (rw new at e))
        | inr is_old ↦ elim (Result-cases (tasks_of_app old a)) [
          | inr (x, unknown) ↦ cc (rw (is_old, unknown) at e)
          | inl (found, known) ↦ elim (Result-cases (find_apps_to_kill old jobid killed apps)) [
            | inr (x, failed) ↦ cc (rw (is_old, known, failed) at e)
            | inl (later, returned) ↦
                let ih = find_apps_to_kill-Finished apps later app returned in
                let done = Finished-iff a found is_old known in
                elim (Bool-cases (nat_beq (length (diff found killed)) 0)) [
                  | inl gone ↦
                      let same : a ∷ later ≡ ks =
                        ok_injective (rw (is_old, known, returned, gone) at e) in
                      rw (← same) (listed_one a app apps tasks later (done.0 gone) ih)
                  | inr left ↦
                      let same : later ≡ ks =
                        ok_injective (rw (is_old, known, returned, left) at e) in
                      rw (← same) (skipped_one a app apps tasks later (λ f. cc (left, done.1 f)) ih)
                ]
          ]
        ]
      ]
