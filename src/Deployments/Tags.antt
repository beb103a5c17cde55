-- ===== src/Deployments/Tags.antt =====
-- The tag that get_latest_deployment_tag chooses.
use paasta.Prelude.{
  text_leb, text_leb_refl, text_leb_trans, text_leb_total, ◌≡◌, refl, sym, ap, ◌∙◌, ◌⊎◌, inl, inr,
  Text, text_eq, true, Option, none, some, [], ◌∷◌, Bool-cases, Option-cases,
}
use mathlib.Core.List.{Memᴰ}
use paasta.Deployments.{
  Latest, Refs, deploy_time, get_latest_deployment_tag, is_later, latest_loop, take_later,
  without_time,
}

-- The time of what was found is at or after the given one.
pub data IsAfter (t : Text) : Latest → Type 0 where
  is_after : {t' ref sha : Text} → text_leb t t' ≡ true → IsAfter t (some (t', ref, sha))

IsAfter-later :
    (t u : Text) (latest : Latest) → text_leb t u ≡ true → IsAfter u latest → IsAfter t latest
IsAfter-later t u _ tu (is_after {t'} h) = is_after (text_leb_trans t u t' tu h)

pair_path : {a a' b b' : Text} → a ≡ a' → b ≡ b' → ◌≡◌ {A = Text × Text} (a, b) (a', b')
pair_path p q = λ i. (p i, q i)

module _ (group : Text) where
  take_later-keeps :
      (t : Text) (found : Option Text) (ref sha : Text) (latest : Latest)
      → IsAfter t latest
      → IsAfter t (take_later found ref sha latest)
  take_later-keeps t none ref sha latest h = h
  take_later-keeps t (some dtime) ref sha _ (is_after {t'} h) =
      elim (Bool-cases (text_leb dtime t')) [
        | inl not_later ↦ rw not_later (is_after h)
        | inr later ↦
            rw later (is_after (text_leb_trans t t' dtime h (text_leb_total dtime t' later)))
      ]

  take_later-IsAfter :
      (dtime ref sha : Text) (latest : Latest)
      → IsAfter dtime (take_later (some dtime) ref sha latest)
  take_later-IsAfter dtime ref sha none = is_after (text_leb_refl dtime)
  take_later-IsAfter dtime ref sha (some (t, r, s)) = elim (Bool-cases (text_leb dtime t)) [
    | inl not_later ↦ rw not_later (is_after not_later)
    | inr later ↦ rw later (is_after (text_leb_refl dtime))
  ]

  latest_loop-keeps :
      (t : Text) (refs : Refs) (latest : Latest)
      → IsAfter t latest
      → IsAfter t (latest_loop group refs latest)
  latest_loop-keeps t [] latest h = h
  latest_loop-keeps t ((ref, sha) ∷ refs) latest h =
      latest_loop-keeps t refs _ (take_later-keeps t (deploy_time group ref) ref sha latest h)

  latest_loop-IsAfter :
      (refs : Refs) (latest : Latest) (ref sha t : Text)
      → Memᴰ (ref, sha) refs
      → deploy_time group ref ≡ some t
      → IsAfter t (latest_loop group refs latest)
  latest_loop-IsAfter [] latest ref sha t there timed = elim there [ ]
  latest_loop-IsAfter ((r, s) ∷ refs) latest ref sha t (Memᴰ.head here) timed =
      let timed_here : deploy_time group r ≡ some t =
        sym (ap (λ (x : Text × Text). deploy_time group x.0) here) ∙ timed in
      latest_loop-keeps t refs _ (rw timed_here (take_later-IsAfter t r s latest))
  latest_loop-IsAfter ((r, s) ∷ refs) latest ref sha t (Memᴰ.tail there) timed =
      latest_loop-IsAfter refs _ ref sha t there timed

  -- What the loop finds is one of the refs, with its time, or what it started from.
  latest_loop-source :
      (refs : Refs) (latest : Latest) (t ref sha : Text)
      → latest_loop group refs latest ≡ some (t, ref, sha)
      → (latest ≡ some (t, ref, sha)) ⊎ (Memᴰ (ref, sha) refs × (deploy_time group ref ≡ some t))
  latest_loop-source [] latest t ref sha e = inl e
  latest_loop-source ((r, s) ∷ refs) latest t ref sha e =
      elim (latest_loop-source refs (take_later (deploy_time group r) r s latest) t ref sha e) [
        | inl taken ↦ split_on (deploy_time group r) refl taken
        | inr (there, timed) ↦ inr (Memᴰ.tail there, timed)
      ]
    where
      split_on :
          (found : Option Text)
          → deploy_time group r ≡ found
          → take_later found r s latest ≡ some (t, ref, sha)
          → (latest ≡ some (t, ref, sha))
            ⊎ (Memᴰ (ref, sha) ((r, s) ∷ refs) × (deploy_time group ref ≡ some t))
      split_on none timed taken = inl taken
      split_on (some dtime) timed taken = elim (Bool-cases (is_later dtime latest)) [
        | inr earlier ↦ inl (rw earlier at taken)
        | inl later ↦
            let same : ◌≡◌ {A = Latest} (some (dtime, r, s)) (some (t, ref, sha)) =
              rw later at taken in
            let same_time : dtime ≡ t = cc in
            let same_ref : ref ≡ r = cc in
            let same_sha : sha ≡ s = cc in
            inr (
              Memᴰ.head (pair_path same_ref same_sha),
              ap (deploy_time group) same_ref ∙ timed ∙ ap some same_time,
            )
      ]

nothing_after : {t : Text} → IsAfter t none → ⊥
nothing_after h = elim h [ ]

time_after : {t t' ref sha : Text} → IsAfter t (some (t', ref, sha)) → text_leb t t' ≡ true
time_after (is_after h) = h

-- What get_latest_deployment_tag finds is a tag of the deploy group, and no tag of the deploy group has a
-- later time. Where it finds none, there is none.
pub data Chosen (group : Text) (refs : Refs) : Option (Text × Text) → Type 0 where
  latest :
      {t ref sha : Text}
      → Memᴰ (ref, sha) refs
      → deploy_time group ref ≡ some t
      → ((ref' sha' t' : Text)
          → Memᴰ (ref', sha') refs
          → deploy_time group ref' ≡ some t'
          → text_leb t' t ≡ true)
      → Chosen group refs (some (ref, sha))
  no_tag :
      ((ref sha : Text) → Memᴰ (ref, sha) refs → deploy_time group ref ≡ none)
      → Chosen group refs none

pub get_latest_deployment_tag-Chosen :
    (refs : Refs) (group : Text) → Chosen group refs (get_latest_deployment_tag refs group)
unfolding get_latest_deployment_tag
get_latest_deployment_tag-Chosen refs group = split_on (latest_loop group refs none) refl
  where
    split_on : (l : Latest) → latest_loop group refs none ≡ l → Chosen group refs (without_time l)
    split_on none e = no_tag λ ref sha there. elim (Option-cases (deploy_time group ref)) [
      | inl untimed ↦ untimed
      | inr (t, timed) ↦
          absurd
            (nothing_after (rw e at (latest_loop-IsAfter group refs none ref sha t there timed)))
    ]
    split_on (some (t, ref, sha)) e = elim (latest_loop-source group refs none t ref sha e) [
      | inl not_found ↦ cc
      | inr (there, timed) ↦ latest there timed λ ref' sha' t' there' timed'.
          time_after (rw e at (latest_loop-IsAfter group refs none ref' sha' t' there' timed'))
    ]
