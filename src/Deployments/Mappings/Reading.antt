-- ===== src/Deployments/Mappings/Reading.antt =====
-- What is read of the deployments.json that generate_deployments_for_service writes.
use paasta.Prelude.{
  ◌≡◌, refl, sym, ap, ◌∙◌, inl, inr, Text, text_eq, text_beq_iff, codes, Bool, true, false, ◌&&◌,
  ◌==◌, beq_sym, Option, none, some, List, [], ◌∷◌, ◌++◌, ok, ok_injective, lookup, lookup-insert,
  lookup-insert_self, insert, and_parts, Bool-cases,
}
use paasta.Deployments.{Refs, build_docker_image_name, get_desired_state, get_latest_deployment_tag}
use paasta.Deployments.Mappings.{
  Mapping, Mappings, branch_alias, commit_of, dict_of, fill, generate_deployments_for_service,
  get_branch_dict, get_deploy_group_mappings, map_branches, map_commit, mappings_unless_none,
  no_mappings, unpacked,
}

-- What a branch of a deploy group is to run: the image of the commit of the group's latest tag, in the
-- state that the tags of that commit ask for; nothing where there is no such tag.
abbrev wanted_of : Text → Refs → Text → Text → Option Text → Option Mapping
wanted_of service refs branch group none = none
wanted_of service refs branch group (some sha) =
    let (state, force_bounce) = get_desired_state branch refs group in
    some (record {
      docker_image = build_docker_image_name service sha;
      desired_state = state;
      force_bounce = force_bounce;
    })

abbrev pub wanted : Text → Refs → Text → Text → Option Mapping
wanted service refs branch group =
    wanted_of service refs branch group (commit_of refs (get_latest_deployment_tag refs group))

abbrev is_none : Option Text → Bool
is_none none = true
is_none (some x) = false

-- No key is listed twice.
abbrev distinct : List (Text × Text) → Bool
distinct [] = true
distinct ((k, v) ∷ d) = is_none (lookup k d) && distinct d

is_none→ : (o : Option Text) → is_none o ≡ true → o ≡ none
is_none→ none h = refl
is_none→ (some x) h = cc

distinct-insert :
    (k v : Text) (d : List (Text × Text)) → distinct d ≡ true → distinct (insert k v d) ≡ true
unfolding insert lookup
distinct-insert k v [] h = refl
distinct-insert k v ((j, w) ∷ d) h =
    let (missing, rest) = and_parts (is_none (lookup j d)) (distinct d) h in
    elim (Bool-cases (j == k)) [
      | inl same ↦ rw (same, ← (ap (λ i. lookup i d) ((text_beq_iff j k).0 same)), missing) rest
      | inr other ↦
          rw (other, lookup-insert k j v d, beq_sym k j, other, missing)
            (distinct-insert k v d rest)
    ]

distinct-fill : (pairs d : List (Text × Text)) → distinct d ≡ true → distinct (fill pairs d) ≡ true
distinct-fill [] d h = h
distinct-fill ((k, v) ∷ pairs) d h = distinct-fill pairs (insert k v d) (distinct-insert k v d h)

append_cancel : (s t u : Text) → (s ++ t) ≡ (s ++ u) → t ≡ u
append_cancel [] t u e = e
append_cancel (a ∷ s) t u e = append_cancel s t u (tail_eq e)
  where
    tail_of : Text → Text
    tail_of [] = []
    tail_of (c ∷ s') = s'

    tail_eq : {x y : Text} → (a ∷ x) ≡ (a ∷ y) → x ≡ y
    tail_eq same = ap tail_of same

-- Two branches of a service have different aliases.
alias_apart :
    (service b c : Text)
    → (b == c) ≡ false
    → (branch_alias service b == branch_alias service c) ≡ false
alias_apart service b c apart =
    elim (Bool-cases (branch_alias service b == branch_alias service c)) [
      | inr other ↦ other
      | inl same ↦
          let same_end : (codes ":paasta-" ++ b) ≡ (codes ":paasta-" ++ c) =
            append_cancel service (codes ":paasta-" ++ b) (codes ":paasta-" ++ c)
              ((text_beq_iff (branch_alias service b) (branch_alias service c)).0 same) in
          let equal : b ≡ c = append_cancel (codes ":paasta-") b c same_end in
          cc (apart, (text_beq_iff b c).1 equal)
    ]

module _ (service : Text) (refs : Refs) where
  abbrev read : Mappings → Text → Option Mapping
  read m branch = lookup (branch_alias service branch) m.v1

  abbrev or_before : Option Mapping → Option Mapping → Option Mapping
  or_before none before = before
  or_before (some x) before = some x

  read-map_commit_self :
      (branch group : Text) (found : Option Text) (m : Mappings)
      → read (map_commit service refs branch group found m) branch
        ≡ or_before (wanted_of service refs branch group found) (read m branch)
  read-map_commit_self branch group none m = refl
  read-map_commit_self branch group (some sha) m =
      lookup-insert_self (branch_alias service branch) _ m.v1

  read-map_commit_other :
      (branch group other : Text) (found : Option Text) (m : Mappings)
      → (branch == other) ≡ false
      → read (map_commit service refs branch group found m) other ≡ read m other
  read-map_commit_other branch group other none m apart = refl
  read-map_commit_other branch group other (some sha) m apart =
      lookup-insert (branch_alias service branch) (branch_alias service other) _ m.v1
      ∙ rw (alias_apart service branch other apart) refl

  abbrev pub expected : Option Text → Text → Option Mapping
  expected none branch = none
  expected (some group) branch = wanted service refs branch group

  read-map_branches :
      (items : List (Text × Text)) (m : Mappings) (branch : Text)
      → distinct items ≡ true
      → read (map_branches service refs items m) branch
        ≡ or_before (expected (lookup branch items) branch) (read m branch)
  unfolding lookup
  read-map_branches [] m branch h = refl
  read-map_branches ((b, group) ∷ items) m branch h =
      let (missing, rest) = and_parts (is_none (lookup b items)) (distinct items) h in
      let found = commit_of refs (get_latest_deployment_tag refs group) in
      let after = map_commit service refs b group found m in
      elim (Bool-cases (b == branch)) [
        | inl same ↦
            let eq : b ≡ branch = (text_beq_iff b branch).0 same in
            let none_later : lookup b items ≡ none = is_none→ (lookup b items) missing in
            rw (same, ← eq)
              (read-map_branches items after b rest
                ∙ ap (λ o. or_before (expected o b) (read after b)) none_later
                ∙ read-map_commit_self b group found m)
        | inr other ↦ rw other (
            read-map_branches items after branch rest
            ∙ ap (or_before (expected (lookup branch items) branch))
                (read-map_commit_other b group branch found m other))
      ]

  read-all :
      (items : List (Text × Text)) (branch : Text)
      → distinct items ≡ true
      → read (map_branches service refs items no_mappings) branch
        ≡ expected (lookup branch items) branch
  unfolding lookup
  read-all items branch h =
      read-map_branches items no_mappings branch h
      ∙ or_nothing (expected (lookup branch items) branch)
    where
      or_nothing : (o : Option Mapping) → or_before o none ≡ o
      or_nothing none = refl
      or_nothing (some x) = refl

all_mapped :
    (service : Text) (refs : Refs) (m : Mappings) (items : List (Text × Text))
    → unpacked (mappings_unless_none service refs items) ≡ ok m
    → ok (map_branches service refs items no_mappings) ≡ ok m
all_mapped service refs m [] written = cc
all_mapped service refs m (item ∷ items) written = written

-- What is written for a service with configured instances and then read for one of its branches: with the
-- deploy group of the branch's last config, the image of the commit of the group's latest tag and the
-- state that the tags of that commit ask for, and nothing for a branch that is not configured or whose
-- group has no tag.
pub get_branch_dict-generate :
    (service : Text) (configs : List (Text × Text)) (refs : Refs) (m : Mappings) (branch : Text)
    → generate_deployments_for_service service configs refs ≡ ok m
    → get_branch_dict m.v1 service branch
      ≡ expected service refs (lookup branch (dict_of configs)) branch
unfolding get_branch_dict generate_deployments_for_service get_deploy_group_mappings
get_branch_dict-generate service configs refs m branch written =
    ap (λ (n : Mappings). lookup (branch_alias service branch) n.v1)
      (sym (ok_injective (all_mapped service refs m (dict_of configs) written)))
    ∙ read-all service refs (dict_of configs) branch (distinct-fill configs [] refl)
