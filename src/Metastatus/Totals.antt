-- ===== src/Metastatus/Totals.antt =====
-- The totals over the groups of slaves in paasta_tools/metrics/metastatus_lib.py.
use paasta.Prelude.{
  ◌≡◌, refl, sym, ap, ◌∙◌, inl, inr, Text, text_eq, ◌==◌, List, [], ◌∷◌, map, place, sort_by,
  Result, ok, ok_injective, >>=-eq-ok, Bool-cases, arith,
}
use paasta.Metastatus.{
  MesosTask, ResourceInfo, Slave, Utilization, added, by_key,
  calculate_resource_utilization_for_slaves, get_resource_utilization_by_grouping, group_by,
  group_slaves_by_key_func, has_registered_slaves, join_run, no_resources, sum_of, total_of,
  utilizations, with_keys,
}
use paasta.Metastatus.Grouping.{grouped_dict}

added_assoc : (a b c : ResourceInfo) → added (added a b) c ≡ added a (added b c)
added_assoc a b c = ground arith

added_swap : (a b c : ResourceInfo) → added a (added b c) ≡ added b (added a c)
added_swap a b c = ground arith

alone : (a b : ResourceInfo) → added (added a no_resources) b ≡ added a b
alone a b = ground arith

-- The resources of the slaves of pairs, and of the groups of a dict.
abbrev of_keyed : List (Text × Slave) → ResourceInfo
of_keyed keyed = sum_of (map (λ (x : Text × Slave). x.1.resources) keyed)

abbrev of_groups : List (Text × List Slave) → ResourceInfo
of_groups groups = sum_of (map (λ (g : Text × List Slave). total_of g.1) groups)

of_keyed-place :
    (x : Text × Slave) (xs : List (Text × Slave))
    → of_keyed (place by_key x xs) ≡ added x.1.resources (of_keyed xs)
of_keyed-place x [] = refl
of_keyed-place x (y ∷ ys) = elim (Bool-cases (by_key x y)) [
  | inl first ↦ rw first refl
  | inr after ↦
      rw (after, of_keyed-place x ys) (added_swap y.1.resources x.1.resources (of_keyed ys))
]

of_keyed-sort_by : (xs : List (Text × Slave)) → of_keyed (sort_by by_key xs) ≡ of_keyed xs
of_keyed-sort_by [] = refl
of_keyed-sort_by (x ∷ xs) =
    of_keyed-place x (sort_by by_key xs) ∙ ap (added x.1.resources) (of_keyed-sort_by xs)

of_groups-join_run :
    (x : Text × Slave) (runs : List (Text × List Slave))
    → of_groups (join_run x runs) ≡ added x.1.resources (of_groups runs)
of_groups-join_run x [] = alone x.1.resources no_resources
of_groups-join_run x ((j, ys) ∷ runs) = elim (Bool-cases (j == x.0)) [
  | inl same ↦ rw same (added_assoc x.1.resources (total_of ys) (of_groups runs))
  | inr new ↦ rw new (alone x.1.resources (added (total_of ys) (of_groups runs)))
]

of_groups-group_by : (xs : List (Text × Slave)) → of_groups (group_by xs) ≡ of_keyed xs
of_groups-group_by [] = refl
of_groups-group_by (x ∷ xs) =
    of_groups-join_run x (group_by xs) ∙ ap (added x.1.resources) (of_groups-group_by xs)

of_keyed-with_keys :
    (key_func : Slave → Result Text) (slaves : List Slave) (keyed : List (Text × Slave))
    → with_keys key_func slaves ≡ ok keyed
    → of_keyed keyed ≡ total_of slaves
unfolding with_keys
of_keyed-with_keys key_func [] keyed e = ap of_keyed (sym (ok_injective e))
of_keyed-with_keys key_func (s ∷ slaves) keyed e =
    let (key, here, rest) = >>=-eq-ok (key_func s) _ e in
    let (more, there, joined) = >>=-eq-ok (with_keys key_func slaves) _ rest in
    ap of_keyed (sym (ok_injective joined))
    ∙ ap (added s.resources) (of_keyed-with_keys key_func slaves more there)

totals-utilizations :
    (tasks : List MesosTask) (groups : List (Text × List Slave))
    → sum_of (map (λ (u : Text × Utilization). u.1.total) (utilizations tasks groups))
      ≡ of_groups groups
unfolding calculate_resource_utilization_for_slaves
totals-utilizations tasks [] = refl
totals-utilizations tasks ((k, slaves) ∷ groups) =
    ap (added (total_of slaves)) (totals-utilizations tasks groups)

-- Whatever slaves are grouped by, the totals of the groups add up to the resources of all slaves.
pub totals-get_resource_utilization_by_grouping :
    (grouping_func : Slave → Result Text) (slaves : List Slave) (tasks : List MesosTask)
    (groups : List (Text × Utilization))
    → get_resource_utilization_by_grouping grouping_func slaves tasks ≡ ok groups
    → sum_of (map (λ (u : Text × Utilization). u.1.total) groups) ≡ total_of slaves
unfolding get_resource_utilization_by_grouping group_slaves_by_key_func
totals-get_resource_utilization_by_grouping grouping_func slaves tasks groups e =
    elim (Bool-cases (has_registered_slaves slaves)) [
      | inr no_slaves ↦ cc (rw no_slaves at e)
      | inl some_slaves ↦
          let (dict, grouped, made) =
            >>=-eq-ok (group_slaves_by_key_func grouping_func slaves) _ (rw some_slaves at e) in
          let (keyed, with_them, built) = >>=-eq-ok (with_keys grouping_func slaves) _ grouped in
          ap (λ l. sum_of (map (λ (u : Text × Utilization). u.1.total) l)) (sym (ok_injective made))
          ∙ totals-utilizations tasks dict
          ∙ ap of_groups (sym (ok_injective built) ∙ grouped_dict keyed)
          ∙ of_groups-group_by (sort_by by_key keyed)
          ∙ of_keyed-sort_by keyed
          ∙ of_keyed-with_keys grouping_func slaves keyed with_them
    ]
