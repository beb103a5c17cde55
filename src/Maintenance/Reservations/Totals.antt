-- ===== src/Maintenance/Reservations/Totals.antt =====
-- What is free on a slave and what is reserved of it.
use paasta.Prelude.{
  ℕ, ◌+◌, ◌≡◌, ap, ◌∙◌, List, [], ◌∷◌, Text, arith, ℤ, pos, minus, plus, plus-minus,
}
use paasta.Maintenance.Reservations.{Amounts, Kind, amount, Slave, minus_reserved, free_resource}

abbrev pub sum_reserved : Kind → List (Text × Amounts) → ℕ
sum_reserved kind [] = 0
sum_reserved kind ((role, reserved) ∷ roles) = amount kind reserved + sum_reserved kind roles

plus-minus_reserved :
    (kind : Kind) (z : ℤ) (roles : List (Text × Amounts)) (k : ℕ)
    → plus (minus_reserved kind z roles) (sum_reserved kind roles + k) ≡ plus z k
plus-minus_reserved kind z [] k = ap (plus z) (omega arith)
plus-minus_reserved kind z ((role, r) ∷ roles) k =
    ap (plus (minus_reserved kind (minus z (amount kind r)) roles)) (omega arith)
    ∙ plus-minus_reserved kind (minus z (amount kind r)) roles (amount kind r + k)
    ∙ plus-minus z (amount kind r) k

-- What is reserved of a resource, with what is in use and what the roles have reserved before, is
-- all that the slave has, also where it is overcommitted and the amount is negative.
plus-free_resource :
    (slave : Slave) (kind : Kind)
    → plus
        (free_resource slave kind)
        (sum_reserved kind slave.reserved_resources + amount kind slave.used_resources)
      ≡ pos (amount kind slave.resources)
unfolding free_resource
plus-free_resource slave kind =
    plus-minus_reserved kind _ slave.reserved_resources (amount kind slave.used_resources)
    ∙ ap (plus (minus (pos (amount kind slave.resources)) (amount kind slave.used_resources)))
        (omega arith)
    ∙ plus-minus (pos (amount kind slave.resources)) (amount kind slave.used_resources) 0
    ∙ ap pos (omega arith)
