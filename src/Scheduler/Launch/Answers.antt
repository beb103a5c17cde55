-- ===== src/Scheduler/Launch/Answers.antt =====
-- The answers to the offers that resourceOffers is given.
use paasta.Prelude.{
  ℕ, ◌≡◌, refl, ap, ◌∙◌, inl, inr, Text, Bool, List, [], ◌∷◌, Result, ok, Bool-cases,
}
use paasta.Effects.{Oracle}
use paasta.Effects.Stateful.{compute, >>=-eq-ok, ◌>>=◌}
use paasta.Scheduler.{
  Call, accept_offers, decline_offer, TaskInfo, World, ask, within_reconcile_backoff,
}
use paasta.Scheduler.Launch.{
  Offer, Random, answer_offer, decline_all, resource_offers, start_all, start_task, use_offers,
}

-- The offers that the calls answer.
abbrev pub answered : List Call → List Text
answered [] = []
answered (decline_offer id ∷ h) = id ∷ answered h
answered (accept_offers id tasks ∷ h) = id ∷ answered h
answered (c ∷ h) = answered h

-- The ids of the offers before those of `ids`, the last one first.
abbrev pub answers_of : List Offer → List Text → List Text
answers_of [] ids = ids
answers_of (o ∷ os) ids = answers_of os (o.id ∷ ids)

module _ (oracle : Oracle Call) (random : Random) where
  answered-answer_offer :
      (o : Offer) (tasks : List TaskInfo) (w : World)
      → answered (answer_offer random oracle o tasks w).1.sent ≡ o.id ∷ answered w.sent
  unfolding ask
  answered-answer_offer o [] w = refl
  answered-answer_offer o (t ∷ ts) w = refl

  -- start_task makes no call.
  sent-start_task :
      (o : Offer) (w : World) {tasks : List TaskInfo}
      → (start_task random o w).0 ≡ ok tasks
      → (start_task random o w).1.sent ≡ w.sent
  unfolding start_task
  sent-start_task o w returned =
      let (name, named, rest, same) =
        >>=-eq-ok (compute (λ (u : World). u.scheduler.config.base_name)) (start_all random o) w
          returned in
      ap (λ (p : Result (List TaskInfo) × World). p.1.sent) same

  answered-decline_all :
      (os : List Offer) (w : World) {b : Bool}
      → (decline_all random oracle os w).0 ≡ ok b
      → answered (decline_all random oracle os w).1.sent ≡ answers_of os (answered w.sent)
  unfolding ask
  answered-decline_all [] w returned = refl
  answered-decline_all (o ∷ os) w returned =
      let (a, declined, rest, same) =
        >>=-eq-ok (ask oracle (decline_offer o.id)) (λ _. decline_all random oracle os) w
          returned in
      ap (λ (p : Result Bool × World). answered p.1.sent) same ∙ answered-decline_all os _ rest

  answered-use_offers :
      (os : List Offer) (w : World) {b : Bool}
      → (use_offers random oracle os w).0 ≡ ok b
      → answered (use_offers random oracle os w).1.sent ≡ answers_of os (answered w.sent)
  answered-use_offers [] w returned = refl
  answered-use_offers (o ∷ os) w returned =
      let (a, used, rest, same) =
        >>=-eq-ok (start_task random o >>= answer_offer random oracle o)
          (λ _. use_offers random oracle os) w returned in
      let (tasks, started, answer, same') =
        >>=-eq-ok (start_task random o) (answer_offer random oracle o) w used in
      ap (λ (p : Result Bool × World). answered p.1.sent) same
      ∙ answered-use_offers os _ rest
      ∙ ap (answers_of os) (
          ap (λ (p : Result Bool × World). answered p.1.sent) same'
          ∙ answered-answer_offer o tasks _
          ∙ ap (λ h. o.id ∷ answered h) (sent-start_task o w started))

-- Where resourceOffers returns, it has answered each offer once, in their order: it declined or
-- accepted it.
answered-resource_offers :
    (oracle : Oracle Call) (random : Random) (now : ℕ) (os : List Offer) (w : World) (b : Bool)
    → (resource_offers random oracle now os w).0 ≡ ok b
    → answered (resource_offers random oracle now os w).1.sent ≡ answers_of os (answered w.sent)
unfolding resource_offers
answered-resource_offers oracle random now os w b returned =
    elim (Bool-cases (within_reconcile_backoff now w.scheduler)) [
      | inl within ↦ rw within (answered-decline_all oracle random os w (rw within at returned))
      | inr past ↦ rw past (answered-use_offers oracle random os w (rw past at returned))
    ]
