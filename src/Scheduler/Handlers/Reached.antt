-- ===== src/Scheduler/Handlers/Reached.antt =====
-- The states that the callbacks of the native scheduler reach.
use paasta.Prelude.{
  ℕ, ◌≡◌, refl, length, ◌∙◌, Text, text_eq, true, List, [], ◌∷◌, Result, ok, lookup, if◌then◌else◌,
  arith,
}
use paasta.Effects.{Oracle}
use paasta.Effects.Stateful.{
  ◌>>=◌, ◌>>◌, Keeps, Keeps-result, Keeps-update, Keeps-if, Keeps-bind, Keeps-seq, Keeps-compute,
  Keeps-read, compute, lift, read, update, pure,
}
use paasta.Scheduler.{
  within_reconcile_backoff, revive_offers, decline_offer, accept_offers, reconcile_tasks, TaskInfo,
  Call, Config, World, ask,
}
use paasta.Scheduler.Launch.{
  start_all, take_launch, unlaunched, use_offers, answer_offer, decline_all, Resource, Launch,
  Offer, Random, resource_offers, start_named, start_task, add_resources, add_resource, offered,
}
use paasta.Scheduler.Round.{kill_tasks_if_necessary}
use paasta.Scheduler.Handlers.{
  set_framework_id, set_reconcile_start_time, set_config, load_config, revive_unless_within, Step,
  Steps, registers, offers, updates, ticks, start, next, periodic, registered,
}
use paasta.Scheduler.Handlers.Ended.{Asked, NoneEnded, launch_loop-NoneEnded, nothing}
use paasta.Scheduler.Handlers.Tracked.{
  Live, ask-Live, kill_tasks_if_necessary-Live, status_update-Live,
}

module _ (oracle : Oracle Call) where
  Live-scheduler :
      (f : World → World)
      → ((w : World)
          → ((f w).scheduler.tasks_with_flags ≡ w.scheduler.tasks_with_flags)
            × ((f w).sent ≡ w.sent))
      → Keeps (Live oracle) (update f)
  Live-scheduler f same = record {
    at = λ w live.
        let (tasks, sent) = same w in
        record { none_ended = rw tasks live.none_ended; asked = rw sent live.asked };
  }

  registered-Live : (now : ℕ) (id : Text) → Keeps (Live oracle) (registered oracle now id)
  unfolding registered
  registered-Live now id =
      Keeps-seq (update (set_framework_id id) >> update (set_reconcile_start_time now))
        (ask oracle (reconcile_tasks []))
        (Keeps-seq (update (set_framework_id id)) (update (set_reconcile_start_time now))
          (Live-scheduler (set_framework_id id) (λ w. (refl, refl)))
          (Live-scheduler (set_reconcile_start_time now) (λ w. (refl, refl))))
        (ask-Live oracle (reconcile_tasks []) refl)

  load_config-Live : (loaded : Result Config) → Keeps (Live oracle) (load_config loaded)
  load_config-Live loaded =
      Keeps-bind (lift loaded) (λ config. update (set_config config)) (Keeps-result loaded)
        λ config w e. Live-scheduler (set_config config) (λ w'. (refl, refl))

  periodic-Live :
      (now : ℕ) (loaded : Result Config) → Keeps (Live oracle) (periodic oracle now loaded)
  unfolding periodic
  periodic-Live now loaded =
      Keeps-seq (revive_unless_within oracle now >> load_config loaded)
        (kill_tasks_if_necessary oracle)
        (Keeps-seq (revive_unless_within oracle now) (load_config loaded)
          (Keeps-bind (read _) (λ within. if within then pure true else ask oracle revive_offers)
            (Keeps-read (λ w. within_reconcile_backoff now w.scheduler))
            λ within w e.
              Keeps-if within (pure true) (ask oracle revive_offers) (Keeps-result (ok true))
                (ask-Live oracle revive_offers refl))
          (load_config-Live loaded))
        (kill_tasks_if_necessary-Live oracle)

  module _ (random : Random) where
    take_launch-Live :
        (l : Launch) → NoneEnded l.tasks → Keeps (Live oracle) (update (take_launch random l))
    take_launch-Live l ended =
        Keeps-update (take_launch random l)
          λ w live. record { none_ended = ended; asked = live.asked }

    add_resources_tasks : (rs : List Resource) (l : Launch) → (add_resources rs l).tasks ≡ l.tasks
    unfolding add_resources
    add_resources_tasks [] l = refl
    add_resources_tasks (r ∷ rs) l = add_resources_tasks rs (add_resource r l) ∙ same r l
      where
        same : (r : Resource) (l : Launch) → (add_resource r l).tasks ≡ l.tasks
        same r l = ground arith

    start_named-NoneEnded :
        (o : Offer) (name : Text) (w : World)
        → NoneEnded w.scheduler.tasks_with_flags
        → NoneEnded (start_named random o name w).tasks
    unfolding start_named offered
    start_named-NoneEnded o name w ended =
        launch_loop-NoneEnded random w.scheduler.config name o.slave_id
          (length (offered random o w).ports) (offered random o w)
          (rw (add_resources_tasks o.resources (unlaunched random w)) ended)

    start_task-Live : (o : Offer) → Keeps (Live oracle) (start_task random o)
    unfolding start_task
    start_task-Live o =
        Keeps-bind (compute (λ w. w.scheduler.config.base_name)) (start_all random o)
          (Keeps-compute (λ w. w.scheduler.config.base_name))
          λ name w e. record {
            at = λ w' live. record {
              none_ended = start_named-NoneEnded o name w' live.none_ended;
              asked = live.asked;
            };
          }

    use_offers-Live : (os : List Offer) → Keeps (Live oracle) (use_offers random oracle os)
    use_offers-Live [] = Keeps-result (ok true)
    use_offers-Live (o ∷ os) =
        Keeps-seq (start_task random o >>= answer_offer random oracle o)
          (use_offers random oracle os)
          (Keeps-bind (start_task random o) (answer_offer random oracle o) (start_task-Live o)
            λ tasks w e. answers tasks)
          (use_offers-Live os)
      where
        answers : (tasks : List TaskInfo) → Keeps (Live oracle) (answer_offer random oracle o tasks)
        answers [] = ask-Live oracle (decline_offer o.id) refl
        answers (t ∷ ts) = ask-Live oracle (accept_offers o.id (t ∷ ts)) refl

    decline_all-Live : (os : List Offer) → Keeps (Live oracle) (decline_all random oracle os)
    decline_all-Live [] = Keeps-result (ok true)
    decline_all-Live (o ∷ os) =
        Keeps-seq (ask oracle (decline_offer o.id)) (decline_all random oracle os)
          (ask-Live oracle (decline_offer o.id) refl) (decline_all-Live os)

    resource_offers-Live :
        (now : ℕ) (os : List Offer) → Keeps (Live oracle) (resource_offers random oracle now os)
    unfolding resource_offers
    resource_offers-Live now os =
        Keeps-bind (read _)
          (λ within. if within then decline_all random oracle os else use_offers random oracle os)
          (Keeps-read (λ w. within_reconcile_backoff now w.scheduler))
          λ within w e.
            Keeps-if within (decline_all random oracle os) (use_offers random oracle os)
              (decline_all-Live os) (use_offers-Live os)

    Step-Live : (w v : World) → Step oracle random w v → Live oracle w → Live oracle v
    Step-Live w _ (registers now id) live = (registered-Live now id).at w live
    Step-Live w _ (offers now os) live = (resource_offers-Live now os).at w live
    Step-Live w _ (updates tid state) live = (status_update-Live oracle tid state).at w live
    Step-Live w _ (ticks now loaded) live = (periodic-Live now loaded).at w live

    pub Steps-Live : (w v : World) → Steps oracle random w v → Live oracle w → Live oracle v
    Steps-Live w _ start live = live
    Steps-Live w u (next {v} steps step) live = Step-Live v u step (Steps-Live w v steps live)

-- A scheduler that has just been created.
abbrev Fresh : World → Type 0
Fresh w = (w.scheduler.tasks_with_flags ≡ []) × (w.sent ≡ [])

NoneEnded-nil : NoneEnded []
unfolding lookup
NoneEnded-nil tid params found = cc

Fresh-Live : (oracle : Oracle Call) (w : World) → Fresh w → Live oracle w
Fresh-Live oracle w (no_tasks, no_calls) = record {
  none_ended = rw no_tasks NoneEnded-nil;
  asked = rw no_calls nothing;
}

-- Whatever callbacks are made of a new scheduler, and whatever the calls answer or raise, no task is
-- tracked in the state lost, killed, failed or finished.
pub reached_tracks_no_ended :
    (oracle : Oracle Call) (random : Random) (w v : World)
    → Fresh w
    → Steps oracle random w v
    → NoneEnded v.scheduler.tasks_with_flags
reached_tracks_no_ended oracle random w v fresh steps =
    (Steps-Live oracle random w v steps (Fresh-Live oracle w fresh)).none_ended

-- Whatever callbacks are made of a new scheduler, each task that it kills had been reported safe to
-- kill by the call just before.
pub reached_kills_are_checked :
    (oracle : Oracle Call) (random : Random) (w v : World)
    → Fresh w
    → Steps oracle random w v
    → Asked oracle v.sent
reached_kills_are_checked oracle random w v fresh steps =
    (Steps-Live oracle random w v steps (Fresh-Live oracle w fresh)).asked
