-- ===== src/Plans/Service/Reachable.antt =====
-- Every database that the calls make, with what the other services do to the tasks between them.
use pent_ai.Prelude.{
  ℕ, ◌≡◌, ap, subst, inl, inr, not, ◌||◌, ltb, ◌-◌, Option, some, String, List, [], ◌==◌, string_eq,
  nat_eq, arith, Option-cases, lookup, insert, lookup-nil, ok, ◌>>◌, guard, or_fail, >>=-eq-ok,
  ok-injective,
}
use pent_ai.Plans.Tasks.{
  PlanState, Task, command_malformed, command_stale, clock_invalid, command_identity_conflict,
}
use pent_ai.Plans.Tasks.Moves.{Move, still, next}
use pent_ai.Plans.Tasks.Moves.Order.{IsOrdered, Moves-IsOrdered}
use pent_ai.Plans.Service.{
  Graph, Stored, Database, Command, Environment, max_command_age, create, transition, recover,
  interrupted, recover_plans,
}
use pent_ai.Plans.Service.Refinement.{transition-Rewrites}
use pent_ai.Plans.Service.Recovery.{
  AllOrdered, AllOrdered-insert, Rewrites-AllOrdered, recover_plans-AllOrdered,
}
use pent_ai.Plans.Service.Creation.{create-AllOrdered}

-- The databases that calls make from an empty one. Another service moves a task of a plan, and writes
-- the state and the revision of the plan, whatever they are.
pub data Reach (env : Environment) : Database → Type 0 where
  empty : Reach env (record { plans = []; commands = []; recovery_failures = [] })
  created :
      {db db' : Database} (graph result : Graph)
      → Reach env db
      → create env graph db ≡ ok (db', result)
      → Reach env db'
  transitioned :
      {db db' : Database} (clock : Option ℕ) (command : Command) (result : Graph)
      → Reach env db
      → transition env clock command db ≡ ok (db', result)
      → Reach env db'
  recovered :
      {db db' : Database} (clock : Option ℕ) (ids : List String)
      → Reach env db
      → recover clock db ≡ ok (db', ids)
      → Reach env db'
  moved_elsewhere :
      {db : Database} (id : String) (stored : Stored) (tasks : List Task) (state : PlanState)
      (revision : ℕ)
      → Reach env db
      → lookup id db.plans ≡ some stored
      → Move stored.graph.dependencies stored.graph.tasks tasks
      → Reach env (record db {
        plans =
            insert id
              (record stored {
                graph = record stored.graph { tasks = tasks; state = state; revision = revision };
              })
              db.plans;
      })

-- A command that was seen before changes nothing.
transition_again :
    (env : Environment) (clock : Option ℕ) (command : Command) (result : Graph) (db db' : Database)
    → (digest : String) (graph : Graph)
    → lookup command.command_id db.commands ≡ some (digest, graph)
    → transition env clock command db ≡ ok (db', result)
    → db ≡ db'
unfolding transition
transition_again env clock command result db db' digest graph e h =
    let (_, _, h₁) = >>=-eq-ok (guard (env.command_valid command) command_malformed) _ h in
    let (now, _, h₂) = >>=-eq-ok (or_fail clock clock_invalid) _ h₁ in
    let (_, _, h₃) =
      >>=-eq-ok
        (guard
          (not (ltb now command.requested_at || ltb max_command_age (now - command.requested_at)))
          command_stale)
        _ h₂ in
    let known : Database × Graph = (db, graph) in
    let replay : (guard (digest == env.command_digest command) command_identity_conflict
          >> ok known)
        ≡ ok (db', result) =
      ground arith in
    let (_, _, h₄) =
      >>=-eq-ok (guard (digest == env.command_digest command) command_identity_conflict) _ replay in
    ap (λ p. p.0) (ok-injective h₄)

transition-AllOrdered :
    (env : Environment) (clock : Option ℕ) (command : Command) (result : Graph) (db db' : Database)
    → transition env clock command db ≡ ok (db', result)
    → AllOrdered db.plans
    → AllOrdered db'.plans
transition-AllOrdered env clock command result db db' h all =
    elim (Option-cases (lookup command.command_id db.commands)) [
      | inl e ↦
          let (w, _, _) = transition-Rewrites env clock command db db' result e h in
          Rewrites-AllOrdered w all
      | inr ((digest, graph), e) ↦
          subst (λ d. AllOrdered d.plans)
            (transition_again env clock command result db db' digest graph e h) all
    ]

recover-AllOrdered :
    (clock : Option ℕ) (ids : List String) (db db' : Database)
    → recover clock db ≡ ok (db', ids)
    → AllOrdered db.plans
    → AllOrdered db'.plans
unfolding recover
recover-AllOrdered clock ids db db' h all =
    let (now, _, h₁) = >>=-eq-ok (or_fail clock clock_invalid) _ h in
    let (last, e, h₂) = >>=-eq-ok (recover_plans now (interrupted db.plans) db) _ h₁ in
    subst (λ d. AllOrdered d.plans) (ap (λ p. p.0) (ok-injective h₂))
      (recover_plans-AllOrdered now (interrupted db.plans) db last e all)

Reach-AllOrdered : {env : Environment} {db : Database} → Reach env db → AllOrdered db.plans
Reach-AllOrdered empty = λ id stored h. let n = lookup-nil {V = Stored} id in absurd (ground arith)
Reach-AllOrdered {env} (created {db = db} {db' = db'} graph result r h) =
    create-AllOrdered env graph result db db' h (Reach-AllOrdered r)
Reach-AllOrdered {env} (transitioned {db = db} {db' = db'} clock command result r h) =
    transition-AllOrdered env clock command result db db' h (Reach-AllOrdered r)
Reach-AllOrdered (recovered {db = db} {db' = db'} clock ids r h) =
    recover-AllOrdered clock ids db db' h (Reach-AllOrdered r)
Reach-AllOrdered (moved_elsewhere {db = db} id stored tasks state revision r h m) =
    AllOrdered-insert id _ db.plans
      (Moves-IsOrdered (next still m) (Reach-AllOrdered r id stored h)) (Reach-AllOrdered r)

-- Whatever plans are created, whatever commands and recoveries are made, and whatever the other services
-- do to the tasks between them, as far as the trigger allows and without releasing a blocked task early:
-- a task that is ready, awaits a human, runs or ran has only predecessors that have succeeded.
pub Reach-IsOrdered :
    (env : Environment) (db : Database) (id : String) (stored : Stored)
    → Reach env db
    → lookup id db.plans ≡ some stored
    → IsOrdered stored.graph.dependencies stored.graph.tasks
Reach-IsOrdered env db id stored r = Reach-AllOrdered r id stored
