-- ===== src/Workers/Termination/Endings.antt =====
-- What the runtime has answered where the recovery of a worker does not fail.
use pent_ai.Prelude.{
  ℕ, ◌≡◌, ◌⊎◌, refl, inl, inr, Bool, true, false, not, ◌&&◌, Option, none, some, String, Text,
  arith, if◌then◌else◌, leb, Result, ok, err, or_fail-eq-ok, Bool-cases, Option-cases,
}
use pent_ai.Workers.Registry.Schema.{
  termination_requested, same_status, is_active, is_none, Row, Table,
}
use pent_ai.Workers.Registry.{request_termination, finalize_termination, Answer}
use pent_ai.Workers.Termination.{
  RecoveryError, controller_failed, Controller, Runtimes, RecoveryAnswer, find_container,
  end_container, closed, finish, requested, recover_found, recover_controlled, recover_candidate,
}

-- The container of the worker, as the row records it, or as the runtime finds it where the row has
-- none.
abbrev pub Holds : Controller → String → Row → Option String → Type 0
Holds controller id row container =
    ((c : String) × (row.container_id ≡ some c) × (container ≡ some c))
    ⊎ ((row.container_id ≡ none) × (controller.discover_owned id ≡ some container))

-- The runtime has ended the container as one of this worker, if there is one.
abbrev pub Gone : Controller → String → Option String → Type 0
Gone controller id container =
    (container ≡ none)
    ⊎ ((c : String) × (container ≡ some c)
        × (controller.verify_ownership id c ≡ true)
        × (controller.terminate c ≡ true))

pub record IsEnded (runtimes : Runtimes) (id : String) (row : Row) : Type 0 where
  pub controller : Controller
  pub of_runtime : runtimes row.oci_runtime ≡ some controller
  pub container : Option String
  pub held : Holds controller id row container
  pub gone : Gone controller id container

find_container-Holds :
    (controller : Controller) (id : String) (row : Row) (container : Option String)
    → find_container controller (id, row) ≡ ok container
    → Holds controller id row container
unfolding find_container
find_container-Holds controller id row container h = elim (Option-cases row.container_id) [
  | inl n ↦ inr (n, or_fail-eq-ok (controller.discover_owned id) controller_failed (ground arith))
  | inr (c, s) ↦ inl (c, s, ground arith)
]

end_container-Gone :
    (controller : Controller) (id : String) (container : Option String)
    → end_container controller id container ≡ true
    → Gone controller id container
unfolding end_container
end_container-Gone controller id none h = inl refl
end_container-Gone controller id (some c) h = inr (c, refl, ground arith, ground arith)

closed-ended : (ended : Bool) (a : Answer) → (closed ended a).1 ≡ ok tt → ended ≡ true
closed-ended true a h = refl
closed-ended false (U, err e) h = absurd (ground arith)
closed-ended false (U, ok row) h = absurd (ground arith)

module _ (controller : Controller) (id : String) (container : Option String) where
  finish-Gone :
      (T : Table) (version : ℕ) (clock : Option ℕ)
      → (finish controller T id container version clock).1 ≡ ok tt
      → Gone controller id container
  unfolding finish
  finish-Gone T version clock h =
      let ended = end_container controller id container in
      end_container-Gone controller id container
        (closed-ended ended (finalize_termination T id version ended clock) h)

  requested-Gone :
      (clock : Option ℕ) (a : Answer)
      → (requested controller id container clock a).1 ≡ ok tt
      → Gone controller id container
  requested-Gone clock (U, err e) h = absurd (ground arith)
  requested-Gone clock (U, ok row) h = finish-Gone U row.version clock h

  if-Gone :
      (b : Bool) (x y : RecoveryAnswer)
      → (x.1 ≡ ok tt → Gone controller id container)
      → (y.1 ≡ ok tt → Gone controller id container)
      → (if b then x else y).1 ≡ ok tt
      → Gone controller id container
  if-Gone true x y f g h = f h
  if-Gone false x y f g h = g h

module _ (T : Table) (id : String) (row : Row) (reason : Text) (clock clock' : Option ℕ) where
  recover_found-Gone :
      (controller : Controller) (found : Result RecoveryError (Option String))
      → (recover_found controller T (id, row) reason clock clock' found).1 ≡ ok tt
      → (container : Option String) × (found ≡ ok container) × Gone controller id container
  recover_found-Gone controller (err e) h = absurd (ground arith)
  recover_found-Gone controller (ok container) h =
      let discovered = if is_none row.container_id then container else none in
      (
        container,
        refl,
        if-Gone controller id container (same_status row.status termination_requested) _ _
            (finish-Gone controller id container T row.version clock')
            (requested-Gone controller id container clock'
              (request_termination T id row.version reason discovered clock))
            h,
      )

  recover_controlled-IsEnded :
      (runtimes : Runtimes) (found : Option Controller)
      → runtimes row.oci_runtime ≡ found
      → (recover_controlled T (id, row) reason clock clock' found).1 ≡ ok tt
      → IsEnded runtimes id row
  recover_controlled-IsEnded runtimes none r h = absurd (ground arith)
  recover_controlled-IsEnded runtimes (some controller) r h =
      let (container, found, gone) =
        recover_found-Gone controller (find_container controller (id, row)) h in
      record {
        controller = controller;
        of_runtime = r;
        container = container;
        held = find_container-Holds controller id row container found;
        gone = gone;
      }

  -- A recovery of a worker that does not fail has ended its container.
  pub recover_candidate-IsEnded :
      (runtimes : Runtimes)
      → (recover_candidate runtimes T (id, row) reason (clock, clock')).1 ≡ ok tt
      → IsEnded runtimes id row
  unfolding recover_candidate
  recover_candidate-IsEnded runtimes h =
      elim (Bool-cases (not (is_active row.status && leb 1 row.version))) [
        | inl b ↦ absurd (ground arith)
        | inr b ↦ recover_controlled-IsEnded runtimes (runtimes row.oci_runtime) refl (ground arith)
      ]
