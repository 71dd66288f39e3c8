-- ===== src/Workers/Registry/History.antt =====
-- The tables that calls reach, and what becomes of a row.
use pent_ai.Prelude.{
  ℕ, ◌≤◌, ◌≡◌, refl, sym, ap, subst, ◌∙◌, ◌⊎◌, inl, inr, Bool, Option, none, some, String, arith,
  ◌==◌, eq_of_==, string_eq, Text, lookup, insert, lookup-insert, Bool-cases,
}
use pent_ai.Workers.Containment.{Attestation}
use pent_ai.Workers.Registry.Schema.{terminated, Row, Table}
use pent_ai.Workers.Registry.{
  register_launch_intent, register_direct_attachment_intent, mark_running, request_termination,
  finalize_termination,
}
use pent_ai.Workers.Registry.Frames.{
  Change, IsNext, SameIdentity, register_launch_intent-Change,
  register_direct_attachment_intent-Change, mark_running-Change, request_termination-Change,
  finalize_termination-Change,
}
use pent_ai.Workers.Registry.Frames

-- The tables that calls reach from `T`, whatever their arguments and their answers.
pub data Reach (T : Table) : Table → Type 0 where
  start : Reach T T
  registers :
      {U : Table} (id : String) (containment : Attestation) (digest : String)
      (clock clock' : Option ℕ)
      → Reach T U
      → Reach T (register_launch_intent U id containment digest clock clock').0
  registers_direct :
      {U : Table} (id : String) (containment : Attestation) (digest gateway : String)
      (clock clock' : Option ℕ)
      → Reach T U
      → Reach T (register_direct_attachment_intent U id containment digest gateway clock clock').0
  runs :
      {U : Table} (id container_id : String) (clock : Option ℕ)
      → Reach T U
      → Reach T (mark_running U id container_id clock).0
  requests :
      {U : Table} (id : String) (n : ℕ) (reason : Text) (discovered : Option String)
      (clock : Option ℕ)
      → Reach T U
      → Reach T (request_termination U id n reason discovered clock).0
  finalizes :
      {U : Table} (id : String) (n : ℕ) (succeeded : Bool) (clock : Option ℕ)
      → Reach T U
      → Reach T (finalize_termination U id n succeeded clock).0

-- What every change keeps holds of every table that calls reach.
pub Reach-induction :
    {T U : Table} (P : Table → Type 0)
    → ((id : String) (A B : Table) → Change id A B → P A → P B)
    → P T
    → Reach T U
    → P U
Reach-induction P step p start = p
Reach-induction P step p (registers {U = U} id c d k k' r) =
    step id U _ (register_launch_intent-Change U id c d k k') (Reach-induction P step p r)
Reach-induction P step p (registers_direct {U = U} id c d g k k' r) =
    step id U _ (register_direct_attachment_intent-Change U id c d g k k')
      (Reach-induction P step p r)
Reach-induction P step p (runs {U = U} id c k r) =
    step id U _ (mark_running-Change U id c k) (Reach-induction P step p r)
Reach-induction P step p (requests {U = U} id n t d k r) =
    step id U _ (request_termination-Change U id n t d k) (Reach-induction P step p r)
Reach-induction P step p (finalizes {U = U} id n s k r) =
    step id U _ (finalize_termination-Change U id n s k) (Reach-induction P step p r)

-- What a row may become.
pub record Follows (old row : Row) : Type 0 where
  pub identity : SameIdentity old row
  pub version : old.version ≤ row.version
  -- a container is named once
  pub container : (old.container_id ≡ none) ⊎ (row.container_id ≡ old.container_id)
  -- and what is terminated stays as it is.
  pub final : old.status ≡ terminated → row ≡ old

Follows-refl : (row : Row) → Follows row row
Follows-refl row = record {
  identity = record {
    attestation = refl;
    runtime = refl;
    instance_id = refl;
    network = refl;
    image = refl;
    created = refl;
    execution = refl;
    gateway = refl;
    mode = refl;
  };
  version = omega arith;
  container = inr refl;
  final = λ e. refl;
}

SameIdentity-trans : {a b c : Row} → SameIdentity a b → SameIdentity b c → SameIdentity a c
SameIdentity-trans p q = record {
  attestation = q.attestation ∙ p.attestation;
  runtime = q.runtime ∙ p.runtime;
  instance_id = q.instance_id ∙ p.instance_id;
  network = q.network ∙ p.network;
  image = q.image ∙ p.image;
  created = q.created ∙ p.created;
  execution = q.execution ∙ p.execution;
  gateway = q.gateway ∙ p.gateway;
  mode = q.mode ∙ p.mode;
}

Follows-next : {a b c : Row} → Follows a b → IsNext b c → Follows a c
Follows-next {a = a} {b = b} {c = c} p n =
    let v = p.version in
    let w = n.version in
    let k = p.container in
    let j = n.respects.container in
    record {
      identity = SameIdentity-trans p.identity n.respects.identity;
      version = omega arith;
      container = ground arith;
      final = λ e. absurd (n.respects.live (ap (λ (r : Row). r.status) (p.final e) ∙ e));
    }

-- A worker's row in a table follows the row that it was.
abbrev RowFollows : String → Row → Table → Type 0
RowFollows id old T = (row : Row) × ((lookup id T ≡ some row) × Follows old row)

Change-RowFollows :
    (id : String) (old : Row) (other : String) (A B : Table)
    → Change other A B
    → RowFollows id old A
    → RowFollows id old B
Change-RowFollows id old other A B (Frames.same e) p = subst (RowFollows id old) (sym e) p
Change-RowFollows id old other A B (Frames.new new_row fresh _ _ e) (row, (found, f)) =
    let l = lookup-insert id other new_row A in
    subst (RowFollows id old) (sym e)
      (elim (Bool-cases (id == other)) as (λ _. RowFollows id old (insert other new_row A)) [
        | inl q ↦ let i = ap (λ k. lookup k A) (eq_of_== id other q) in absurd (ground arith)
        | inr q ↦ (row, (ground arith, f))
      ])
Change-RowFollows id old other A B (Frames.moved before after found' _ n e) (row, (found, f)) =
    let l = lookup-insert id other after A in
    subst (RowFollows id old) (sym e)
      (elim (Bool-cases (id == other)) as (λ _. RowFollows id old (insert other after A)) [
        | inl q ↦
            let i = ap (λ k. lookup k A) (eq_of_== id other q) in
            let b : before ≡ row = ground arith in
            (after, (ground arith, Follows-next f (subst (λ r. IsNext r after) b n)))
        | inr q ↦ (row, (ground arith, f))
      ])

-- Whatever calls are made, in whatever order and with whatever answers, a worker that is recorded
-- stays recorded: its identity does not change, its version does not fall, its container is named
-- once, and once it is terminated its row is final.
pub Reach-Follows :
    {T U : Table} (id : String) (old : Row)
    → Reach T U
    → lookup id T ≡ some old
    → (row : Row) × ((lookup id U ≡ some row) × Follows old row)
Reach-Follows id old reached found =
    Reach-induction (RowFollows id old) (Change-RowFollows id old) (old, (found, Follows-refl old))
      reached
