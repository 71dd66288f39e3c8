-- ===== src/Workers/Registry/Identity.antt =====
-- No two workers share a container or a live identity.
use pent_ai.Prelude.{
  ◌≡◌, ◌≢◌, ◌⊎◌, refl, sym, subst, ◌∙◌, inl, inr, true, false, Option, none, some, String, [], ◌∷◌,
  arith, ◌==◌, eq_of_==, ==-refl, string_eq, lookup, insert, lookup-insert, Bool-cases,
}
use pent_ai.Workers.Registry.Schema.{
  Status, launching, running, terminated, termination_requested, failed, is_active, Row, Table,
  rows_clash, same_some, conflicting,
}
use pent_ai.Workers.Registry.Frames.{Change, IsNext, IsNew}
use pent_ai.Workers.Registry.Frames
use pent_ai.Workers.Registry.History.{Reach, Reach-induction}

pub record IsRegistry (T : Table) : Type 0 where
  pub apart :
      (i j : String) (r s : Row)
      → (i == j) ≡ false
      → lookup i T ≡ some r
      → lookup j T ≡ some s
      → rows_clash r s ≡ false
  pub named :
      (i : String) (r : Row) → lookup i T ≡ some r → r.status ≡ running → r.container_id ≢ none
  pub inert : (i : String) (r : Row) → lookup i T ≡ some r → r.execution_enabled ≡ false

IsRegistry-nil : IsRegistry []
unfolding lookup
IsRegistry-nil = record { apart = λ i j r s n a b. cc; named = λ i r a. cc; inert = λ i r a. cc }

conflicting-false :
    (id j : String) (row s : Row) (T : Table)
    → conflicting id row T ≡ false
    → (j == id) ≡ false
    → lookup j T ≡ some s
    → rows_clash row s ≡ false
unfolding conflicting lookup
conflicting-false id j row s [] c n h = absurd (ground arith)
conflicting-false id j row s ((k, r) ∷ T) c n h = elim (Bool-cases (j == k)) [
  | inl e ↦
      let same : j ≡ k = eq_of_== j k e in
      let there : r ≡ s = ground arith in
      let m : (k == id) ≡ false = subst (λ i. (i == id) ≡ false) same n in
      subst (λ t. rows_clash row t ≡ false) there (ground arith)
  | inr e ↦ conflicting-false id j row s T (ground arith) n (ground arith)
]

rows_clash-sym : (r s : Row) → rows_clash r s ≡ false → rows_clash s r ≡ false
unfolding rows_clash
rows_clash-sym r s h = ground arith

-- A row of the table that an insertion makes is the new one, or it was there.
pub lookup-insert-cases :
    (i id : String) (row r : Row) (T : Table)
    → lookup i (insert id row T) ≡ some r
    → (((i == id) ≡ true) × (row ≡ r)) ⊎ (((i == id) ≡ false) × (lookup i T ≡ some r))
lookup-insert-cases i id row r T h = elim (Bool-cases (i == id)) [
  | inl e ↦ let l = lookup-insert i id row T in inl (e, ground arith)
  | inr e ↦ let l = lookup-insert i id row T in inr (e, ground arith)
]

insert-apart :
    (id : String) (row : Row) (T : Table)
    → conflicting id row T ≡ false
    → IsRegistry T
    → (i j : String) (r s : Row) → (i == j) ≡ false
    → lookup i (insert id row T) ≡ some r
    → lookup j (insert id row T) ≡ some s
    → rows_clash r s ≡ false
insert-apart id row T c t i j r s n a b = elim (lookup-insert-cases i id row r T a) [
  | inl (e, p) ↦ elim (lookup-insert-cases j id row s T b) [
    | inl (f, q) ↦
        let u = eq_of_== i id e in
        let v = eq_of_== j id f in let w = ==-refl id in absurd (ground arith)
    | inr (f, q) ↦ subst (λ x. rows_clash x s ≡ false) p (conflicting-false id j row s T c f q)
  ]
  | inr (e, p) ↦ elim (lookup-insert-cases j id row s T b) [
    | inl (f, q) ↦
        subst (λ x. rows_clash r x ≡ false) q
          (rows_clash-sym row r (conflicting-false id i row r T c e p))
    | inr (f, q) ↦ t.apart i j r s n p q
  ]
]

insert-IsRegistry :
    (id : String) (row : Row) (T : Table)
    → conflicting id row T ≡ false
    → (row.status ≡ running → row.container_id ≢ none)
    → row.execution_enabled ≡ false
    → IsRegistry T
    → IsRegistry (insert id row T)
insert-IsRegistry id row T c named inert t = record {
  apart = insert-apart id row T c t;
  named = λ i r a. elim (lookup-insert-cases i id row r T a) [
    | inl (e, p) ↦ subst (λ (x : Row). x.status ≡ running → x.container_id ≢ none) p named
    | inr (e, p) ↦ t.named i r p
  ];
  inert = λ i r a. elim (lookup-insert-cases i id row r T a) [
    | inl (e, p) ↦ subst (λ (x : Row). x.execution_enabled ≡ false) p inert
    | inr (e, p) ↦ t.inert i r p
  ];
}

Change-IsRegistry : (id : String) (A B : Table) → Change id A B → IsRegistry A → IsRegistry B
Change-IsRegistry id A B (Frames.same e) t = subst IsRegistry (sym e) t
Change-IsRegistry id A B (Frames.new row fresh c n e) t =
    subst IsRegistry (sym e)
      (insert-IsRegistry id row A c (λ q. absurd (let x = n.status in ground arith)) n.execution t)
Change-IsRegistry id A B (Frames.moved old row found c n e) t = subst IsRegistry (sym e) (
    insert-IsRegistry id row A c n.respects.running_named
      (n.respects.identity.execution ∙ t.inert id old found) t)

same_some-none : (a b : Option String) → same_some a b ≡ false → a ≡ b → a ≡ none
same_some-none none b h e = refl
same_some-none (some a) none h e = cc
same_some-none (some a) (some b) h e = ground arith

is_active-true : (status : Status) → status ≢ terminated → is_active status ≡ true
is_active-true launching h = refl
is_active-true running h = refl
is_active-true termination_requested h = refl
is_active-true failed h = refl
is_active-true terminated h = absurd (h refl)

-- Whatever calls are made on an empty table, two workers are never recorded with one container, nor
-- with one runtime instance and network while neither is terminated.
pub Reach-apart :
    (T : Table) (i j : String) (r s : Row)
    → Reach [] T
    → i ≢ j
    → lookup i T ≡ some r
    → lookup j T ≡ some s
    → (r.container_id ≡ s.container_id → r.container_id ≡ none)
      × (r.status ≢ terminated
          → s.status ≢ terminated
          → r.runtime_instance_id ≡ s.runtime_instance_id
          → r.worker_gateway_network_id ≢ s.worker_gateway_network_id)
unfolding rows_clash
Reach-apart T i j r s reached differ a b =
    let t = Reach-induction IsRegistry Change-IsRegistry IsRegistry-nil reached in
    let c : rows_clash r s ≡ false = t.apart i j r s (ground arith) a b in
    let n : same_some r.container_id s.container_id ≡ false = ground arith in
    (
      same_some-none r.container_id s.container_id n,
      λ u v p q.
          let x = is_active-true r.status u in let y = is_active-true s.status v in ground arith,
    )

-- Whatever calls are made on an empty table, a worker that is running has a container, and no
-- worker is recorded as enabled for execution.
pub Reach-named :
    (T : Table) (i : String) (r : Row)
    → Reach [] T
    → lookup i T ≡ some r
    → (r.status ≡ running → r.container_id ≢ none) × (r.execution_enabled ≡ false)
Reach-named T i r reached a =
    let t = Reach-induction IsRegistry Change-IsRegistry IsRegistry-nil reached in
    (t.named i r a, t.inert i r a)
