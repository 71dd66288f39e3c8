-- ===== src/Workers/Termination/Candidates.antt =====
-- Which rows of the table are candidates of a recovery.
use Prim.Native.Nat.{Ordering}
use Prim.Native.String.{compare}
use pent_ai.Prelude.{
  ◌≡◌, ◌⊎◌, refl, ap, ◌∙◌, inl, inr, Bool, true, false, some, String, List, [], ◌∷◌, arith, ◌==◌,
  string_eq, if◌then◌else◌, Any, lookup, Bool-cases,
}
use pent_ai.Workers.Registry.Schema.{is_active, Row, Table}
use pent_ai.Workers.Termination.{Candidate, insert_candidate, recovery_candidates}

-- A worker is among the candidates.
abbrev pub Among : String → List Candidate → Type 0
Among j = Any (λ (i, _). (j == i) ≡ true)

-- Every worker that the table has as unfinished is among these.
abbrev pub Covers : Table → List Candidate → Type 0
Covers T cs =
    (j : String) (row : Row) → lookup j T ≡ some row → is_active row.status ≡ true → Among j cs

insert_candidate-Among :
    (j : String) (c : Candidate) (cs : List Candidate)
    → ((j == c.0) ≡ true) ⊎ Among j cs
    → Among j (insert_candidate c cs)
unfolding insert_candidate
insert_candidate-Among j (i, row) [] h = h
insert_candidate-Among j (i, row) ((k, other) ∷ cs) h =
    elim (compare i k)
      as (λ o. Among j (elim o as (λ x. List Candidate) [
        | Ordering.gt ↦ (k, other) ∷ insert_candidate (i, row) cs
        | _ ↦ (i, row) ∷ ((k, other) ∷ cs)
      ])) [
        | Ordering.gt ↦ elim h [
          | inl e ↦ inr (insert_candidate-Among j (i, row) cs (inl e))
          | inr (inl e) ↦ inl e
          | inr (inr a) ↦ inr (insert_candidate-Among j (i, row) cs (inr a))
        ]
        | _ ↦ h
      ]

if-Among :
    (j : String) (b : Bool) (cs ds : List Candidate)
    → (b ≡ true → Among j cs)
    → (b ≡ false → Among j ds)
    → Among j (if b then cs else ds)
if-Among j true cs ds f g = f refl
if-Among j false cs ds f g = g refl

pub recovery_candidates-Covers : (T : Table) → Covers T (recovery_candidates T)
unfolding recovery_candidates lookup
recovery_candidates-Covers [] j row h a = absurd (ground arith)
recovery_candidates-Covers ((i, first) ∷ T) j row h a =
    let cs = recovery_candidates T in
    elim (Bool-cases (j == i)) [
      | inl e ↦
          let same : first ≡ row = ground arith in
          let active = ap (λ (r : Row). is_active r.status) same ∙ a in
          if-Among j (is_active first.status) _ _
            (λ _. insert_candidate-Among j (i, first) cs (inl e)) (λ b. absurd (ground arith))
      | inr e ↦
          let there = recovery_candidates-Covers T j row (ground arith) a in
          if-Among j (is_active first.status) _ _
            (λ _. insert_candidate-Among j (i, first) cs (inr there)) (λ _. there)
    ]

module _ (P : Candidate → Type 0) where
  insert_candidate-Any :
      (c : Candidate) (cs : List Candidate) → Any P (insert_candidate c cs) → P c ⊎ Any P cs
  unfolding insert_candidate
  insert_candidate-Any c [] h = h
  insert_candidate-Any (i, row) ((k, other) ∷ cs) h =
      (elim (compare i k)
          as (λ o.
            Any P (elim o as (λ x. List Candidate) [
              | Ordering.gt ↦ (k, other) ∷ insert_candidate (i, row) cs
              | _ ↦ (i, row) ∷ ((k, other) ∷ cs)
            ])
            → P (i, row) ⊎ Any P ((k, other) ∷ cs)) [
              | Ordering.gt ↦ λ a. elim a [
                | inl p ↦ inr (inl p)
                | inr b ↦ elim (insert_candidate-Any (i, row) cs b) [
                  | inl p ↦ inl p
                  | inr q ↦ inr (inr q)
                ]
              ]
              | _ ↦ λ a. a
            ])
        h

  if-Any :
      (b : Bool) (c : Candidate) (cs : List Candidate)
      → Any P (if b then insert_candidate c cs else cs)
      → P c ⊎ Any P cs
  if-Any true c cs h = insert_candidate-Any c cs h
  if-Any false c cs h = inr h

  -- The candidates are rows of the table.
  pub recovery_candidates-Any : (T : Table) → Any P (recovery_candidates T) → Any P T
  unfolding recovery_candidates
  recovery_candidates-Any [] h = h
  recovery_candidates-Any ((i, row) ∷ T) h =
      elim (if-Any (is_active row.status) (i, row) (recovery_candidates T) h) [
        | inl p ↦ inl p
        | inr q ↦ inr (recovery_candidates-Any T q)
      ]
