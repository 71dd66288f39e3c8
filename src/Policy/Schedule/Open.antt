-- ===== src/Policy/Schedule/Open.antt =====
-- When the schedule of evaluator.py is open, and until when it stays so.
use pent_ai.Prelude.{
  ℕ, ◌≤◌, ◌<◌, ◌≡◌, refl, ◌⊎◌, inl, inr, some, List, [], ◌∷◌, arith, All, Option-cases, Bool-cases,
  leb, subst,
}
use pent_ai.Policy.Document.{Blackout}
use pent_ai.Policy.Schedule.{blackout_starts}

-- The instant `t` lies in the period.
abbrev pub Covers : Blackout → ℕ → Type 0
Covers period t =
    (a : ℕ) × (b : ℕ) × (period.starts_at ≡ some a) × (period.ends_at ≡ some b) × (a ≤ t) × (t < b)

-- The first loop fails exactly when a period cannot be read, or covers the instant.
abbrev pub Past : ℕ → Blackout → Type 0
Past t period =
    (a : ℕ) × (b : ℕ) × (period.starts_at ≡ some a) × (period.ends_at ≡ some b) × (b ≤ t) × (a ≤ t)

abbrev pub Future : ℕ → Blackout → Type 0
Future t period = (a : ℕ) × (period.starts_at ≡ some a) × (t < a)

past_clear :
    (period : Blackout) (t u a b : ℕ) → period.ends_at ≡ some b → b ≤ t → t ≤ u → ¬ Covers period u
past_clear period t u a b e p l (a', b', ea, eb, x, y) =
    let same : b ≡ b' = ground arith in omega arith

future_clear :
    (period : Blackout) (u d a : ℕ) → period.starts_at ≡ some a → d ≤ a → u < d → ¬ Covers period u
future_clear period u d a e p l (a', b', ea, eb, x, y) =
    let same : a ≡ a' = ground arith in omega arith

-- What a round of the first loop does, when the loop succeeds.
abbrev Round : ℕ → Blackout → List Blackout → List ℕ → Type 0
Round t period periods starts =
    (Past t period × (blackout_starts periods t ≡ some starts))
    ⊎ ((a : ℕ) × (rest : List ℕ) × (period.starts_at ≡ some a)
        × (t < a)
        × (blackout_starts periods t ≡ some rest)
        × (starts ≡ a ∷ rest))

blackout-Round :
    (period : Blackout) (periods : List Blackout) (t : ℕ) (starts : List ℕ)
    → blackout_starts (period ∷ periods) t ≡ some starts
    → Round t period periods starts
unfolding blackout_starts
blackout-Round period periods t starts h = elim (Option-cases period.starts_at) [
  | inl e ↦ absurd (ground arith)
  | inr (a, e) ↦ elim (Bool-cases (leb a t)) [
    | inl begun ↦ elim (Option-cases period.ends_at) [
      | inl e' ↦ absurd (ground arith)
      | inr (b, e') ↦ inl ((a, b, e, e', ground arith, ground arith), ground arith)
    ]
    | inr later ↦ elim (Option-cases (blackout_starts periods t)) [
      | inl r ↦ absurd (ground arith)
      | inr (rest, r) ↦ inr (a, rest, e, ground arith, r, ground arith)
    ]
  ]
]

pub blackout_starts-later :
    (periods : List Blackout) (t : ℕ) (starts : List ℕ)
    → blackout_starts periods t ≡ some starts
    → All (λ a. t < a) starts
unfolding blackout_starts
blackout_starts-later [] t starts h =
    let e : [] ≡ starts = ground arith in subst (All (λ a. t < a)) e tt
blackout_starts-later (period ∷ periods) t starts h =
    elim (blackout-Round period periods t starts h) [
      | inl (past, r) ↦ blackout_starts-later periods t starts r
      | inr (a, rest, e, later, r, q) ↦ rw q (later, blackout_starts-later periods t rest r)
    ]

pub blackout_starts_clear :
    (periods : List Blackout) (t : ℕ) (starts : List ℕ)
    → blackout_starts periods t ≡ some starts
    → All (λ p. Past t p ⊎ Future t p) periods
blackout_starts_clear [] t starts h = tt
blackout_starts_clear (period ∷ periods) t starts h =
    elim (blackout-Round period periods t starts h) [
      | inl (past, r) ↦ (inl past, blackout_starts_clear periods t starts r)
      | inr (a, rest, e, later, r, q) ↦ (inr (a, e, later), blackout_starts_clear periods t rest r)
    ]

pub blackout_starts_succeeds :
    (periods : List Blackout) (t : ℕ)
    → All (λ p. Past t p ⊎ Future t p) periods
    → (starts : List ℕ) × (blackout_starts periods t ≡ some starts)
unfolding blackout_starts
blackout_starts_succeeds [] t c = ([], refl)
blackout_starts_succeeds (period ∷ periods) t (inl (a, b, ea, eb, p, q), c) =
    let (starts, r) = blackout_starts_succeeds periods t c in (starts, ground arith)
blackout_starts_succeeds (period ∷ periods) t (inr (a, ea, p), c) =
    let (starts, r) = blackout_starts_succeeds periods t c in (a ∷ starts, ground arith)

-- Before every start to come, no period covers an instant that is not before `t`.
pub blackout_starts_uncovered :
    (periods : List Blackout) (t d : ℕ) (starts : List ℕ)
    → blackout_starts periods t ≡ some starts
    → All (λ a. d ≤ a) starts
    → All (λ p. (u : ℕ) → t ≤ u → u < d → ¬ Covers p u) periods
blackout_starts_uncovered [] t d starts h c = tt
blackout_starts_uncovered (period ∷ periods) t d starts h c =
    elim (blackout-Round period periods t starts h) [
      | inl ((a, b, ea, eb, p, q), r) ↦ (
        λ u l m k. past_clear period t u a b eb p l k,
        blackout_starts_uncovered periods t d starts r c,
      )
      | inr (a, rest, ea, later, r, q) ↦
          let c' = subst (All (λ a. d ≤ a)) q c in
          (
            λ u l m k. future_clear period u d a ea c'.0 m k,
            blackout_starts_uncovered periods t d rest r c'.1,
          )
    ]
