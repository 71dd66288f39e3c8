-- ===== src/Responses/Totality.antt =====
-- When a response is read without an error.
use pent_ai.Prelude.{
  ℕ, suc, ◌+◌, ◌-◌, ◌≡◌, refl, ap, ◌∙◌, inl, inr, true, Option, none, some, List, [], ◌++◌, ◌∷◌,
  Text, arith, ltb, leb, length, Bool-cases, All, Result, ok, ◌>>=◌, ◌&&◌, ◌≤◌,
}
use pent_ai.Responses.{
  deadline_exceeded, Response, Clock, read_time, result, complete, overflow, not_before,
  read_chunks, read_bounded_response,
}

-- A clock every reading of which has a time zone and which never runs backwards
pub record IsSteady (clock : Clock) (times : ℕ → ℕ) : Type 0 where
  pub trusted : (n : ℕ) → clock n ≡ some (times n)
  pub forward : (n : ℕ) → times n ≤ times (suc n)

abbrev pub IsChunk : Option Text → Type 0
IsChunk chunk = (b : ℕ) × ((rest : Text) × (chunk ≡ some (b ∷ rest)))

-- A step that succeeds goes on.
>>=-ok {ε α β} :
    {Error : Type ε} {Value : Type α} {Next : Type β} {check : Result Error Value} {value : Value}
    → (next : Value → Result Error Next) → check ≡ ok value
    → (last : Next) × (next value ≡ ok last)
    → (last : Next) × ((check >>= next) ≡ ok last)
>>=-ok next e (last, h) = (last, ap (λ c. c >>= next) e ∙ h)

module _ (maximum deadline : ℕ) (clock : Clock) (times : ℕ → ℕ)
    (steady : IsSteady clock times) where
  read_time-ok :
      (tick : ℕ) (last : Option ℕ)
      → not_before last (times tick) ≡ true
      → read_time (clock tick) last ≡ ok (times tick)
  unfolding read_time
  read_time-ok tick last b = let t = steady.trusted tick in ground arith

  complete-ok :
      (tick : ℕ) (last : Option ℕ) (retained : Text) (observed : ℕ)
      → not_before last (times tick) ≡ true
      → (r : Response) × (complete deadline (clock tick) last retained observed ≡ ok r)
  unfolding complete
  complete-ok tick last retained observed b = >>=-ok _ (read_time-ok tick last b) (_, refl)

  overflow-ok :
      (tick : ℕ) (last : Option ℕ) (retained : Text) (observed : ℕ) (bytes : Text)
      → not_before last (times tick) ≡ true
      → (r : Response) × (overflow maximum deadline (clock tick) last retained observed bytes
          ≡ ok r)
  unfolding overflow
  overflow-ok tick last retained observed bytes b = >>=-ok _ (read_time-ok tick last b) (_, refl)

  read_chunks-ok :
      (tick : ℕ) (last : Option ℕ) (retained : Text) (observed : ℕ) (chunks : List (Option Text))
      → not_before last (times tick) ≡ true
      → All IsChunk chunks
      → (r : Response) × (read_chunks maximum deadline clock tick last retained observed chunks
          ≡ ok r)
  unfolding read_chunks
  read_chunks-ok tick last retained observed [] b a = complete-ok tick last retained observed b
  read_chunks-ok tick last retained observed (none ∷ chunks) b a =
      let ((_, (_, e)), _) = a in absurd (ground arith)
  read_chunks-ok tick last retained observed (some [] ∷ chunks) b a =
      let ((_, (_, e)), _) = a in absurd (ground arith)
  read_chunks-ok tick last retained observed (some (c ∷ rest) ∷ chunks) b a =
      let now = times tick in
      let f = steady.forward tick in
      let next : not_before (some now) (times (suc tick)) ≡ true = ground arith in
      >>=-ok _ (read_time-ok tick last b) (elim (Bool-cases (leb deadline now)) [
        | inl late ↦ (result deadline_exceeded retained observed now, ground arith)
        | inr early ↦ elim (Bool-cases (ltb (maximum - length retained) (length (c ∷ rest)))) [
          | inl long ↦
              let (r, h) = overflow-ok (suc tick) (some now) retained observed (c ∷ rest) next in
              (r, ground arith)
          | inr short ↦
              let (r, h) =
                read_chunks-ok (suc tick) (some now) (retained ++ (c ∷ rest))
                  (observed + length (c ∷ rest)) chunks next a.1 in
              (r, ground arith)
        ]
      ])

-- With a limit from 1 to 2147483647, a clock that is trusted and never runs backwards, and chunks that are
-- all bytes and not empty, a response is always read, whatever the clock says of the deadline.
pub read_bounded_response-ok :
    (chunks : List (Option Text)) (maximum deadline : ℕ) (clock : Clock) (times : ℕ → ℕ)
    → 1 ≤ maximum
    → maximum ≤ 2_147_483_647
    → IsSteady clock times
    → All IsChunk chunks
    → (r : Response) × (read_bounded_response chunks maximum (some deadline) clock ≡ ok r)
unfolding read_bounded_response
read_bounded_response-ok chunks maximum deadline clock times low high steady a =
    let limit : (leb 1 maximum && leb maximum 2_147_483_647) ≡ true = ground arith in
    let (r, h) = read_chunks-ok maximum deadline clock times steady 0 none [] 0 chunks refl a in
    (r, ground arith)
