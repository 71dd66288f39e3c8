-- ===== src/Responses/Bounds.antt =====
-- What a response that is read holds.
use pent_ai.Prelude.{
  ℕ, zero, suc, ◌+◌, ◌-◌, ◌≤◌, ◌<◌, ◌≡◌, refl, sym, ap, subst, ◌∙◌, inl, inr, Option, none, some,
  List, [], ◌++◌, ◌∷◌, Text, arith, ltb, leb, length, take, length-append, length-take, append-nil,
  append_assoc, ok, >>=-eq-ok, ok-injective, guard, Bool-cases, ◌&&◌,
}
use pent_ai.Responses.{
  completed, deadline_exceeded, response_limit_exceeded, Response, Clock, read_time, result,
  complete, overflow, read_chunks, read_bounded_response, limit_invalid,
}

-- The bytes of the chunks, one after another.
abbrev pub joined : List (Option Text) → Text
joined [] = []
joined (none ∷ chunks) = joined chunks
joined (some bytes ∷ chunks) = bytes ++ joined chunks

-- What holds of a response that is read from `retained` and what the chunks still bring, `sent`.
pub record IsBounded (maximum deadline : ℕ) (sent : Text) (r : Response) : Type 0 where
  pub counted : r.retained_response_bytes ≡ length r.body
  pub bounded : length r.body ≤ maximum
  pub prefix : (rest : Text) × (sent ≡ r.body ++ rest)
  pub whole :
      r.outcome ≡ completed
      → (r.body ≡ sent) × ((r.observed_response_bytes ≡ length sent) × (r.completed_at < deadline))
  pub cut :
      r.outcome ≡ response_limit_exceeded
      → (length r.body ≡ maximum)
        × ((r.observed_response_bytes ≡ suc maximum)
            × ((maximum < length sent) × (r.completed_at < deadline)))
  pub late : r.outcome ≡ deadline_exceeded → deadline ≤ r.completed_at

-- What a take leaves
take-rest : (n : ℕ) (s : Text) → (rest : Text) × (s ≡ take n s ++ rest)
take-rest zero s = (s, refl)
take-rest (suc n) [] = ([], refl)
take-rest (suc n) (c ∷ s) = let (rest, e) = take-rest n s in (rest, ap (λ t. c ∷ t) e)

complete-IsBounded :
    (maximum deadline : ℕ) (reading last : Option ℕ) (retained : Text) (observed : ℕ) (r : Response)
    → length retained ≤ maximum
    → observed ≡ length retained
    → complete deadline reading last retained observed ≡ ok r
    → IsBounded maximum deadline (retained ++ []) r
unfolding complete result
complete-IsBounded maximum deadline reading last retained observed r fits o h =
    let (at, _, h₁) = >>=-eq-ok (read_time reading last) _ h in
    let e = append-nil retained in
    subst (IsBounded maximum deadline (retained ++ [])) (ok-injective h₁) (record {
      counted = refl;
      bounded = fits;
      prefix = ([], refl);
      whole = λ q. (sym e, (o ∙ ap length (sym e), ground arith));
      cut = λ q. absurd (ground arith);
      late = λ q. ground arith;
    })

-- The length of a body that is filled up
length-filled :
    (maximum : ℕ) (retained bytes : Text)
    → length retained ≤ maximum
    → (maximum - length retained) < length bytes
    → length (retained ++ take (maximum - length retained) bytes) ≡ maximum
length-filled maximum retained bytes fits long =
    length-append retained (take (maximum - length retained) bytes)
    ∙ (ap (λ n. length retained + n) (length-take (maximum - length retained) bytes) ∙ omega arith)

overflow-IsBounded :
    (maximum deadline : ℕ) (reading last : Option ℕ) (retained : Text) (observed : ℕ)
    → (bytes more : Text) (r : Response) → length retained ≤ maximum
    → observed ≡ length retained
    → (maximum - length retained) < length bytes
    → overflow maximum deadline reading last retained observed bytes ≡ ok r
    → IsBounded maximum deadline (retained ++ (bytes ++ more)) r
unfolding overflow result
overflow-IsBounded maximum deadline reading last retained observed bytes more r fits o long h =
    let (at, _, h₁) = >>=-eq-ok (read_time reading last) _ h in
    let filled = length-filled maximum retained bytes fits long in
    let (rest, e) = take-rest (maximum - length retained) bytes in
    let sent_length =
      length-append retained (bytes ++ more)
      ∙ ap (λ n. length retained + n) (length-append bytes more) in
    subst (IsBounded maximum deadline (retained ++ (bytes ++ more))) (ok-injective h₁) (record {
      counted = refl;
      bounded = omega arith;
      prefix = (
        rest ++ more,
        ap (λ t. retained ++ (t ++ more)) e
            ∙ (ap (λ t. retained ++ t)
                  (append_assoc (take (maximum - length retained) bytes) rest more)
                ∙ sym (
                    append_assoc retained (take (maximum - length retained) bytes) (rest ++ more))),
      );
      whole = λ q. absurd (ground arith);
      cut = λ q. (filled, (omega arith, (omega arith, ground arith)));
      late = λ q. ground arith;
    })

late-IsBounded :
    (maximum deadline now : ℕ) (retained more : Text) (observed : ℕ)
    → length retained ≤ maximum
    → deadline ≤ now
    → IsBounded maximum deadline (retained ++ more) (result deadline_exceeded retained observed now)
unfolding result
late-IsBounded maximum deadline now retained more observed fits passed = record {
  counted = refl;
  bounded = fits;
  prefix = (more, refl);
  whole = λ q. absurd (ground arith);
  cut = λ q. absurd (ground arith);
  late = λ q. passed;
}

read_chunks-IsBounded :
    (maximum deadline : ℕ) (clock : Clock) (tick : ℕ) (last : Option ℕ) (retained : Text)
    → (observed : ℕ) (chunks : List (Option Text)) (r : Response) → length retained ≤ maximum
    → observed ≡ length retained
    → read_chunks maximum deadline clock tick last retained observed chunks ≡ ok r
    → IsBounded maximum deadline (retained ++ joined chunks) r
unfolding read_chunks
read_chunks-IsBounded maximum deadline clock tick last retained observed [] r fits o h =
    complete-IsBounded maximum deadline (clock tick) last retained observed r fits o h
read_chunks-IsBounded maximum deadline clock tick last retained observed (none ∷ chunks) r fits o
      h =
    let (now, _, h₁) = >>=-eq-ok (read_time (clock tick) last) _ h in
    elim (Bool-cases (leb deadline now)) [
      | inl late ↦ subst (IsBounded maximum deadline (retained ++ joined chunks)) (ground arith) (
          late-IsBounded maximum deadline now retained (joined chunks) observed fits (ground arith))
      | inr early ↦ absurd (ground arith)
    ]
read_chunks-IsBounded maximum deadline clock tick last retained observed (some [] ∷ chunks) r fits o
      h =
    let (now, _, h₁) = >>=-eq-ok (read_time (clock tick) last) _ h in
    elim (Bool-cases (leb deadline now)) [
      | inl late ↦ subst (IsBounded maximum deadline (retained ++ joined chunks)) (ground arith) (
          late-IsBounded maximum deadline now retained (joined chunks) observed fits (ground arith))
      | inr early ↦ absurd (ground arith)
    ]
read_chunks-IsBounded maximum deadline clock tick last retained observed (some (b ∷ rest) ∷ chunks)
      r fits o h =
    let bytes = b ∷ rest in
    let more = joined chunks in
    let (now, _, h₁) = >>=-eq-ok (read_time (clock tick) last) _ h in
    elim (Bool-cases (leb deadline now)) [
      | inl late ↦ subst (IsBounded maximum deadline (retained ++ (bytes ++ more))) (ground arith) (
          late-IsBounded maximum deadline now retained (bytes ++ more) observed fits (ground arith))
      | inr early ↦ elim (Bool-cases (ltb (maximum - length retained) (length bytes))) [
        | inl long ↦
            overflow-IsBounded maximum deadline (clock (suc tick)) (some now) retained observed
              bytes more r fits o (ground arith) (ground arith)
        | inr short ↦
            let l = length-append retained bytes in
            subst (λ sent. IsBounded maximum deadline sent r) (append_assoc retained bytes more)
              (read_chunks-IsBounded maximum deadline clock (suc tick) (some now)
                (retained ++ bytes) (observed + length bytes) chunks r (ground arith) (ground arith)
                (ground arith))
      ]
    ]

-- Where a response is read, within the deadline or not, its body is a prefix of the bytes the chunks
-- bring and no longer than the limit, and the retained count is its length. A completed response is all
-- the bytes, observed in full before the deadline; one cut at the limit is as long as the limit, the
-- chunks bring more, and one byte more than the limit is counted. One that exceeds the deadline is
-- stamped at or after it.
pub read_bounded_response-IsBounded :
    (chunks : List (Option Text)) (maximum deadline : ℕ) (clock : Clock) (r : Response)
    → read_bounded_response chunks maximum (some deadline) clock ≡ ok r
    → IsBounded maximum deadline (joined chunks) r
unfolding read_bounded_response
read_bounded_response-IsBounded chunks maximum deadline clock r h =
    let (_, _, h₁) =
      >>=-eq-ok (guard (leb 1 maximum && leb maximum 2_147_483_647) limit_invalid) _ h in
    read_chunks-IsBounded maximum deadline clock 0 none [] 0 chunks r (omega arith) refl h₁
