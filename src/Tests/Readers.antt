-- ===== src/Tests/Readers.antt =====
-- Runs of the response reader.
use pent_ai.Prelude.{◌≡◌, refl, Option, some, List, [], ◌∷◌, Text, ok, All, arith, ◌+◌}
use pent_ai.Responses.{
  Response, Clock, response_limit_exceeded, read_bounded_response, read_chunks, read_time, overflow,
  result,
}
use pent_ai.Responses.Bounds.{IsBounded, joined, read_bounded_response-IsBounded}
use pent_ai.Responses.Totality.{IsSteady, IsChunk, read_bounded_response-ok}

abbrev ticking : Clock
ticking = λ n. some (10 + n)

abbrev two_chunks : List (Option Text)
two_chunks = some (72 ∷ 105 ∷ []) ∷ some (33 ∷ 33 ∷ []) ∷ []

-- The limit cuts the second chunk.
abbrev cut_response : Response
cut_response = record {
  body = 72 ∷ 105 ∷ 33 ∷ [];
  outcome = response_limit_exceeded;
  observed_response_bytes = 4;
  retained_response_bytes = 3;
  completed_at = 12;
}

cut_run : read_bounded_response two_chunks 3 (some 20) ticking ≡ ok cut_response
unfolding read_bounded_response read_chunks read_time overflow result
cut_run = refl

ticking-IsSteady : IsSteady ticking (λ n. 10 + n)
ticking-IsSteady = record { trusted = λ n. refl; forward = λ n. omega arith }

two_chunks-All : All IsChunk two_chunks
two_chunks-All = ((72, (105 ∷ [], refl)), ((33, (33 ∷ [], refl)), tt))

read_bounded_response-IsBounded_example : IsBounded 3 20 (joined two_chunks) cut_response
read_bounded_response-IsBounded_example =
    read_bounded_response-IsBounded two_chunks 3 20 ticking cut_response cut_run

read_bounded_response-ok_example :
    (r : Response) × (read_bounded_response two_chunks 3 (some 20) ticking ≡ ok r)
read_bounded_response-ok_example =
    read_bounded_response-ok two_chunks 3 20 ticking (λ n. 10 + n) (omega arith) (omega arith)
      ticking-IsSteady two_chunks-All
