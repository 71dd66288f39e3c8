-- ===== src/Responses.antt =====
-- gateway_response.py: `read_bounded_response`, which reads a response in chunks up to a limit and a
-- deadline. A chunk is a list of bytes, `none` where it is of another type; the n-th reading of the clock
-- is `none` where it has no time zone.
pub mod Bounds
pub mod Totality
use pent_ai.Prelude.{
  ℕ, suc, ◌+◌, ◌-◌, Bool, true, false, not, ◌&&◌, Option, none, some, List, [], ◌++◌, Text, ◌==◌,
  nat_eq, if◌then◌else◌, ltb, leb, length, take, Result, ok, err, ◌>>=◌, ◌>>◌, guard, or_fail, ◌∷◌,
}

pub data ResponseError : Type 0 where
  limit_invalid deadline_invalid clock_untrusted chunk_invalid : ResponseError

pub data ResponseOutcome : Type 0 where
  completed deadline_exceeded response_limit_exceeded : ResponseOutcome

-- `BoundedGatewayResponse` with its measurement
pub record Response : Type 0 where
  pub body : Text
  pub outcome : ResponseOutcome
  pub observed_response_bytes : ℕ
  pub retained_response_bytes : ℕ
  pub completed_at : ℕ

abbrev pub Clock : Type 0
Clock = ℕ → Option ℕ

-- `last_seen is None or value >= last_seen`
abbrev pub not_before : Option ℕ → ℕ → Bool
not_before none value = true
not_before (some last) value = leb last value

-- `read_time`: the reading, which must not lie before the last one.
unfoldable pub read_time : Option ℕ → Option ℕ → Result ResponseError ℕ
read_time reading last_seen = do
  value ← or_fail reading clock_untrusted
  guard (not_before last_seen value) clock_untrusted
  ok value

-- `_result`
unfoldable pub result : ResponseOutcome → Text → ℕ → ℕ → Response
result outcome retained observed completed_at = record {
  body = retained;
  outcome = outcome;
  observed_response_bytes = observed;
  retained_response_bytes = length retained;
  completed_at = completed_at;
}

-- The lines after the loop
unfoldable pub complete : ℕ → Option ℕ → Option ℕ → Text → ℕ → Result ResponseError Response
complete deadline reading last_seen retained observed = do
  completed_at ← read_time reading last_seen
  ok (
      result (if leb deadline completed_at then deadline_exceeded else completed) retained observed
        completed_at)

-- The branch of a chunk that does not fit.
unfoldable pub overflow :
    ℕ → ℕ → Option ℕ → Option ℕ → Text → ℕ → Text → Result ResponseError Response
overflow maximum deadline reading last_seen retained observed bytes =
    let remaining = maximum - length retained in
    read_time reading last_seen >>= λ completed_at. ok (
      result (if leb deadline completed_at then deadline_exceeded else response_limit_exceeded)
        (retained ++ take remaining bytes) (observed + (remaining + 1)) completed_at)

abbrev pub bytes_of : Option Text → Result ResponseError Text
bytes_of none = err chunk_invalid
bytes_of (some []) = err chunk_invalid
bytes_of (some (b ∷ bytes)) = ok (b ∷ bytes)

-- The loop, from the reading `tick` of the clock on.
unfoldable pub read_chunks :
    ℕ → ℕ → Clock → ℕ → Option ℕ → Text → ℕ → List (Option Text) → Result ResponseError Response
read_chunks maximum deadline clock tick last_seen retained observed [] =
    complete deadline (clock tick) last_seen retained observed
read_chunks maximum deadline clock tick last_seen retained observed (chunk ∷ chunks) =
    read_time (clock tick) last_seen >>= λ now. elim (leb deadline now) [
      | true ↦ ok (result deadline_exceeded retained observed now)
      | false ↦ bytes_of chunk >>= λ bytes. elim (ltb (maximum - length retained) (length bytes)) [
        | true ↦ overflow maximum deadline (clock (suc tick)) (some now) retained observed bytes
        | false ↦
            read_chunks maximum deadline clock (suc tick) (some now) (retained ++ bytes)
              (observed + length bytes) chunks
      ]
    ]

-- `read_bounded_response`; the deadline is `none` where it cannot be read.
unfoldable pub read_bounded_response :
    List (Option Text) → ℕ → Option ℕ → Clock → Result ResponseError Response
read_bounded_response chunks maximum deadline_at clock = do
  guard (leb 1 maximum && leb maximum 2_147_483_647) limit_invalid
  deadline ← or_fail deadline_at deadline_invalid
  read_chunks maximum deadline clock 0 none [] 0 chunks
