-- ===== src/Dns/Message.antt =====
-- `_parse_response` of controlled_dns_transport.py. A read of two bytes stands behind the test that they
-- are there.
pub mod Soundness
use pent_ai.Prelude.{
  ℕ, zero, suc, ◌+◌, ◌*◌, ◌≤◌, Bool, true, false, not, ◌&&◌, ◌||◌, Option, none, some, List, [],
  ◌∷◌, ◌++◌, Text, ◌==◌, nat_eq, list_eq, if◌then◌else◌, ltb, leb, contains, all_distinct, length,
  get_elem?, Result, ok, err, ◌>>=◌, ◌>>◌, guard,
}
use pent_ai.Dns.Names.{
  DnsError, response_invalid, transaction_mismatch, question_mismatch, Canonicalizer, bits, slice,
  decode_name,
}

pub record Parsed : Type 0 where
  pub addresses : List Text
  pub cnames : List Text

-- The variables of the loop over the records
pub record Scan : Type 0 where
  pub addresses : List Text
  pub cnames : List Text
  pub allowed_names : List Text
  pub offset : ℕ

abbrev pub byte_at : Text → ℕ → ℕ
byte_at packet offset = elim (get_elem? packet offset) [ none ↦ 0 | some byte ↦ byte ]

-- A field "!H" of `struct.unpack`
abbrev pub word : Text → ℕ → ℕ
word packet offset = byte_at packet offset * 256 + byte_at packet (offset + 1)

abbrev pub type_a : ℕ
type_a = 1

abbrev pub type_cname : ℕ
type_cname = 5

abbrev pub type_aaaa : ℕ
type_aaaa = 28

abbrev pub class_in : ℕ
class_in = 1

abbrev pub max_records : ℕ
max_records = 64

-- The bits of the flags that must not be as they are: no response, an operation code, truncated, a
-- reserved bit, a response code.
unfoldable pub flags_refused : ℕ → Bool
flags_refused flags =
    bits flags 15 1 == 0
    || (not (bits flags 11 4 == 0)
        || (not (bits flags 9 1 == 0) || (not (bits flags 6 1 == 0) || not (bits flags 0 4 == 0))))

module _ (canonicalize_domain : Canonicalizer) (compressed : Text → Text) (packet : Text)
    (query_type : ℕ) where
  -- The branch of a CNAME record
  unfoldable pub read_cname : Text → ℕ → ℕ → Scan → Result DnsError Scan
  read_cname owner start data_end scan =
      guard (contains scan.allowed_names owner) response_invalid
      >> (decode_name canonicalize_domain packet start >>= λ (target, consumed).
          guard
            (consumed == data_end
              && not (contains scan.allowed_names target || contains scan.cnames target))
            response_invalid
          >> ok (record scan {
            cnames = scan.cnames ++ (target ∷ []);
            allowed_names = target ∷ scan.allowed_names;
          }))

  -- The branch of an address record
  unfoldable pub read_address : Text → ℕ → ℕ → Scan → Result DnsError Scan
  read_address owner start data_length scan = do
    guard (contains scan.allowed_names owner) response_invalid
    guard (data_length == (if query_type == type_a then 4 else 16)) response_invalid
    ok (record scan {
      addresses = scan.addresses ++ (compressed (slice packet start data_length) ∷ []);
    })

  unfoldable pub read_answer : Text → ℕ → ℕ → ℕ → Scan → Result DnsError Scan
  read_answer owner record_type start data_length scan =
      if record_type == type_cname
      then read_cname owner start (start + data_length) scan
      else if record_type == query_type
      then read_address owner start data_length scan
      else ok scan

  -- The body of the loop
  unfoldable pub read_record : Bool → Scan → Result DnsError Scan
  read_record is_answer scan =
      decode_name canonicalize_domain packet scan.offset >>= λ (owner, offset).
      guard (leb (offset + 10) (length packet)) response_invalid
      >> (let start = offset + 10 in
          let data_length = word packet (offset + 8) in
          guard (leb (start + data_length) (length packet)) response_invalid
          >> ((if is_answer && word packet (offset + 2) == class_in
                then read_answer owner (word packet offset) start data_length scan
                else ok scan)
              >>= λ scan'. ok (record scan' { offset = start + data_length })))

  -- The loop: `count` records are left, the first `answers` of which are answers.
  unfoldable pub read_records : ℕ → ℕ → Scan → Result DnsError Scan
  read_records zero answers scan = ok scan
  read_records (suc count) zero scan = do
    next ← read_record false scan
    read_records count zero next
  read_records (suc count) (suc answers) scan = do
    next ← read_record true scan
    read_records count answers next

  -- The tests on the header
  unfoldable pub check_header : ℕ → Result DnsError (Unit {0})
  unfolding flags_refused
  check_header transaction_id = do
    guard (leb 12 (length packet) && leb (length packet) 4096) response_invalid
    guard (word packet 0 == transaction_id) transaction_mismatch
    guard
        (not (
          flags_refused (word packet 2)
          || (not (word packet 4 == 1)
              || ltb max_records (word packet 6 + word packet 8 + word packet 10))))
        response_invalid

  -- The question, and where the records begin
  unfoldable pub check_question : Text → Result DnsError ℕ
  check_question hostname = decode_name canonicalize_domain packet 12 >>= λ (question_name, offset).
      guard (leb (offset + 4) (length packet)) response_invalid
      >> (guard
            (question_name == hostname
              && (word packet offset == query_type && word packet (offset + 2) == class_in))
            question_mismatch
          >> ok (offset + 4))

  -- `_parse_response`
  unfoldable pub parse_response : Text → ℕ → Result DnsError Parsed
  parse_response hostname transaction_id = do
    check_header transaction_id
    offset ← check_question hostname
    scan ←
        read_records (word packet 6 + word packet 8 + word packet 10) (word packet 6)
          (record { addresses = []; cnames = []; allowed_names = hostname ∷ []; offset = offset })
    guard (scan.offset == length packet) response_invalid
    guard (all_distinct scan.addresses) response_invalid
    ok (record { addresses = scan.addresses; cnames = scan.cnames })
