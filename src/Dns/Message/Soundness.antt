-- ===== src/Dns/Message/Soundness.antt =====
-- What a response that is accepted is like.
use pent_ai.Prelude.{
  ℕ, zero, suc, ◌+◌, ◌≤◌, ◌≡◌, refl, subst, inl, inr, Bool, true, false, not, ◌&&◌, ◌||◌, List, [],
  ◌∷◌, ◌++◌, Text, ◌==◌, Eq, nat_eq, list_eq, ==-refl, eq_of_==, ltb, if◌then◌else◌, arith, leb,
  contains, length, length-append, Unique, all_distinct, all_distinct_iff, ok, guard, >>=-eq-ok,
  ok-injective, guard-eq-ok, Bool-cases,
}
use pent_ai.Dns.Names.{response_invalid, transaction_mismatch, Canonicalizer, decode_name}
use pent_ai.Dns.Message.{
  Parsed, Scan, word, flags_refused, max_records, read_cname, read_address, read_answer,
  read_record, read_records, check_header, check_question, parse_response,
}

module _ {A : Type 0} ⦃e : Eq A⦄ where
  contains-append_one :
      (xs : List A) (t x : A) → contains (xs ++ (t ∷ [])) x ≡ (contains xs x || x == t)
  contains-append_one [] t x = ground arith
  contains-append_one (y ∷ xs) t x = ground (arith, contains-append_one xs t x)

  Unique-append_one :
      (xs : List A) (t : A) → contains xs t ≡ false → Unique xs → Unique (xs ++ (t ∷ []))
  Unique-append_one [] t c u = (refl, tt)
  Unique-append_one (y ∷ xs) t c u =
      (ground (arith, contains-append_one xs t y), Unique-append_one xs t (ground arith) u.1)

false_of_and : (a b : Bool) → (a && not b) ≡ true → b ≡ false
false_of_and a b h = ground arith

module _ (hostname : Text) where
  -- The names that are allowed are the host and the names of the chain, which repeats none.
  record IsChained (scan : Scan) : Type 0 where
    names : (x : Text) → contains scan.allowed_names x ≡ (contains scan.cnames x || x == hostname)
    unique : Unique scan.cnames
    apart : contains scan.cnames hostname ≡ false

  abbrev found : Scan → ℕ
  found scan = length scan.addresses + length scan.cnames

  -- How a record changes the scan.
  record Grows (count : ℕ) (before after : Scan) : Type 0 where
    chained : IsChained before → IsChained after
    bound : found after ≤ found before + count

  Grows-refl : (scan : Scan) → Grows 0 scan scan
  Grows-refl scan = record { chained = λ c. c; bound = omega arith }

  Grows-trans :
      {a b : ℕ} {first middle last : Scan}
      → Grows a first middle
      → Grows b middle last
      → Grows (a + b) first last
  Grows-trans p q =
      let m = p.bound in
      let n = q.bound in record { chained = λ c. q.chained (p.chained c); bound = omega arith }

  -- What a CNAME record, an address record and the end of a record write
  name-Grows :
      (scan : Scan) (target : Text)
      → (contains scan.allowed_names target || contains scan.cnames target) ≡ false
      → Grows 1 scan (record scan {
        cnames = scan.cnames ++ (target ∷ []);
        allowed_names = target ∷ scan.allowed_names;
      })
  name-Grows scan target fresh = record {
    chained = λ c. record {
      names = λ x. ground (arith, c.names x, contains-append_one scan.cnames target x);
      unique = Unique-append_one scan.cnames target (ground arith) c.unique;
      apart = ground (
        arith,
        c.names target,
        c.apart,
        ==-refl target,
        contains-append_one scan.cnames target hostname,
      );
    };
    bound = omega (arith, length-append {0} scan.cnames (target ∷ []));
  }

  address-Grows :
      (scan : Scan) (address : Text)
      → Grows 1 scan (record scan { addresses = scan.addresses ++ (address ∷ []) })
  address-Grows scan address = record {
    chained = λ c. record { names = c.names; unique = c.unique; apart = c.apart };
    bound = omega (arith, length-append {0} scan.addresses (address ∷ []));
  }

  offset-Grows : (scan : Scan) (offset : ℕ) → Grows 0 scan (record scan { offset = offset })
  offset-Grows scan offset = record {
    chained = λ c. record { names = c.names; unique = c.unique; apart = c.apart };
    bound = omega arith;
  }

  found-le :
      (count : ℕ) (before after : Scan)
      → found before ≡ 0
      → Grows count before after
      → found after ≤ count
  found-le count before after e g = let b = g.bound in omega arith

  module _ (canonicalize_domain : Canonicalizer) (compressed : Text → Text) (packet : Text)
      (query_type : ℕ) where
    read_cname-Grows :
        (owner : Text) (start data_end : ℕ) (scan after : Scan)
        → read_cname canonicalize_domain compressed packet query_type owner start data_end scan
          ≡ ok after
        → Grows 1 scan after
    unfolding read_cname
    read_cname-Grows owner start data_end scan after h =
        let (_, _, h₁) =
          >>=-eq-ok (guard (contains scan.allowed_names owner) response_invalid) _ h in
        let ((target, consumed), _, h₂) =
          >>=-eq-ok (decode_name canonicalize_domain packet start) _ h₁ in
        let known = contains scan.allowed_names target || contains scan.cnames target in
        let (_, g, h₃) =
          >>=-eq-ok (guard (consumed == data_end && not known) response_invalid) _ h₂ in
        subst (Grows 1 scan) (ok-injective h₃) (
          name-Grows scan target (
            false_of_and (consumed == data_end) known
              (guard-eq-ok (consumed == data_end && not known) response_invalid g)))

    read_address-Grows :
        (owner : Text) (start data_length : ℕ) (scan after : Scan)
        → read_address canonicalize_domain compressed packet query_type owner start data_length scan
          ≡ ok after
        → Grows 1 scan after
    unfolding read_address
    read_address-Grows owner start data_length scan after h =
        let (_, _, h₁) =
          >>=-eq-ok (guard (contains scan.allowed_names owner) response_invalid) _ h in
        let (_, _, h₂) =
          >>=-eq-ok (guard (data_length == (if query_type == 1 then 4 else 16)) response_invalid) _
            h₁ in
        subst (Grows 1 scan) (ok-injective h₂) (address-Grows scan _)

    read_answer-Grows :
        (owner : Text) (record_type start data_length : ℕ) (scan after : Scan)
        → read_answer canonicalize_domain compressed packet query_type owner record_type start
            data_length scan
          ≡ ok after
        → Grows 1 scan after
    unfolding read_answer
    read_answer-Grows owner record_type start data_length scan after h =
        elim (Bool-cases (record_type == 5)) [
          | inl c ↦ read_cname-Grows owner start (start + data_length) scan after (ground arith)
          | inr c ↦ elim (Bool-cases (record_type == query_type)) [
            | inl q ↦ read_address-Grows owner start data_length scan after (ground arith)
            | inr q ↦
                let same : scan ≡ after = ground arith in
                subst (Grows 1 scan) same (record { chained = λ c. c; bound = omega arith })
          ]
        ]

    if_answer-Grows :
        (is_answer internet : Bool) (owner : Text) (record_type start data_length data_end : ℕ)
        → (scan next : Scan)
        → (if is_answer && internet
            then read_answer canonicalize_domain compressed packet query_type owner record_type
                start data_length scan
            else ok scan)
          ≡ ok next
        → Grows (if is_answer then 1 else 0) scan (record next { offset = data_end })
    if_answer-Grows true true owner record_type start data_length data_end scan next h =
        Grows-trans (read_answer-Grows owner record_type start data_length scan next h)
          (offset-Grows next data_end)
    if_answer-Grows true false owner record_type start data_length data_end scan next h =
        let e : scan ≡ next = ok-injective h in
        subst (λ s. Grows 1 scan (record s { offset = data_end })) e
          (record { chained = (offset-Grows scan data_end).chained; bound = omega arith })
    if_answer-Grows false internet owner record_type start data_length data_end scan next h =
        let e : scan ≡ next = ok-injective h in
        subst (λ s. Grows 0 scan (record s { offset = data_end })) e (offset-Grows scan data_end)

    read_record-Grows :
        (is_answer : Bool) (scan after : Scan)
        → read_record canonicalize_domain compressed packet query_type is_answer scan ≡ ok after
        → Grows (if is_answer then 1 else 0) scan after
    unfolding read_record
    read_record-Grows is_answer scan after h =
        let ((owner, offset), _, h₁) =
          >>=-eq-ok (decode_name canonicalize_domain packet scan.offset) _ h in
        let (_, _, h₂) =
          >>=-eq-ok (guard (leb (offset + 10) (length packet)) response_invalid) _ h₁ in
        let start = offset + 10 in
        let data_length = word packet (offset + 8) in
        let (_, _, h₃) =
          >>=-eq-ok (guard (leb (start + data_length) (length packet)) response_invalid) _ h₂ in
        let (next, e, h₄) =
          >>=-eq-ok
            (if is_answer && word packet (offset + 2) == 1
              then read_answer canonicalize_domain compressed packet query_type owner
                  (word packet offset) start data_length scan
              else ok scan)
            _ h₃ in
        subst (Grows (if is_answer then 1 else 0) scan) (ok-injective h₄) (
          if_answer-Grows is_answer (word packet (offset + 2) == 1) owner (word packet offset) start
            data_length (start + data_length) scan next e)

    read_records-Grows :
        (count answers : ℕ) (scan after : Scan)
        → read_records canonicalize_domain compressed packet query_type count answers scan
          ≡ ok after
        → Grows answers scan after
    unfolding read_records
    read_records-Grows zero answers scan after h =
        let e : scan ≡ after = ok-injective h in
        subst (Grows answers scan) e (record { chained = λ c. c; bound = omega arith })
    read_records-Grows (suc count) zero scan after h =
        let (next, e, h₁) =
          >>=-eq-ok (read_record canonicalize_domain compressed packet query_type false scan) _ h in
        Grows-trans (read_record-Grows false scan next e) (read_records-Grows count 0 next after h₁)
    read_records-Grows (suc count) (suc answers) scan after h =
        let (next, e, h₁) =
          >>=-eq-ok (read_record canonicalize_domain compressed packet query_type true scan) _ h in
        let p = read_record-Grows true scan next e in
        let q = read_records-Grows count answers next after h₁ in
        let m = p.bound in
        let n = q.bound in record { chained = λ c. q.chained (p.chained c); bound = omega arith }

-- A response that is accepted
pub record IsAnswer (packet hostname : Text) (transaction_id : ℕ) (r : Parsed) : Type 0 where
  pub identity : word packet 0 ≡ transaction_id
  pub addresses_unique : Unique r.addresses
  pub names_unique : Unique (hostname ∷ r.cnames)
  pub bound : length r.addresses + length r.cnames ≤ word packet 6
  pub few : word packet 6 + word packet 8 + word packet 10 ≤ max_records

le_of_not : (a b : Bool) (n : ℕ) → not (a || (b || ltb max_records n)) ≡ true → n ≤ max_records
le_of_not a b n h = ground arith

check_header_lem :
    (canonicalize_domain : Canonicalizer) (compressed : Text → Text) (packet : Text)
    → (query_type transaction_id : ℕ) (u : Unit {0})
    → check_header canonicalize_domain compressed packet query_type transaction_id ≡ ok u
    → (word packet 0 ≡ transaction_id)
      × (word packet 6 + word packet 8 + word packet 10 ≤ max_records)
unfolding check_header
check_header_lem canonicalize_domain compressed packet query_type transaction_id u h =
    let size = leb 12 (length packet) && leb (length packet) 4096 in
    let (_, _, h₁) = >>=-eq-ok (guard size response_invalid) _ h in
    let (_, g, h₂) =
      >>=-eq-ok (guard (word packet 0 == transaction_id) transaction_mismatch) _ h₁ in
    (
      eq_of_== (word packet 0) transaction_id
          (guard-eq-ok (word packet 0 == transaction_id) transaction_mismatch g),
      le_of_not (flags_refused (word packet 2)) (not (word packet 4 == 1))
          (word packet 6 + word packet 8 + word packet 10)
          (guard-eq-ok
            (not (
              flags_refused (word packet 2)
              || (not (word packet 4 == 1)
                  || ltb max_records (word packet 6 + word packet 8 + word packet 10))))
            response_invalid h₂),
    )

-- A response that is accepted has the identity of the query. It has at most as many addresses and names
-- as answers, and at most 64 records. No address occurs twice, no name of its chain occurs twice, and
-- none is the name that was asked for, so the chain has no cycle.
pub parse_response-IsAnswer :
    (canonicalize_domain : Canonicalizer) (compressed : Text → Text) (packet hostname : Text)
    → (query_type transaction_id : ℕ) (r : Parsed)
    → parse_response canonicalize_domain compressed packet query_type hostname transaction_id ≡ ok r
    → IsAnswer packet hostname transaction_id r
unfolding parse_response
parse_response-IsAnswer canonicalize_domain compressed packet hostname query_type transaction_id r
      h =
    let (u, e, h₁) =
      >>=-eq-ok (check_header canonicalize_domain compressed packet query_type transaction_id) _
        h in
    let (identity, few) =
      check_header_lem canonicalize_domain compressed packet query_type transaction_id u e in
    let (offset, _, h₂) =
      >>=-eq-ok (check_question canonicalize_domain compressed packet query_type hostname) _ h₁ in
    let first : Scan = record {
      addresses = [];
      cnames = [];
      allowed_names = hostname ∷ [];
      offset = offset;
    } in
    let (scan, e₃, h₃) =
      >>=-eq-ok
        (read_records canonicalize_domain compressed packet query_type
          (word packet 6 + word packet 8 + word packet 10) (word packet 6) first)
        _ h₂ in
    let (_, _, h₄) = >>=-eq-ok (guard (scan.offset == length packet) response_invalid) _ h₃ in
    let (_, g, h₅) = >>=-eq-ok (guard (all_distinct scan.addresses) response_invalid) _ h₄ in
    let grown =
      read_records-Grows hostname canonicalize_domain compressed packet query_type
        (word packet 6 + word packet 8 + word packet 10) (word packet 6) first scan e₃ in
    let c = grown.chained (record { names = λ x. ground arith; unique = tt; apart = refl }) in
    subst (IsAnswer packet hostname transaction_id) (ok-injective h₅) (record {
      identity = identity;
      addresses_unique =
          (all_distinct_iff scan.addresses).0
            (guard-eq-ok (all_distinct scan.addresses) response_invalid g);
      names_unique = (c.apart, c.unique);
      bound = found-le hostname (word packet 6) first scan (omega arith) grown;
      few = few;
    })
