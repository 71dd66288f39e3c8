-- ===== src/Dns/Names/RoundTrip.antt =====
-- What `_build_query` encodes, `_decode_name` decodes.
use pent_ai.Prelude.{
  ℕ, zero, suc, ◌+◌, ◌≤◌, ◌<◌, ◌≡◌, refl, sym, ap, subst, ◌∙◌, true, Option, none, some, List, [],
  ◌∷◌, ◌++◌, Text, arith, length, take, drop, ok, Bool-cases, inl, inr, length-append, append_assoc,
  get_elem?-append, drop-append, take-append, append-nil, >>=-eq-ok, guard, leb, or_fail, ◌>>=◌,
  ◌/◌, ◌%◌, ◌==◌, nat_eq, ok-injective,
}
use pent_ai.Dns.Names.{
  Canonicalizer, Decoded, decode_at, decode_loop, read_label, or_here, encode_label, encode_labels,
  slice, is_ascii, split_dots, join_dots, dot, pack, build_query, decode_name, name_of,
  max_pointer_jumps, push, struct_error, response_invalid,
}

-- A label that can be encoded
pub record IsLabel (label : Text) : Type 0 where
  pub ascii : is_ascii label ≡ true
  pub short : length label ≤ 63
  pub given : 0 < length label

-- A label is encoded behind its length.
encode_label_lem :
    (label encoded : Text)
    → encode_label label ≡ ok encoded
    → IsLabel label × (encoded ≡ length label ∷ label)
unfolding encode_label
encode_label_lem label encoded h =
    (record { ascii = ground arith; short = ground arith; given = ground arith }, ground arith)

module _ (before label after : Text) where
  abbrev packet : Text
  packet = before ++ (length label ∷ (label ++ after))

  slice_label : slice packet (length before + 1) (length label) ≡ label
  slice_label =
      let e : packet ≡ (before ++ (length label ∷ [])) ++ (label ++ after) =
        sym (append_assoc before (length label ∷ []) (label ++ after)) in
      let n : length before + 1 ≡ length (before ++ (length label ∷ [])) =
        omega (arith, length-append {0} before (length label ∷ [])) in
      ap (take (length label)) (
        ap (λ p. drop (length before + 1) p) e
        ∙ (ap (λ k. drop k ((before ++ (length label ∷ [])) ++ (label ++ after))) n
            ∙ drop-append (before ++ (length label ∷ [])) (label ++ after)))
      ∙ take-append label after

  fits : length before + 1 + length label ≤ length packet
  fits = omega (
    arith,
    length-append {0} before (length label ∷ (label ++ after)),
    length-append {0} label after,
  )

  read_label_lem :
      (consumed : Option ℕ) (labels : List Text) (next : ℕ → List Text → Decoded)
      → IsLabel label
      → read_label packet (length before) consumed labels next (length label)
        ≡ next (length before + 1 + length label) (labels ++ (label ∷ []))
  unfolding read_label
  read_label_lem consumed labels next l = ground (arith, slice_label, fits)

  decode_loop_label :
      (jumps room : ℕ) (consumed : Option ℕ) (visited : List ℕ) (labels : List Text)
      → IsLabel label
      → decode_loop packet jumps (suc room) (length before) consumed visited labels
        ≡ decode_loop packet jumps room
            (length before + 1 + length label)
            consumed
            visited
            (labels ++ (label ∷ []))
  unfolding decode_loop decode_at
  decode_loop_label zero room consumed visited labels l = ground (
    arith,
    get_elem?-append before (label ++ after) (length label),
    read_label_lem consumed labels
        (λ offset' labels'. decode_loop packet zero room offset' consumed visited labels') l,
    l.short,
  )
  decode_loop_label (suc jumps) room consumed visited labels l = ground (
    arith,
    get_elem?-append before (label ++ after) (length label),
    read_label_lem consumed labels
        (λ offset' labels'. decode_loop packet (suc jumps) room offset' consumed visited labels') l,
    l.short,
  )

decode_loop_end :
    (before after : Text) (jumps room : ℕ) (consumed : Option ℕ) (visited : List ℕ)
    → (labels : List Text)
    → decode_loop (before ++ (0 ∷ after)) jumps (suc room) (length before) consumed visited labels
      ≡ some (ok (labels, or_here consumed (length before + 1)))
unfolding decode_loop decode_at read_label
decode_loop_end before after zero room consumed visited labels =
    ground (arith, get_elem?-append before after 0)
decode_loop_end before after (suc jumps) room consumed visited labels =
    ground (arith, get_elem?-append before after 0)

-- The labels that are encoded are read back, up to the end of the name.
decode_loop-encode_labels :
    (labels : List Text) (encoded before after : Text) (jumps room : ℕ) (consumed : Option ℕ)
    → (visited : List ℕ) (known : List Text) → encode_labels labels ≡ ok encoded
    → length labels < room
    → decode_loop
        (before ++ (encoded ++ (0 ∷ after)))
        jumps
        room
        (length before)
        consumed
        visited
        known
      ≡ some (ok (known ++ labels, or_here consumed (length before + length encoded + 1)))
unfolding encode_labels
decode_loop-encode_labels labels encoded before after jumps zero consumed visited known h r =
    absurd (omega arith)
decode_loop-encode_labels [] encoded before after jumps (suc room) consumed visited known h r =
    let e : [] ≡ encoded = ok-injective h in
    subst
      (λ bytes.
        decode_loop (before ++ (bytes ++ (0 ∷ after))) jumps (suc room) (length before) consumed
          visited known
        ≡ some (ok (known ++ [], or_here consumed (length before + length bytes + 1))))
      e
      (decode_loop_end before after jumps room consumed visited known
        ∙ rw (append-nil known) (ap (λ n. some (ok (known, or_here consumed n))) (omega arith)))
decode_loop-encode_labels (label ∷ labels) encoded before after jumps (suc room) consumed visited
      known h r =
    let (first, e₁, h₁) = >>=-eq-ok (encode_label label) _ h in
    let (l, f) = encode_label_lem label first e₁ in
    let (rest, e₂, h₂) = >>=-eq-ok (encode_labels labels) _ h₁ in
    let e : (length label ∷ label) ++ rest ≡ encoded =
      ap (λ t. t ++ rest) (sym f) ∙ ok-injective h₂ in
    let before' = before ++ (length label ∷ label) in
    let tail = rest ++ (0 ∷ after) in
    let p : before ++ (length label ∷ (label ++ tail))
        ≡ before ++ (((length label ∷ label) ++ rest) ++ (0 ∷ after)) =
      ap (λ t. before ++ (length label ∷ t)) (sym (append_assoc label rest (0 ∷ after))) in
    let p' : before ++ (length label ∷ (label ++ tail)) ≡ before' ++ tail =
      sym (append_assoc before (length label ∷ label) tail) in
    let n : length before + 1 + length label ≡ length before' =
      omega (arith, length-append {0} before (length label ∷ label)) in
    let m : length before' + length rest + 1
        ≡ length before + length ((length label ∷ label) ++ rest) + 1 =
      omega
        (arith, length-append {0} before (length label ∷ label), length-append {0} label rest) in
    subst
      (λ bytes.
        decode_loop (before ++ (bytes ++ (0 ∷ after))) jumps (suc room) (length before) consumed
          visited known
        ≡ some
            (ok (known ++ (label ∷ labels), or_here consumed (length before + length bytes + 1))))
      e
      (ap (λ t. decode_loop t jumps (suc room) (length before) consumed visited known) (sym p)
        ∙ (decode_loop_label before label tail jumps room consumed visited known l
            ∙ (ap
                  (λ t.
                    decode_loop t jumps room (length before + 1 + length label) consumed visited
                      (known ++ (label ∷ [])))
                  p'
                ∙ (ap
                      (λ k.
                        decode_loop (before' ++ tail) jumps room k consumed visited
                          (known ++ (label ∷ [])))
                      n
                    ∙ (decode_loop-encode_labels labels rest before' after jumps room consumed
                          visited (known ++ (label ∷ [])) e₂ (omega arith)
                        ∙ (ap
                              (λ ls.
                                some (ok (ls, or_here consumed (length before' + length rest + 1))))
                              (append_assoc known (label ∷ []) labels)
                            ∙ ap (λ k. some (ok (known ++ (label ∷ labels), or_here consumed k)))
                                m))))))

join_dots-push : (c : ℕ) (labels : List Text) → join_dots (push c labels) ≡ c ∷ join_dots labels
unfolding join_dots
join_dots-push c [] = refl
join_dots-push c (label ∷ []) = refl
join_dots-push c (label ∷ (next ∷ labels)) = refl

split_dots-cons :
    (s : Text) → (label : Text) × ((labels : List Text) × (split_dots s ≡ label ∷ labels))
unfolding split_dots
split_dots-cons [] = ([], ([], refl))
split_dots-cons (c ∷ s) =
    let (label, (labels, e)) = split_dots-cons s in
    elim (Bool-cases (c == dot)) [
      | inl d ↦ ([], (label ∷ labels, ground arith))
      | inr d ↦ (c ∷ label, (labels, ground arith))
    ]

join_dots-split_dots : (s : Text) → join_dots (split_dots s) ≡ s
unfolding split_dots join_dots
join_dots-split_dots [] = refl
join_dots-split_dots (c ∷ s) =
    let (label, (labels, e)) = split_dots-cons s in
    let ih = join_dots-split_dots s in
    elim (Bool-cases (c == dot)) [
      | inl d ↦ ground arith
      | inr d ↦ ground (arith, join_dots-push c (split_dots s))
    ]

pack-length :
    (values : List ℕ) (bytes : Text)
    → pack values ≡ ok bytes
    → length bytes ≡ length values + length values
unfolding pack
pack-length [] bytes h = ground arith
pack-length (value ∷ values) bytes h =
    let (_, _, h₁) = >>=-eq-ok (guard (leb value 65_535) struct_error) _ h in
    let (rest, e, h₂) = >>=-eq-ok (pack values) _ h₁ in
    let n = ap length (ok-injective h₂) in omega (arith, pack-length values rest e)

encode_labels-length :
    (labels : List Text) (encoded : Text)
    → encode_labels labels ≡ ok encoded
    → length labels ≤ length encoded
unfolding encode_labels
encode_labels-length [] encoded h = omega arith
encode_labels-length (label ∷ labels) encoded h =
    let (first, e₁, h₁) = >>=-eq-ok (encode_label label) _ h in
    let (l, f) = encode_label_lem label first e₁ in
    let (rest, e₂, h₂) = >>=-eq-ok (encode_labels labels) _ h₁ in
    let n : length first ≡ suc (length label) = ap length f in
    let m : length (first ++ rest) ≡ length encoded = ap length (ok-injective h₂) in
    omega (arith, length-append {0} first rest, encode_labels-length labels rest e₂)

module _ (header encoded tail : Text) where
  abbrev query : Text
  query = header ++ (encoded ++ (0 ∷ tail))

  length-query : length query ≡ length header + length encoded + 1 + length tail
  length-query = omega (
    arith,
    length-append {0} header (encoded ++ (0 ∷ tail)),
    length-append {0} encoded (0 ∷ tail),
  )

  drop-query : drop (length header + length encoded + 1) query ≡ tail
  drop-query =
      let front = header ++ (encoded ++ (0 ∷ [])) in
      let e : front ++ tail ≡ query =
        append_assoc header (encoded ++ (0 ∷ [])) tail
        ∙ ap (λ t. header ++ t) (append_assoc encoded (0 ∷ []) tail) in
      let n : length front ≡ length header + length encoded + 1 = omega (
        arith,
        length-append {0} header (encoded ++ (0 ∷ [])),
        length-append {0} encoded (0 ∷ []),
      ) in
      subst (λ k. drop k query ≡ tail) n
        (subst (λ t. drop (length front) t ≡ tail) e (drop-append front tail))

  decode_name-query :
      (canonicalize_domain : Canonicalizer) (hostname : Text)
      → encode_labels (split_dots hostname) ≡ ok encoded
      → canonicalize_domain hostname ≡ some hostname
      → decode_name canonicalize_domain query (length header)
        ≡ ok (hostname, length header + length encoded + 1)
  unfolding decode_name name_of
  decode_name-query canonicalize_domain hostname e c =
      let consumed = length header + length encoded + 1 in
      let (label, (labels, s)) = split_dots-cons hostname in
      let d =
        decode_loop-encode_labels (split_dots hostname) encoded header tail max_pointer_jumps
          (suc (length query)) none [] [] e
          (omega (arith, encode_labels-length (split_dots hostname) encoded e, length-query)) in
      let j : join_dots (label ∷ labels) ≡ hostname =
        ap join_dots (sym s) ∙ join_dots-split_dots hostname in
      ap (name_of canonicalize_domain) (d ∙ ap (λ ls. some (ok (ls, consumed))) s)
      ∙ ap (λ o. or_fail o response_invalid >>= λ name. ok (name, consumed))
          (ap canonicalize_domain j ∙ c)

pack_question :
    (query_type : ℕ) (question : Text)
    → pack (query_type ∷ 1 ∷ []) ≡ ok question
    → question ≡ query_type / 256 ∷ query_type % 256 ∷ 0 ∷ 1 ∷ []
unfolding pack
pack_question query_type question h = ground arith

-- The name in a query that is built is decoded from its offset 12 as the name that was asked for, and
-- four bytes follow it, the type and the class, if the name is its own canonical form.
pub decode_name-build_query :
    (canonicalize_domain : Canonicalizer) (hostname packet : Text) (query_type transaction_id : ℕ)
    → canonicalize_domain hostname ≡ some hostname
    → build_query hostname query_type transaction_id ≡ ok packet
    → (offset : ℕ) × ((decode_name canonicalize_domain packet 12 ≡ ok (hostname, offset))
        × (drop offset packet ≡ query_type / 256 ∷ query_type % 256 ∷ 0 ∷ 1 ∷ []))
unfolding build_query
decode_name-build_query canonicalize_domain hostname packet query_type transaction_id c h =
    let (encoded, e, h₁) = >>=-eq-ok (encode_labels (split_dots hostname)) _ h in
    let (header, e₁, h₂) = >>=-eq-ok (pack (transaction_id ∷ 0x0100 ∷ 1 ∷ 0 ∷ 0 ∷ 0 ∷ [])) _ h₁ in
    let (question, e₂, h₃) = >>=-eq-ok (pack (query_type ∷ 1 ∷ [])) _ h₂ in
    let p : header ++ (encoded ++ (0 ∷ question)) ≡ packet = ok-injective h₃ in
    let n : length header ≡ 12 =
      pack-length (transaction_id ∷ 0x0100 ∷ 1 ∷ 0 ∷ 0 ∷ 0 ∷ []) header e₁ ∙ omega arith in
    (
      length header + length encoded + 1,
      (
        subst
            (λ t.
              decode_name canonicalize_domain t 12
              ≡ ok (hostname, length header + length encoded + 1))
            p
            (subst
              (λ k.
                decode_name canonicalize_domain (header ++ (encoded ++ (0 ∷ question))) k
                ≡ ok (hostname, length header + length encoded + 1))
              n (decode_name-query header encoded question canonicalize_domain hostname e c)),
        subst
            (λ t.
              drop (length header + length encoded + 1) t
              ≡ query_type / 256 ∷ query_type % 256 ∷ 0 ∷ 1 ∷ [])
            p (drop-query header encoded question ∙ pack_question query_type question e₂),
      ),
    )
