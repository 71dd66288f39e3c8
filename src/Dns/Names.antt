-- ===== src/Dns/Names.antt =====
-- `_build_query` and `_decode_name` of controlled_dns_transport.py.
pub mod Termination
pub mod RoundTrip
use pent_ai.Prelude.{
  ℕ, zero, suc, ◌+◌, ◌*◌, ◌/◌, ◌%◌, ◌^◌, Bool, true, false, not, ◌&&◌, ◌||◌, Option, none, some,
  List, [], ◌∷◌, ◌++◌, Text, ◌==◌, nat_eq, if◌then◌else◌, ltb, leb, all, contains, length, take,
  drop, get_elem?, Result, ok, err, ◌>>=◌, ◌>>◌, guard, or_fail,
}

pub data DnsError : Type 0 where
  name_invalid response_invalid transaction_mismatch question_mismatch : DnsError
  cname_mismatch transaction_invalid : DnsError
  resolver_invalid attestation_mismatch port_invalid answer_invalid cname_limit : DnsError
  -- a `UnicodeEncodeError` or `struct.error` that is not caught
  unicode_error struct_error : DnsError
  -- what the transport raises
  transport_failed : DnsError
  -- the fuel is spent, which does not happen
  exhausted : DnsError

-- `canonicalize_domain`, `none` where it raises
abbrev pub Canonicalizer : Type 0
Canonicalizer = Text → Option Text

-- The `width` bits of a number from the bit `low` on.
abbrev pub bits : ℕ → ℕ → ℕ → ℕ
bits n low width = n / 2 ^ low % 2 ^ width

abbrev pub dot : ℕ
dot = b'.'

abbrev push : ℕ → List Text → List Text
push c [] = (c ∷ []) ∷ []
push c (label ∷ labels) = (c ∷ label) ∷ labels

-- `s.split(".")`
unfoldable pub split_dots : Text → List Text
split_dots [] = [] ∷ []
split_dots (c ∷ s) = let rest = split_dots s in if c == dot then [] ∷ rest else push c rest

-- `".".join(labels)`
unfoldable pub join_dots : List Text → Text
join_dots [] = []
join_dots (label ∷ []) = label
join_dots (label ∷ (next ∷ labels)) = label ++ (dot ∷ join_dots (next ∷ labels))

abbrev pub is_ascii : Text → Bool
is_ascii = all (λ c. ltb c 128)

-- The body of the loop over the labels
unfoldable pub encode_label : Text → Result DnsError Text
encode_label label = do
  guard (is_ascii label) unicode_error
  guard (not (length label == 0) && leb (length label) 63) name_invalid
  ok (length label ∷ label)

unfoldable pub encode_labels : List Text → Result DnsError Text
encode_labels [] = ok []
encode_labels (label ∷ labels) = do
  first ← encode_label label
  rest ← encode_labels labels
  ok (first ++ rest)

-- `struct.pack("!H…", *values)`
unfoldable pub pack : List ℕ → Result DnsError Text
pack [] = ok []
pack (value ∷ values) = do
  guard (leb value 65_535) struct_error
  rest ← pack values
  ok (value / 256 ∷ value % 256 ∷ rest)

-- `_build_query`
unfoldable pub build_query : Text → ℕ → ℕ → Result DnsError Text
build_query hostname query_type transaction_id = do
  encoded ← encode_labels (split_dots hostname)
  header ← pack (transaction_id ∷ 0x0100 ∷ 1 ∷ 0 ∷ 0 ∷ 0 ∷ [])
  question ← pack (query_type ∷ 1 ∷ [])
  ok (header ++ (encoded ++ (0 ∷ question)))

abbrev pub slice : Text → ℕ → ℕ → Text
slice packet start n = take n (drop start packet)

-- What the loop of `_decode_name` ends with, `none` where its fuel is spent.
abbrev pub Decoded : Type 0
Decoded = Option (Result DnsError (List Text × ℕ))

-- `consumed if consumed is not None else offset`
abbrev pub or_here : Option ℕ → ℕ → ℕ
or_here none offset = offset
or_here (some consumed) offset = consumed

abbrev pub JumpTo : Type 0
JumpTo = ℕ → List ℕ → Option ℕ → Decoded

-- The branch of a pointer; `jump` is `none` where sixteen jumps have been made.
unfoldable pub follow : Text → ℕ → Option ℕ → List ℕ → Option JumpTo → ℕ → Decoded
follow packet offset consumed visited jump byte = elim (get_elem? packet (offset + 1)) [
  | none ↦ some (err response_invalid)
  | some low ↦
      let pointer = byte % 64 * 256 + low in
      if leb (length packet) pointer || contains visited pointer
      then some (err response_invalid)
      else elim jump [
        | none ↦ some (err response_invalid)
        | some go ↦ go pointer (pointer ∷ visited) (some (or_here consumed (offset + 2)))
      ]
]

-- The branch of a label
unfoldable pub read_label :
    Text → ℕ → Option ℕ → List Text → (ℕ → List Text → Decoded) → ℕ → Decoded
read_label packet offset consumed labels next byte =
    if byte == 0
    then some (ok (labels, or_here consumed (offset + 1)))
    else if ltb 63 byte || ltb (length packet) (offset + 1 + byte)
    then some (err response_invalid)
    else if is_ascii (slice packet (offset + 1) byte)
    then next (offset + 1 + byte) (labels ++ (slice packet (offset + 1) byte ∷ []))
    else some (err response_invalid)

-- The body of the loop
unfoldable pub decode_at :
    Text → ℕ → Option ℕ → List ℕ → List Text → (ℕ → List Text → Decoded) → Option JumpTo → Decoded
unfolding follow read_label
decode_at packet offset consumed visited labels next jump = elim (get_elem? packet offset) [
  | none ↦ some (err response_invalid)
  | some byte ↦
      if bits byte 6 2 == 3
      then follow packet offset consumed visited jump byte
      else if bits byte 6 2 == 0
      then read_label packet offset consumed labels next byte
      else some (err response_invalid)
]

-- The loop: `jumps` counts down the jumps that are left, and a jump renews the fuel `room`.
unfoldable pub decode_loop : Text → ℕ → ℕ → ℕ → Option ℕ → List ℕ → List Text → Decoded
decode_loop packet jumps zero offset consumed visited labels = none
decode_loop packet zero (suc room) offset consumed visited labels =
    decode_at packet offset consumed visited labels
      (λ offset' labels'. decode_loop packet zero room offset' consumed visited labels') none
decode_loop packet (suc jumps) (suc room) offset consumed visited labels =
    decode_at packet offset consumed visited labels
      (λ offset' labels'. decode_loop packet (suc jumps) room offset' consumed visited labels')
      (some (λ pointer visited' consumed'.
        decode_loop packet jumps (suc (length packet)) pointer consumed' visited' labels))

abbrev pub max_pointer_jumps : ℕ
max_pointer_jumps = 16

-- The lines after the loop
unfoldable pub name_of : Canonicalizer → Decoded → Result DnsError (Text × ℕ)
name_of canonicalize_domain none = err exhausted
name_of canonicalize_domain (some (err e)) = err e
name_of canonicalize_domain (some (ok ([], consumed))) = ok ([], consumed)
name_of canonicalize_domain (some (ok (label ∷ labels, consumed))) = do
  name ← or_fail (canonicalize_domain (join_dots (label ∷ labels))) response_invalid
  ok (name, consumed)

-- `_decode_name`
unfoldable pub decode_name : Canonicalizer → Text → ℕ → Result DnsError (Text × ℕ)
decode_name canonicalize_domain packet start =
    name_of canonicalize_domain
      (decode_loop packet max_pointer_jumps (suc (length packet)) start none [] [])
