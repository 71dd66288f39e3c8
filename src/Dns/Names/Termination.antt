-- ===== src/Dns/Names/Termination.antt =====
-- `_decode_name` ends on every packet, also where its pointers form a cycle.
use pent_ai.Prelude.{
  ℕ, zero, suc, ◌+◌, ◌*◌, ◌%◌, ◌≤◌, ◌<◌, ◌≡◌, ◌≢◌, inl, inr, Option, none, some, List, [], ◌∷◌,
  Text, arith, length, Result, Option-cases, get_elem?, ◌++◌, nat_eq,
}
use pent_ai.Dns.Names.{
  DnsError, Decoded, JumpTo, decode_at, decode_loop, follow, slice, max_pointer_jumps, read_label,
  or_here,
}

-- A jump that is possible goes on to a result.
abbrev Lands : Text → Option JumpTo → Type 0
Lands packet none = Unit
Lands packet (some go) =
    (pointer : ℕ) (visited : List ℕ) (consumed : Option ℕ)
    → pointer < length packet
    → go pointer visited consumed ≢ none

-- So does a label that is read.
abbrev Advances : Text → ℕ → (ℕ → List Text → Decoded) → Type 0
Advances packet offset next =
    (offset' : ℕ) (labels : List Text)
    → offset < offset'
    → offset' ≤ length packet
    → next offset' labels ≢ none

follow-ne-none :
    (packet : Text) (offset : ℕ) (consumed : Option ℕ) (visited : List ℕ) (jump : Option JumpTo)
    → (byte : ℕ) → Lands packet jump
    → follow packet offset consumed visited jump byte ≢ none
unfolding follow
follow-ne-none packet offset consumed visited none byte lands h = ground arith
follow-ne-none packet offset consumed visited (some go) byte lands h =
    elim (Option-cases (get_elem? packet (offset + 1))) [
      | inl e ↦ ground arith
      | inr (low, e) ↦
          let pointer = byte % 64 * 256 + low in
          ground (arith, lands pointer (pointer ∷ visited) (some (or_here consumed (offset + 2))))
    ]

read_label-ne-none :
    (packet : Text) (offset : ℕ) (consumed : Option ℕ) (labels : List Text)
    → (next : ℕ → List Text → Decoded) (byte : ℕ) → Advances packet offset next
    → read_label packet offset consumed labels next byte ≢ none
unfolding read_label
read_label-ne-none packet offset consumed labels next byte advances h =
    ground (arith, advances (offset + 1 + byte) (labels ++ (slice packet (offset + 1) byte ∷ [])))

decode_at-ne-none :
    (packet : Text) (offset : ℕ) (consumed : Option ℕ) (visited : List ℕ) (labels : List Text)
    → (next : ℕ → List Text → Decoded) (jump : Option JumpTo) → Advances packet offset next
    → Lands packet jump
    → decode_at packet offset consumed visited labels next jump ≢ none
unfolding decode_at
decode_at-ne-none packet offset consumed visited labels next jump advances lands h =
    elim (Option-cases (get_elem? packet offset)) [
      | inl e ↦ ground arith
      | inr (byte, e) ↦ ground (
        arith,
        follow-ne-none packet offset consumed visited jump byte lands,
        read_label-ne-none packet offset consumed labels next byte advances,
      )
    ]

decode_loop-ne-none :
    (packet : Text) (jumps room offset : ℕ) (consumed : Option ℕ) (visited : List ℕ)
    → (labels : List Text) → 0 < room
    → (offset ≤ length packet → length packet < offset + room)
    → decode_loop packet jumps room offset consumed visited labels ≢ none
unfolding decode_loop
decode_loop-ne-none packet jumps zero offset consumed visited labels r f = absurd (omega arith)
decode_loop-ne-none packet zero (suc room) offset consumed visited labels r f =
    decode_at-ne-none packet offset consumed visited labels _ none
      (λ offset' labels' l m.
        decode_loop-ne-none packet zero room offset' consumed visited labels'
          (omega (arith, f (omega arith))) (λ _. omega (arith, f (omega arith))))
      tt
decode_loop-ne-none packet (suc jumps) (suc room) offset consumed visited labels r f =
    decode_at-ne-none packet offset consumed visited labels _ (some _)
      (λ offset' labels' l m.
        decode_loop-ne-none packet (suc jumps) room offset' consumed visited labels'
          (omega (arith, f (omega arith))) (λ _. omega (arith, f (omega arith))))
      (λ pointer visited' consumed' l.
        decode_loop-ne-none packet jumps (suc (length packet)) pointer consumed' visited' labels
          (omega arith) (λ _. omega arith))

-- The loop of the decoder ends with a result on every packet, whatever its pointers are, and wherever
-- it starts: the fuel of one label for each byte and one more, renewed by each of sixteen jumps, is
-- enough.
pub decode_loop_total :
    (packet : Text) (start : ℕ)
    → (d : Result DnsError (List Text × ℕ)) × (decode_loop packet max_pointer_jumps
          (suc (length packet))
          start
          none
          []
          []
        ≡ some d)
decode_loop_total packet start =
    elim (Option-cases
      (decode_loop packet max_pointer_jumps (suc (length packet)) start none [] [])) [
        | inl e ↦ absurd (
            decode_loop-ne-none packet max_pointer_jumps (suc (length packet)) start none [] []
              (omega arith) (λ _. omega arith) e)
        | inr found ↦ found
      ]
