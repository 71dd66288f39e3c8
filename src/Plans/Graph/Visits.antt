-- ===== src/Plans/Graph/Visits.antt =====
-- The outer loop of `_reject_cycles`: what holds of the visited tasks, and that the fuel is enough.
use pent_ai.Prelude.{
  ℕ, zero, suc, ◌+◌, ◌≤◌, ◌<◌, ◌≡◌, refl, subst, inl, inr, Bool, true, false, ◌&&◌, String, List,
  [], ◌∷◌, ◌==◌, string_eq, eq_of_==, ==-refl, arith, contains, length, filter, Unique, Bool-cases,
  nat_eq, All, leb, some,
}
use pent_ai.Plans.Tasks.{Edge}
use pent_ai.Plans.Graph.{sorted, incoming_count, outgoing, Counts, release, visit}
use pent_ai.Plans.Graph.Members.{
  bit, occurrences, occurrences-sorted, occurrences-filter, occurrences-pos, occurrences-pigeonhole,
  Unique-occurrences,
}
use pent_ai.Plans.Graph.Release.{
  release-counts, release-queue, arrived, arrived-nil, arrived-cons, arrived-le, arrived-All,
}

-- Both ends of each edge are tasks.
abbrev pub HasEnds : List String → List Edge → Type 0
HasEnds ids = All (λ edge.
    (contains ids edge.predecessor_task_id ≡ true) × (contains ids edge.successor_task_id ≡ true))

-- Each visited task comes after the tasks that it waits for; the last visited stands first.
abbrev pub InOrder : List Edge → List String → Type 0
InOrder edges [] = Unit
InOrder edges (x ∷ visited) =
    All
      (λ edge.
        (edge.successor_task_id == x) ≡ true → occurrences edge.predecessor_task_id visited ≡ 1)
      edges
    × InOrder edges visited

-- What holds before each round
pub record IsVisited (ids : List String) (edges : List Edge) (visited : List String)
    (counts : Counts) (queue : List String) : Type 0 where
  -- The counts are of the edges that do not come from visited tasks.
  pub balance : (x : String) → counts x + arrived edges visited x ≡ incoming_count edges x
  -- The tasks that wait for nothing are queued or visited, once.
  pub exact :
      (x : String)
      → occurrences x queue + occurrences x visited ≡ bit (contains ids x && counts x == 0)
  pub in_order : InOrder edges visited

pub bit-le : (b : Bool) → bit b ≤ 1
bit-le true = omega arith
bit-le false = omega arith

outgoing-contains :
    (ids : List String) (edges : List Edge) (c x : String)
    → HasEnds ids edges
    → 1 ≤ occurrences x (outgoing edges c)
    → contains ids x ≡ true
unfolding outgoing
outgoing-contains ids [] c x ends h = ground arith
outgoing-contains ids (edge ∷ edges) c x ((p, s), ends) h =
    elim (Bool-cases (edge.predecessor_task_id == c && edge.successor_task_id == x)) [
      | inl e ↦
          let same = eq_of_== edge.successor_task_id x (ground arith) in
          subst (λ k. contains ids k ≡ true) same s
      | inr e ↦ outgoing-contains ids edges c x ends (ground arith)
    ]

-- The arithmetic of a round, for one id
rounded :
    (q q' v r k k' : ℕ) (here inside : Bool)
    → (1 ≤ r → inside ≡ true)
    → k' + r ≡ k
    → (bit here + q) + v ≡ bit (inside && k == 0)
    → q' ≡ q + bit (leb 1 r && k' == 0)
    → q' + (bit here + v) ≡ bit (inside && k' == 0)
rounded q q' v zero k k' here inside i c e o = ground arith
rounded q q' v (suc r) k k' here inside i c e o =
    let w = i (omega arith) in
    elim (Bool-cases (k' == 0)) [ inl z ↦ ground arith | inr z ↦ ground arith ]

module _ (ids : List String) (edges : List Edge) (ends : HasEnds ids edges) where
  start-IsVisited :
      Unique ids
      → IsVisited ids edges []
          (incoming_count edges)
          (sorted (filter (λ id. incoming_count edges id == 0) ids))
  start-IsVisited u = record {
    balance = λ x. let n = arrived-nil edges x in omega arith;
    exact = λ x.
        let s = occurrences-sorted x (filter (λ id. incoming_count edges id == 0) ids) in
        let f = occurrences-filter (λ id. incoming_count edges id == 0) x ids in
        let o = Unique-occurrences ids x u in ground arith;
    in_order = tt;
  }

  round-IsVisited :
      (visited : List String) (counts : Counts) (c : String) (queue : List String)
      → IsVisited ids edges visited counts (c ∷ queue)
      → IsVisited ids edges
          (c ∷ visited)
          (release (sorted (outgoing edges c)) counts queue).0
          (release (sorted (outgoing edges c)) counts queue).1
  round-IsVisited visited counts c queue v =
      let next = sorted (outgoing edges c) in
      let once : (z : String) → occurrences z visited ≤ 1 =
        λ z. let e = v.exact z in let b = bit-le (contains ids z && counts z == 0) in omega arith in
      let once' : (z : String) → occurrences z (c ∷ visited) ≤ 1 =
        λ z. let e = v.exact z in let b = bit-le (contains ids z && counts z == 0) in omega arith in
      let covers : (z : String) → occurrences z next ≤ counts z = λ z.
        let a = arrived-le edges (c ∷ visited) z once' in
        let d = arrived-cons edges c visited z in
        let b = v.balance z in let s = occurrences-sorted z (outgoing edges c) in omega arith in
      record {
        balance = λ x.
            let r = release-counts next counts queue x covers in
            let d = arrived-cons edges c visited x in
            let b = v.balance x in let s = occurrences-sorted x (outgoing edges c) in omega arith;
        exact = λ x.
            let s = occurrences-sorted x (outgoing edges c) in
            rounded (occurrences x queue) _ (occurrences x visited) (occurrences x next) (counts x)
              _ (c == x) (contains ids x) (λ l. outgoing-contains ids edges c x ends (omega arith))
              (release-counts next counts queue x covers) (v.exact x)
              (release-queue next counts queue x covers);
        in_order =
            let e = v.exact c in
            let self = ==-refl c in
            let b = v.balance c in
            let full : arrived edges visited c ≡ incoming_count edges c = ground arith in
            (arrived-All edges visited c once full, v.in_order);
      }

  -- What waits for nothing is a task.
  bit-occurrences : (z : String) (b : Bool) → bit (contains ids z && b) ≤ occurrences z ids
  bit-occurrences z b = elim (Bool-cases (contains ids z)) [
    | inl e ↦ let p = occurrences-pos ids z e in let l = bit-le b in ground arith
    | inr e ↦ ground arith
  ]

  pub length-visited :
      (visited : List String) (counts : Counts) (queue : List String)
      → IsVisited ids edges visited counts queue
      → length visited ≤ length ids
  length-visited visited counts queue v =
      let p =
        occurrences-pigeonhole "" visited ids
          (λ z. let e = v.exact z in let b = bit-occurrences z (counts z == 0) in omega arith) in
      let e = v.exact "" in let b = bit-occurrences "" (counts "" == 0) in omega arith

  visit-IsVisited :
      (fuel : ℕ) (visited : List String) (counts : Counts) (queue : List String)
      → IsVisited ids edges visited counts queue
      → length ids < fuel + length visited
      → (last : List String) × ((final : Counts) × (IsVisited ids edges last final []
            × (visit edges fuel counts queue (length visited) ≡ some (length last))))
  unfolding visit
  visit-IsVisited fuel visited counts [] v enough = (visited, (counts, (v, refl)))
  visit-IsVisited zero visited counts (c ∷ queue) v enough =
      let l = length-visited visited counts (c ∷ queue) v in absurd (omega arith)
  visit-IsVisited (suc fuel) visited counts (c ∷ queue) v enough =
      visit-IsVisited fuel (c ∷ visited) (release (sorted (outgoing edges c)) counts queue).0
        (release (sorted (outgoing edges c)) counts queue).1
        (round-IsVisited visited counts c queue v) (omega arith)

  -- The search ends with all tasks that do not wait for a cycle.
  pub visit_lem :
      Unique ids
      → (last : List String) × ((final : Counts) × (IsVisited ids edges last final []
            × (visit edges
                  (suc (length ids))
                  (incoming_count edges)
                  (sorted (filter (λ id. incoming_count edges id == 0) ids))
                  0
                ≡ some (length last))))
  visit_lem u =
      visit-IsVisited (suc (length ids)) [] (incoming_count edges)
        (sorted (filter (λ id. incoming_count edges id == 0) ids)) (start-IsVisited u) (omega arith)
