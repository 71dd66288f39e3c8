-- ===== src/Plans/Graph/Release.antt =====
-- What the inner loop of `_reject_cycles` does to the counts and to the ready tasks, and the edges that
-- the visited tasks have used up.
use pent_ai.Prelude.{
  ℕ, ◌+◌, ◌≤◌, ◌≡◌, refl, ap, inl, inr, Bool, true, false, ◌&&◌, String, List, [], ◌∷◌, ◌++◌, ◌==◌,
  string_eq, eq_of_==, if◌then◌else◌, arith, Bool-cases, nat_eq, All, leb,
}
use pent_ai.Plans.Tasks.{Edge}
use pent_ai.Plans.Graph.{sorted, incoming_count, outgoing, Counts, decrement, release}
use pent_ai.Plans.Graph.Members.{bit, occurrences, occurrences-append, occurrences-sorted}

-- The queue as it stands once `id` is taken from its count
abbrev pushed : String → Counts → List String → List String
pushed id counts queue = if decrement id counts id == 0 then sorted (queue ++ (id ∷ [])) else queue

occurrences-pushed :
    (id x : String) (counts : Counts) (queue : List String)
    → occurrences x (pushed id counts queue)
      ≡ occurrences x queue + bit (id == x && decrement id counts id == 0)
occurrences-pushed id x counts queue = elim (Bool-cases (decrement id counts id == 0)) [
  | inl e ↦
      let s = occurrences-sorted x (queue ++ (id ∷ [])) in
      let a = occurrences-append x queue (id ∷ []) in ground arith
  | inr e ↦ ground arith
]

decrement-covers :
    (id : String) (ids : List String) (counts : Counts)
    → ((z : String) → occurrences z (id ∷ ids) ≤ counts z)
    → (z : String) → occurrences z ids ≤ decrement id counts z
decrement-covers id ids counts h z =
    let a = h z in
    elim (Bool-cases (z == id)) [
      | inl e ↦ let same = eq_of_== z id e in ground arith
      | inr e ↦ ground arith
    ]

-- Each id is taken from its count as often as it occurs in the list.
pub release-counts :
    (ids : List String) (counts : Counts) (queue : List String) (x : String)
    → ((z : String) → occurrences z ids ≤ counts z)
    → (release ids counts queue).0 x + occurrences x ids ≡ counts x
unfolding release
release-counts [] counts queue x h = omega arith
release-counts (id ∷ ids) counts queue x h =
    let i =
      release-counts ids (decrement id counts) (pushed id counts queue) x
        (decrement-covers id ids counts h) in
    let a = h x in elim (Bool-cases (x == id)) [ inl e ↦ ground arith | inr e ↦ ground arith ]

-- The steps of the queue: what the first id adds, and what the others add.
gained :
    (q q₁ q' r k k' : ℕ) (same zeroed : Bool)
    → (same ≡ true → zeroed ≡ (k == 0))
    → k' + r ≡ k
    → q₁ ≡ q + bit (same && zeroed)
    → q' ≡ q₁ + bit (leb 1 r && k' == 0)
    → q' ≡ q + bit (leb 1 (bit same + r) && k' == 0)
gained q q₁ q' r k k' false zeroed z c o i = ground arith
gained q q₁ q' r k k' true zeroed z c o i =
    let w = z refl in elim (Bool-cases (k' == 0)) [ inl e ↦ ground arith | inr e ↦ ground arith ]

-- The queue gains each id of the list whose count has come down to nothing, once.
pub release-queue :
    (ids : List String) (counts : Counts) (queue : List String) (x : String)
    → ((z : String) → occurrences z ids ≤ counts z)
    → occurrences x (release ids counts queue).1
      ≡ occurrences x queue + bit (leb 1 (occurrences x ids) && (release ids counts queue).0 x == 0)
unfolding release
release-queue [] counts queue x h = ground arith
release-queue (id ∷ ids) counts queue x h =
    let i =
      release-queue ids (decrement id counts) (pushed id counts queue) x
        (decrement-covers id ids counts h) in
    let o = occurrences-pushed id x counts queue in
    let c =
      release-counts ids (decrement id counts) (pushed id counts queue) x
        (decrement-covers id ids counts h) in
    gained (occurrences x queue) (occurrences x (pushed id counts queue)) _ (occurrences x ids)
      (decrement id counts x) _ (id == x) (decrement id counts id == 0)
      (λ e. ap (λ k. decrement id counts k == 0) (eq_of_== id x e)) c o i

-- The edges to `x` that come from the visited tasks
abbrev pub arrived : List Edge → List String → String → ℕ
arrived [] visited x = 0
arrived (edge ∷ edges) visited x =
    (if edge.successor_task_id == x then occurrences edge.predecessor_task_id visited else 0)
    + arrived edges visited x

pub arrived-nil : (edges : List Edge) (x : String) → arrived edges [] x ≡ 0
arrived-nil [] x = refl
arrived-nil (edge ∷ edges) x = ground (arith, arrived-nil edges x)

pub arrived-cons :
    (edges : List Edge) (c : String) (visited : List String) (x : String)
    → arrived edges (c ∷ visited) x ≡ occurrences x (outgoing edges c) + arrived edges visited x
unfolding outgoing
arrived-cons [] c visited x = refl
arrived-cons (edge ∷ edges) c visited x =
    let i = arrived-cons edges c visited x in
    elim (Bool-cases (edge.predecessor_task_id == c)) [
      | inl e ↦ let same = eq_of_== edge.predecessor_task_id c e in ground arith
      | inr e ↦ ground arith
    ]

pub arrived-le :
    (edges : List Edge) (visited : List String) (x : String)
    → ((z : String) → occurrences z visited ≤ 1)
    → arrived edges visited x ≤ incoming_count edges x
unfolding incoming_count
arrived-le [] visited x h = omega arith
arrived-le (edge ∷ edges) visited x h =
    let a = h edge.predecessor_task_id in ground (arith, arrived-le edges visited x h)

-- If as many edges arrive at `x` as go there, each of their tasks is visited.
pub arrived-All :
    (edges : List Edge) (visited : List String) (x : String)
    → ((z : String) → occurrences z visited ≤ 1)
    → arrived edges visited x ≡ incoming_count edges x
    → All
        (λ edge.
          (edge.successor_task_id == x) ≡ true → occurrences edge.predecessor_task_id visited ≡ 1)
        edges
unfolding incoming_count
arrived-All [] visited x h e = tt
arrived-All (edge ∷ edges) visited x h e =
    let a = h edge.predecessor_task_id in
    let b = arrived-le edges visited x h in
    let rest : arrived edges visited x ≡ incoming_count edges x = ground arith in
    (λ s. ground arith, arrived-All edges visited x h rest)

pub arrived_of_All :
    (edges : List Edge) (visited : List String) (x : String)
    → All
        (λ edge.
          (edge.successor_task_id == x) ≡ true → occurrences edge.predecessor_task_id visited ≡ 1)
        edges
    → arrived edges visited x ≡ incoming_count edges x
unfolding incoming_count
arrived_of_All [] visited x a = refl
arrived_of_All (edge ∷ edges) visited x (p, a) =
    let i = arrived_of_All edges visited x a in
    elim (Bool-cases (edge.successor_task_id == x)) [
      | inl e ↦ let q = p e in ground arith
      | inr e ↦ ground arith
    ]
