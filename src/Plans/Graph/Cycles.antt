-- ===== src/Plans/Graph/Cycles.antt =====
-- `_reject_cycles` accepts the plans that have no cycle.
use pent_ai.Prelude.{
  ℕ, zero, suc, ◌≤◌, ◌<◌, ◌≡◌, ◌≢◌, ◌↔◌, refl, sym, ap, subst, inl, inr, true, false, ◌&&◌, String,
  List, [], ◌∷◌, ◌==◌, string_eq, eq_of_==, ==-refl, if◌then◌else◌, arith, contains, length, Unique,
  Bool-cases, nat_eq, All, All-map, All-zip, none, some, ok, err, guard,
}
use pent_ai.Plans.Tasks.{Edge, exhausted, dependency_cycle}
use pent_ai.Plans.Graph.{reject_cycles, Counts}
use pent_ai.Plans.Graph.Members.{
  occurrences, occurrences-pos, occurrences-pigeonhole, Unique-occurrences,
}
use pent_ai.Plans.Graph.Release.{arrived_of_All}
use pent_ai.Plans.Graph.Visits.{HasEnds, InOrder, IsVisited, bit-le, length-visited, visit_lem}

All-unit : (edges : List Edge) → All (λ edge. Unit {0}) edges
All-unit [] = tt
All-unit (edge ∷ edges) = (tt, All-unit edges)

-- The place of a task in the order of the visits
abbrev place : List String → String → ℕ
place [] x = 0
place (y ∷ visited) x = if y == x then length visited else place visited x

place-lt :
    (visited : List String) (x : String)
    → 1 ≤ occurrences x visited
    → place visited x < length visited
place-lt [] x h = ground arith
place-lt (y ∷ visited) x h = ground (arith, place-lt visited x)

-- Each task stands behind the tasks that it waits for.
place_mono :
    (edges : List Edge) (visited : List String)
    → ((z : String) → occurrences z visited ≤ 1)
    → InOrder edges visited
    → All
        (λ edge.
          1 ≤ occurrences edge.successor_task_id visited
          → (1 ≤ occurrences edge.predecessor_task_id visited)
            × (place visited edge.predecessor_task_id < place visited edge.successor_task_id))
        edges
place_mono edges [] once o = All-map edges (λ edge p h. absurd (omega arith)) (All-unit edges)
place_mono edges (x ∷ visited) once (here, o) =
    All-zip edges
      (λ edge p q h.
        let s = edge.successor_task_id in
        let t = edge.predecessor_task_id in
        let lone = once t in
        elim (Bool-cases (s == x)) [
          | inl e ↦
              let same = eq_of_== s x e in
              let here : (x == s) ≡ true = subst (λ k. (k == s) ≡ true) same (==-refl s) in
              let w = p e in let l = place-lt visited t (omega arith) in ground arith
          | inr e ↦
              let apart : (x == s) ≡ false = ground arith in
              let l : 1 ≤ occurrences s visited = ground arith in let (w, r) = q l in ground arith
        ])
      here (place_mono edges visited (λ z. let a = once z in omega arith) o)

-- Whether the visited tasks are all
all_visited :
    (ids : List String) (edges : List Edge) (ends : HasEnds ids edges) (last : List String)
    (final : Counts)
    → IsVisited ids edges last final []
    → Unique ids
    → (length last ≡ length ids) ↔ ((x : String) → contains ids x ≡ true → final x ≡ 0)
all_visited ids edges ends last final v u = (
  λ l x c.
      let p =
        occurrences-pigeonhole x last ids
          (λ z. let e = v.exact z in let o = Unique-occurrences ids z u in ground arith) in
      let e = v.exact x in let n = occurrences-pos ids x c in ground arith,
  λ zeros.
      let within : (z : String) → occurrences z ids ≤ occurrences z last = λ z.
        let e = v.exact z in
        let o = Unique-occurrences ids z u in
        elim (Bool-cases (contains ids z)) [
          | inl c ↦ let f = zeros z c in ground arith
          | inr c ↦ ground arith
        ] in
      let p = occurrences-pigeonhole "" ids last within in
      let l = length-visited ids edges ends last final [] v in
      let w = v.exact "" in
      let o = Unique-occurrences ids "" u in let q = within "" in ground arith,
)

-- Tasks that can be ranked wait for no cycle.
ranked :
    (ids : List String) (edges : List Edge) (last : List String) (final : Counts)
    (rank : String → ℕ)
    → HasEnds ids edges
    → IsVisited ids edges last final []
    → All (λ edge. rank edge.predecessor_task_id < rank edge.successor_task_id) edges
    → (n : ℕ) (x : String) → rank x < n
    → contains ids x ≡ true
    → final x ≡ 0
ranked ids edges last final rank ends v ranks zero x l c = absurd (omega arith)
ranked ids edges last final rank ends v ranks (suc n) x l c =
    let a = arrived_of_All edges last x (
      All-zip edges
        (λ edge (p, s) r h.
          let t = edge.predecessor_task_id in
          let same = eq_of_== edge.successor_task_id x h in
          let k : rank edge.successor_task_id ≡ rank x = ap rank same in
          let f = ranked ids edges last final rank ends v ranks n t (omega arith) p in
          let e = v.exact t in ground arith)
        ends ranks) in
    let b = v.balance x in omega arith

decided :
    {R : Type 0} (a b : ℕ)
    → ((a ≡ b) ↔ R)
    → ((guard (a == b) dependency_cycle ≡ ok tt) ↔ R)
      × (guard (a == b) dependency_cycle ≢ err exhausted)
decided a b (f, g) = elim (Bool-cases (a == b)) [
  | inl e ↦
      let same : a ≡ b = eq_of_== a b e in
      rw e ((λ h. f same, λ r. refl), λ h. absurd (ground arith))
  | inr e ↦ rw e (
    (λ h. absurd (ground arith), λ r. let same = g r in absurd (ground arith)),
    λ h. absurd (ground arith),
  )
]

-- The search for a cycle always ends, and accepts exactly the plans whose tasks can be ranked so that each
-- dependency goes up, where the ids are distinct and both ends of each dependency are among them.
pub reject_cycles_iff :
    (ids : List String) (edges : List Edge)
    → Unique ids
    → HasEnds ids edges
    → ((reject_cycles ids edges ≡ ok tt) ↔ (
        (rank : String → ℕ) × All
          (λ edge. rank edge.predecessor_task_id < rank edge.successor_task_id)
          edges))
      × (reject_cycles ids edges ≢ err exhausted)
unfolding reject_cycles
reject_cycles_iff ids edges u ends =
    let (last, (final, (v, e))) = visit_lem ids edges ends u in
    let (all_of, of_all) = all_visited ids edges ends last final v u in
    let once : (z : String) → occurrences z last ≤ 1 =
      λ z. let w = v.exact z in let b = bit-le (contains ids z && final z == 0) in omega arith in
    let places = place_mono edges last once v.in_order in
    subst
      (λ o.
        ((elim o [
          | none ↦ err exhausted
          | some visited ↦ guard (visited == length ids) dependency_cycle
        ]
            ≡ ok tt)
          ↔ ((rank : String → ℕ) × All
                (λ edge. rank edge.predecessor_task_id < rank edge.successor_task_id) edges))
        × (elim o [
          | none ↦ err exhausted
          | some visited ↦ guard (visited == length ids) dependency_cycle
        ]
            ≢ err exhausted))
      (sym e)
      (decided (length last) (length ids) (
        λ l. (
          place last,
          All-zip edges
              (λ edge (p, s) m.
                let z = all_of l edge.successor_task_id s in
                let w = v.exact edge.successor_task_id in
                let h : 1 ≤ occurrences edge.successor_task_id last = ground arith in
                let (_, r) = m h in r)
              ends places,
        ),
        λ (rank, ranks).
            of_all (λ x c.
              ranked ids edges last final rank ends v ranks (suc (rank x)) x (omega arith) c),
      ))
