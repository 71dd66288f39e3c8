-- ===== src/Policy/Evaluator/Scope.antt =====
-- The scope check of `evaluate` against the rules that apply to a target.
use pent_ai.Prelude.{
  ℕ, ◌≤◌, ◌≡◌, refl, ◌↔◌, ◌⊎◌, inl, inr, Bool, true, false, not, ◌||◌, String, List, [], ◌∷◌, map,
  arith, ◌==◌, leb, any, any-true, any-false, All, All-map, All-zip, All-filter, Result, ok, guard,
  ◌>>=◌, ◌>>◌, contains, nat_eq, Text,
}
use pent_ai.Policy.Document.{
  Target, AssetRule, Effect, effect_eq, target_out_of_scope, explicit_deny, default_deny,
}
use pent_ai.Policy.Paths.{path_matches}
use pent_ai.Policy.Matching.{asset_matches}
use pent_ai.Policy.Evaluator.{
  Stop, deny, is_empty, matching, max_specificity, at_least, port_admitted, path_admitted,
  check_limits, check_scope,
}
use pent_ai.Policy.Evaluator.Permitted.{PortAdmitted, PathAdmitted, Applies, InScope}
use pent_ai.Policy.Evaluator.Stages.{is_empty-filter}

max_specificity-le :
    (rules : List AssetRule) (bound : ℕ)
    → max_specificity rules ≤ bound ↔ All (λ rule. rule.specificity ≤ bound) rules
max_specificity-le [] bound = (λ h. tt, λ a. omega arith)
max_specificity-le (rule ∷ rules) bound =
    let (f, g) = max_specificity-le rules bound in
    (λ h. (omega arith, f (omega arith)), λ (h, a). let k = g a in omega arith)

is_empty_iff {ℓ} : {A : Type ℓ} (xs : List A) → is_empty xs ≡ true ↔ (xs ≡ [])
is_empty_iff [] = ground arith
is_empty_iff (x ∷ xs) = ground arith

or_iff : (a b : Bool) → (a || b) ≡ true ↔ ((a ≡ true) ⊎ (b ≡ true))
or_iff a b = ground arith

port_admitted_iff :
    (rule : AssetRule) (target : Target)
    → port_admitted rule target ≡ true ↔ PortAdmitted rule target
port_admitted_iff rule target =
    let (f, g) = is_empty_iff rule.allowed_ports in
    let (h, k) = or_iff (is_empty rule.allowed_ports) (contains rule.allowed_ports target.port) in
    (
      λ e. elim (h e) [ inl p ↦ inl (f p) | inr p ↦ inr p ],
      λ c. k (elim c [ inl p ↦ inl (g p) | inr p ↦ inr p ]),
    )

path_admitted_iff :
    (rule : AssetRule) (target : Target)
    → path_admitted rule target ≡ true ↔ PathAdmitted rule target
path_admitted_iff rule target =
    let test = λ (path : Text). path_matches path target.path in
    let (f, g) = is_empty_iff rule.allowed_paths in
    let (f', g') = any-true test rule.allowed_paths in
    let (h, k) = or_iff (is_empty rule.allowed_paths) (any test rule.allowed_paths) in
    (
      λ e. elim (h e) [ inl p ↦ inl (f p) | inr p ↦ inr (f' p) ],
      λ c. k (elim c [ inl p ↦ inl (g p) | inr p ↦ inr (g' p) ]),
    )

abbrev Admits : Target → AssetRule → Type 0
Admits target rule = PortAdmitted rule target × PathAdmitted rule target

two_guards :
    (p q : Bool) (x y : Stop) (rest : Result Stop (Unit {0}))
    → (guard p x >> (guard q y >> rest)) ≡ ok tt ↔ ((p ≡ true) × (q ≡ true) × (rest ≡ ok tt))
two_guards p q x y rest = ground arith

check_limits_iff :
    (rules : List AssetRule) (target : Target) (ids : List String)
    → check_limits rules target ids ≡ ok tt ↔ All (Admits target) rules
unfolding check_limits
check_limits_iff [] target ids = (λ h. tt, λ a. refl)
check_limits_iff (rule ∷ rules) target ids =
    let (f, g) = check_limits_iff rules target ids in
    let (f₁, g₁) = port_admitted_iff rule target in
    let (f₂, g₂) = path_admitted_iff rule target in
    (
      λ h. let (p, q, r) = (two_guards _ _ _ _ _).0 h in ((f₁ p, f₂ q), f r),
      λ ((p, q), a). (two_guards _ _ _ _ _).1 (g₁ p, g₂ q, g a),
    )

abbrev pub applicable : List AssetRule → Target → List AssetRule
applicable rules target = at_least (max_specificity (matching target rules)) (matching target rules)

-- A rule that matches applies exactly where its specificity is the greatest.
greatest_iff :
    (rules : List AssetRule) (target : Target) (bound : ℕ)
    → leb (max_specificity (matching target rules)) bound ≡ true
      ↔ All (λ other. asset_matches other target ≡ true → other.specificity ≤ bound) rules
greatest_iff rules target bound =
    let (f, g) = max_specificity-le (matching target rules) bound in
    let (h, k) =
      All-filter (λ (r : AssetRule). r.specificity ≤ bound) (λ r. asset_matches r target) rules in
    (λ e. h (f (ground arith)), λ a. let l = g (k a) in ground arith)

-- A property of the rules that the code finds applicable is one of the rules that apply.
applicable_iff :
    (P : AssetRule → Type 0) (rules : List AssetRule) (target : Target)
    → All P (applicable rules target) ↔ All (λ rule. Applies rules target rule → P rule) rules
applicable_iff P rules target =
    let m = max_specificity (matching target rules) in
    let (f, g) = All-filter P (λ (r : AssetRule). leb m r.specificity) (matching target rules) in
    let (h, k) =
      All-filter (λ (r : AssetRule). leb m r.specificity ≡ true → P r) (λ r. asset_matches r target)
        rules in
    (
      λ a.
          All-map rules (λ r p (e, top). p e ((greatest_iff rules target r.specificity).1 top))
            (h (f a)),
      λ a.
          g (k (All-map rules (λ r p e l. p (e, (greatest_iff rules target r.specificity).0 l)) a)),
    )

effect_test :
    (effect : Effect)
    → (((effect == Effect.deny) ≡ false) × (not (effect == Effect.allow) ≡ false))
      ↔ (effect ≡ Effect.allow)
unfolding effect_eq
effect_test Effect.allow = (λ _. refl, λ _. (refl, refl))
effect_test Effect.deny = ground arith
effect_test Effect.conditional = ground arith

-- The checks of `check_scope`, their tests taken as variables.
scope_guards :
    (empty denies other : Bool) (x y z : Stop) (limits : Result Stop (Unit {0})) (ids : List String)
    → (guard (not empty) x >>= λ _.
          guard (not denies) y >>= λ _. guard (not other) z >>= λ _. limits >>= λ _. ok ids)
        ≡ ok ids
      ↔ ((empty ≡ false) × (denies ≡ false) × (other ≡ false) × (limits ≡ ok tt))
scope_guards empty denies other x y z limits ids = ground arith

abbrev pub ids_of : List AssetRule → List String
ids_of = map (λ (rule : AssetRule). rule.rule_id)

abbrev denies : List AssetRule → Bool
denies = any (λ (rule : AssetRule). rule.effect == Effect.deny)

abbrev allows_not : List AssetRule → Bool
allows_not = any (λ (rule : AssetRule). not (rule.effect == Effect.allow))

check_scope_guards :
    (rules : List AssetRule) (target : Target)
    → check_scope rules target ≡ ok (ids_of (applicable rules target)) ↔ (
        (is_empty (matching target rules) ≡ false)
        × (denies (applicable rules target) ≡ false)
        × (allows_not (applicable rules target) ≡ false)
        × (check_limits (applicable rules target) target (ids_of (applicable rules target))
            ≡ ok tt))
unfolding check_scope
check_scope_guards rules target =
    let these = applicable rules target in
    scope_guards (is_empty (matching target rules)) (denies these) (allows_not these)
      (deny target_out_of_scope []) (deny explicit_deny (ids_of these))
      (deny default_deny (ids_of these)) (check_limits these target (ids_of these)) (ids_of these)

abbrev Fits : Target → AssetRule → Type 0
Fits target rule =
    (rule.effect ≡ Effect.allow) × PortAdmitted rule target × PathAdmitted rule target

applicable_tests :
    (rules : List AssetRule) (target : Target) (ids : List String)
    → ((denies rules ≡ false)
        × (allows_not rules ≡ false)
        × (check_limits rules target ids ≡ ok tt))
      ↔ All (Fits target) rules
applicable_tests rules target ids = (
  λ (b, c, d).
      All-zip {Q = λ r. (not (r.effect == Effect.allow) ≡ false) × Admits target r} rules
        (λ r p (q, l). ((effect_test r.effect).0 (p, q), l.0, l.1))
        ((any-false (λ (r : AssetRule). r.effect == Effect.deny) rules).0 b)
        (All-zip rules (λ r m n. (m, n))
          ((any-false (λ (r : AssetRule). not (r.effect == Effect.allow)) rules).0 c)
          ((check_limits_iff rules target ids).0 d)),
  λ a. (
    (any-false (λ (r : AssetRule). r.effect == Effect.deny) rules).1
        (All-map rules (λ r f. ((effect_test r.effect).1 f.0).0) a),
    (any-false (λ (r : AssetRule). not (r.effect == Effect.allow)) rules).1
        (All-map rules (λ r f. ((effect_test r.effect).1 f.0).1) a),
    (check_limits_iff rules target ids).1 (All-map rules (λ r f. (f.1, f.2)) a),
  ),
)

-- The scope check passes exactly where the target is in scope.
pub check_scope_iff :
    (rules : List AssetRule) (target : Target)
    → check_scope rules target ≡ ok (ids_of (applicable rules target)) ↔ InScope rules target
check_scope_iff rules target = (
  λ h.
      let (a, b, c, d) = (check_scope_guards rules target).0 h in
      (
        (is_empty-filter (λ r. asset_matches r target) rules).0 a,
        (applicable_iff (Fits target) rules target).0
            ((applicable_tests (applicable rules target) target _).0 (b, c, d)),
      ),
  λ (found, fine).
      let (b, c, d) =
        (applicable_tests (applicable rules target) target (ids_of (applicable rules target))).1
          ((applicable_iff (Fits target) rules target).1 fine) in
      (check_scope_guards rules target).1
        ((is_empty-filter (λ r. asset_matches r target) rules).1 found, b, c, d),
)

pub check_scope-ids :
    (rules : List AssetRule) (target : Target) (ids : List String)
    → check_scope rules target ≡ ok ids
    → ids ≡ ids_of (applicable rules target)
unfolding check_scope
check_scope-ids rules target ids h = ground arith
