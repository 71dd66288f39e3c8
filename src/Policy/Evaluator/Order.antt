-- ===== src/Policy/Evaluator/Order.antt =====
-- Whether a target is in scope does not depend on the order in which a policy lists its rules.
use mathlib.Core.Bool.{Bool-set}
use mathlib.Core.List.Permᴰ
use mathlib.Core.List.{Perm, Permᴰ}
use mathlib.Core.Logic.{∥∥₁_elim}
use pent_ai.Prelude.{
  ◌≡◌, refl, sym, subst, ◌↔◌, inl, inr, Bool, true, false, List, arith, All, Any, All-map, Result,
  ok, err, Result-cases, ap, ◌∙◌,
}
use pent_ai.Policy.Document.{Target, AssetRule}
use pent_ai.Policy.Evaluator.{Stop, check_scope}
use pent_ai.Policy.Evaluator.Permitted.{InScope}
use pent_ai.Policy.Evaluator.Scope.{check_scope_iff, check_scope-ids}

All-Permᴰ {ℓ} : {A : Type ℓ} {xs ys : List A} (P : A → Type 0) → Permᴰ xs ys → All P xs → All P ys
All-Permᴰ P Permᴰ.nil a = a
All-Permᴰ P (Permᴰ.cons e p) (h, a) = (subst P e h, All-Permᴰ P p a)
All-Permᴰ P (Permᴰ.swap e p) (h, (k, a)) = (subst P p k, (subst P e h, a))
All-Permᴰ P (Permᴰ.trans p q) a = All-Permᴰ P q (All-Permᴰ P p a)

Any-Permᴰ {ℓ} : {A : Type ℓ} {xs ys : List A} (P : A → Type 0) → Permᴰ xs ys → Any P xs → Any P ys
Any-Permᴰ P Permᴰ.nil a = a
Any-Permᴰ P (Permᴰ.cons e p) (inl h) = inl (subst P e h)
Any-Permᴰ P (Permᴰ.cons e p) (inr a) = inr (Any-Permᴰ P p a)
Any-Permᴰ P (Permᴰ.swap e p) (inl h) = inr (inl (subst P e h))
Any-Permᴰ P (Permᴰ.swap e p) (inr (inl h)) = inl (subst P p h)
Any-Permᴰ P (Permᴰ.swap e p) (inr (inr a)) = inr (inr a)
Any-Permᴰ P (Permᴰ.trans p q) a = Any-Permᴰ P q (Any-Permᴰ P p a)

InScope-Permᴰ :
    (rules rules' : List AssetRule) (target : Target)
    → Permᴰ rules rules'
    → InScope rules target
    → InScope rules' target
InScope-Permᴰ rules rules' target p (found, fine) = (
  Any-Permᴰ _ p found,
  All-Permᴰ _ p (All-map rules (λ r f (m, top). f (m, All-Permᴰ _ (Permᴰ.symm p) top)) fine),
)

pub is_ok {ℓ} : {A : Type ℓ} → Result Stop A → Bool
is_ok (ok a) = true
is_ok (err e) = false

is_ok-scope :
    (rules : List AssetRule) (target : Target)
    → is_ok (check_scope rules target) ≡ true ↔ InScope rules target
unfolding is_ok
is_ok-scope rules target = (
  λ h. elim (Result-cases (check_scope rules target)) [
    | inl (ids, q) ↦
        let e = check_scope-ids rules target ids q in (check_scope_iff rules target).0 (q ∙ ap ok e)
    | inr (e, q) ↦ absurd (ground arith)
  ],
  λ s. rw ((check_scope_iff rules target).1 s) refl,
)

same_bool : (a b : Bool) → (a ≡ true → b ≡ true) → (b ≡ true → a ≡ true) → a ≡ b
same_bool true b f g = sym (f refl)
same_bool false true f g = g refl
same_bool false false f g = refl

-- Two policies that list the same asset rules in another order admit the same targets.
pub check_scope_order :
    (rules rules' : List AssetRule) (target : Target)
    → Perm rules rules'
    → is_ok (check_scope rules target) ≡ is_ok (check_scope rules' target)
check_scope_order rules rules' target p = ∥∥₁_elim p (Bool-set _ _) (λ q.
    same_bool _ _
      (λ h.
        (is_ok-scope rules' target).1
          (InScope-Permᴰ rules rules' target q ((is_ok-scope rules target).0 h)))
      (λ h.
        (is_ok-scope rules target).1
          (InScope-Permᴰ rules' rules target (Permᴰ.symm q) ((is_ok-scope rules' target).0 h))))
