-- ===== src/NetworkControl/Destination/Chain.antt =====
-- The chain of names that leads to a destination, each of which the policy has to permit.
use pent_ai.Prelude.{
  ℕ, ◌≡◌, ◌↔◌, refl, ap, subst, Bool, true, false, not, some, List, [], ◌∷◌, ◌++◌, string_eq,
  nat_eq, list_eq, Text, ok, or_fail, >>=-eq-ok, or_fail-eq-ok, ok-injective, arith, All,
}
use pent_ai.Policy.Document.{Target, Policy, Intent}
use pent_ai.Policy.Evaluator.Permitted.{Permitted}
use pent_ai.NetworkControl.{Denial, denial_eq, cname_out_of_scope, malformed}
use pent_ai.NetworkControl.Hosts.{Toolbox, cname_url}
use pent_ai.NetworkControl.Destination.{attempt, noted, cname_in_policy, check_cnames}
use pent_ai.NetworkControl.Destination.Admitted.{
  noted_iff, append-nil_iff, attempt_iff, in_policy_iff,
}

-- The policy permits the intent for a name of the chain.
abbrev pub NameAdmitted : Toolbox → Policy → Intent → ℕ → Target → Text → Type 0
NameAdmitted tools policy intent now candidate name =
    (domain : Text) × (target : Target) × (tools.canonicalize_domain name ≡ some domain)
    × (tools.platform.canonicalize_url (cname_url candidate domain) ≡ some target)
    × Permitted tools.platform (record intent { target = target }) policy true false now

cname_in_policy_iff :
    (tools : Toolbox) (policy : Policy) (intent : Intent) (now : ℕ) (candidate : Target)
    (name : Text)
    → (cname_in_policy tools policy intent now candidate name ≡ ok true)
      ↔ NameAdmitted tools policy intent now candidate name
unfolding cname_in_policy
cname_in_policy_iff tools policy intent now candidate name = (
  λ h.
      let (domain, d, h₁) = >>=-eq-ok (or_fail (tools.canonicalize_domain name) malformed) _ h in
      let (target, t, h₂) =
        >>=-eq-ok (or_fail (tools.platform.canonicalize_url (cname_url candidate domain)) malformed)
          _ h₁ in
      (
        domain,
        target,
        or_fail-eq-ok (tools.canonicalize_domain name) malformed d,
        or_fail-eq-ok (tools.platform.canonicalize_url (cname_url candidate domain)) malformed t,
        (in_policy_iff tools policy intent now target).0 h₂,
      ),
  λ (domain, target, d, t, p). rw (d, t) ((in_policy_iff tools policy intent now target).1 p),
)

true_of_not : (b : Bool) → not b ≡ false → b ≡ true
true_of_not b h = ground arith

pub check_cnames_iff :
    (tools : Toolbox) (policy : Policy) (intent : Intent) (now : ℕ) (candidate : Target)
    (names : List Text)
    → (reasons : List Denial)
    → (check_cnames tools policy intent now candidate names reasons ≡ ok [])
      ↔ ((reasons ≡ []) × All (NameAdmitted tools policy intent now candidate) names)
unfolding check_cnames
check_cnames_iff tools policy intent now candidate [] reasons =
    (λ h. (ok-injective h, tt), λ (r, _). ap (λ rs. ok rs) r)
check_cnames_iff tools policy intent now candidate (name ∷ names) reasons =
    let inner = cname_in_policy tools policy intent now candidate name in
    (
      λ h.
          let (admitted, e, h₁) = >>=-eq-ok (attempt reasons (some candidate) inner) _ h in
          let (r, a) =
            (check_cnames_iff tools policy intent now candidate names
                (reasons ++ noted (not admitted) cname_out_of_scope)).0
              h₁ in
          let (none_before, none_here) =
            (append-nil_iff reasons (noted (not admitted) cname_out_of_scope)).0 r in
          let admits =
            true_of_not admitted ((noted_iff (not admitted) cname_out_of_scope).0 none_here) in
          let inner_ok = (attempt_iff reasons (some candidate) inner admitted).0 e in
          (
            none_before,
            (
              (cname_in_policy_iff tools policy intent now candidate name).0 (
                  subst (λ b. cname_in_policy tools policy intent now candidate name ≡ ok b) admits
                    inner_ok),
              a,
            ),
          ),
      λ (r, (p, a)). rw ((cname_in_policy_iff tools policy intent now candidate name).1 p) (
          (check_cnames_iff tools policy intent now candidate names (reasons ++ [])).1
            ((append-nil_iff reasons []).1 (r, refl), a)),
    )
