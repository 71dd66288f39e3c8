-- ===== src/NetworkControl/Destination/Admitted.antt =====
-- What it takes for `authorize_destination` to allow a request, said without the order of its tests.
use pent_ai.Prelude.{
  ℕ, ◌≤◌, ◌≡◌, ◌⊎◌, ◌↔◌, refl, subst, inl, inr, Bool, true, false, not, ◌&&◌, ◌||◌, Option, none,
  some, List, [], ◌∷◌, ◌++◌, ◌==◌, string_eq, nat_eq, list_eq, if◌then◌else◌, Text, Result, ok, err,
  ◌>>=◌, guard, or_fail, >>=-eq-ok, guard-eq-ok, or_fail-eq-ok, ok-injective, arith, Bool-cases,
}
use pent_ai.Policy.Document.{Host, Target, Policy, Intent, Decision, allowed}
use pent_ai.Policy.Evaluator.{evaluate}
use pent_ai.Policy.Evaluator.Permitted.{Permitted}
use pent_ai.Policy.Evaluator.Soundness.{outcome_of, evaluate-allowed}
use pent_ai.NetworkControl.{
  Denial, denial_eq, sni_host_mismatch, time_invalid, dns_special_address, Failure, malformed,
  value_error,
}
use pent_ai.NetworkControl.Hosts.{
  Toolbox, host_value, canonical_host, pin, destination_address, is_documentation,
}
use pent_ai.NetworkControl.Destination.{
  Grant, Request, attempt, noted, target_reasons, host_reasons, is_allowed, in_policy,
}

-- Each address is that of its text, and is public or one of documentation where the resolver is a fixture.
abbrev pub Pins : Toolbox → Bool → List Text → List Host → Type 0
Pins tools fixture [] [] = Unit
Pins tools fixture [] (address ∷ addresses) = ⊥
Pins tools fixture (value ∷ values) [] = ⊥
Pins tools fixture (value ∷ values) (address ∷ addresses) =
    (tools.canonicalize_ip value ≡ some address)
    × (((fixture ≡ true) × (is_documentation address ≡ true)) ⊎ (tools.is_global address ≡ true))
    × Pins tools fixture values addresses

or_both : (f d g : Bool) → (f && d || g ≡ true) ↔ (((f ≡ true) × (d ≡ true)) ⊎ (g ≡ true))
or_both true d g = ground arith
or_both false d g = ground arith

destination_address_iff :
    (tools : Toolbox) (fixture : Bool) (value : Text) (address : Host)
    → (destination_address tools fixture value ≡ ok address) ↔ (
        (tools.canonicalize_ip value ≡ some address)
        × (((fixture ≡ true) × (is_documentation address ≡ true))
            ⊎ (tools.is_global address ≡ true)))
unfolding destination_address
destination_address_iff tools fixture value address = (
  λ h.
      let (a, c, h₁) = >>=-eq-ok (or_fail (tools.canonicalize_ip value) malformed) _ h in
      let test = fixture && is_documentation a || tools.is_global a in
      let (_, g, h₂) = >>=-eq-ok (guard test (value_error dns_special_address)) _ h₁ in
      subst
        (λ x.
          (tools.canonicalize_ip value ≡ some x)
          × (((fixture ≡ true) × (is_documentation x ≡ true)) ⊎ (tools.is_global x ≡ true)))
        (ok-injective h₂)
        (
          or_fail-eq-ok (tools.canonicalize_ip value) malformed c,
          (or_both fixture (is_documentation a) (tools.is_global a)).0
              (guard-eq-ok test (value_error dns_special_address) g),
        ),
  λ (c, t). rw (c, (or_both fixture (is_documentation address) (tools.is_global address)).1 t) refl,
)

pub pin-Pins :
    (tools : Toolbox) (fixture : Bool) (values : List Text) (pinned : List Host)
    → pin tools fixture values ≡ ok pinned
    → Pins tools fixture values pinned
unfolding pin
pin-Pins tools fixture [] [] h = tt
pin-Pins tools fixture [] (address ∷ addresses) h = absurd (cc)
pin-Pins tools fixture (value ∷ values) pinned h =
    let (address, d, h₁) = >>=-eq-ok (destination_address tools fixture value) _ h in
    let (rest, r, h₂) = >>=-eq-ok (pin tools fixture values) _ h₁ in
    let (c, t) = (destination_address_iff tools fixture value address).0 d in
    subst (Pins tools fixture (value ∷ values)) (ok-injective h₂)
      (c, t, pin-Pins tools fixture values rest r)

pub Pins-pin :
    (tools : Toolbox) (fixture : Bool) (values : List Text) (pinned : List Host)
    → Pins tools fixture values pinned
    → pin tools fixture values ≡ ok pinned
unfolding pin
Pins-pin tools fixture [] [] p = refl
Pins-pin tools fixture [] (address ∷ addresses) p = absurd p
Pins-pin tools fixture (value ∷ values) [] p = absurd p
Pins-pin tools fixture (value ∷ values) (address ∷ addresses) (c, t, p) =
    rw
      (
        (destination_address_iff tools fixture value address).1 (c, t),
        Pins-pin tools fixture values addresses p,
      )
      refl

pub noted_iff : (b : Bool) (reason : Denial) → (noted b reason ≡ []) ↔ (b ≡ false)
noted_iff true reason = ground arith
noted_iff false reason = ground arith

pub append-nil_iff : {A : Type 0} (xs ys : List A) → (xs ++ ys ≡ []) ↔ ((xs ≡ []) × (ys ≡ []))
append-nil_iff [] ys = ground arith
append-nil_iff (x ∷ xs) ys = ground arith

pub attempt_iff :
    {A : Type 0} (reasons : List Denial) (candidate : Option Target) (m : Result Failure A) (a : A)
    → (attempt reasons candidate m ≡ ok a) ↔ (m ≡ ok a)
attempt_iff reasons candidate (ok b) a = ((λ h. cc), (λ h. cc))
attempt_iff reasons candidate (err e) a = ((λ h. cc), (λ h. cc))

-- A redirect is none, or one of those that the grant admits.
abbrev pub RedirectAdmitted : Grant → Target → Target → ℕ → Type 0
RedirectAdmitted grant candidate original count =
    (candidate.canonical_url ≡ original.canonical_url)
    ⊎ ((grant.follow_redirects ≡ true) × (1 ≤ count) × (count ≤ grant.maximum_redirects))

abbrev pub TargetAdmitted : Grant → Target → Target → ℕ → Type 0
TargetAdmitted grant candidate original count =
    ((candidate.scheme ≡ "http") ⊎ (candidate.scheme ≡ "https"))
    × (candidate.scheme ≡ original.scheme)
    × (candidate.port ≡ original.port)
    × RedirectAdmitted grant candidate original count

pub target_reasons_iff :
    (grant : Grant) (candidate original : Target) (count : ℕ)
    → (target_reasons grant candidate original count ≡ [])
      ↔ TargetAdmitted grant candidate original count
unfolding target_reasons
target_reasons_iff grant candidate original count = ground arith

same_hosts_iff :
    (sni header : Option Text) (value : Text)
    → ((or_fail sni malformed >>= λ s.
          if s == value
          then (or_fail header malformed >>= λ h. ok (noted (not (h == value)) sni_host_mismatch))
          else ok (sni_host_mismatch ∷ []))
        ≡ ok [])
      ↔ ((sni ≡ some value) × (header ≡ some value))
same_hosts_iff none header value = ground arith
same_hosts_iff (some s) none value = elim (Bool-cases (s == value)) [
  | inl e ↦ ground arith
  | inr e ↦ ground arith
]
same_hosts_iff (some s) (some h) value = elim (Bool-cases (s == value)) [
  | inl e ↦ ground arith
  | inr e ↦ ground arith
]

pub host_reasons_iff :
    (tools : Toolbox) (candidate : Target) (request : Request)
    → (host_reasons tools candidate request ≡ ok []) ↔ (
        (canonical_host tools request.sni_host ≡ some (host_value tools candidate.host))
        × (canonical_host tools request.host_header ≡ some (host_value tools candidate.host)))
unfolding host_reasons
host_reasons_iff tools candidate request =
    same_hosts_iff (canonical_host tools request.sni_host)
      (canonical_host tools request.host_header) (host_value tools candidate.host)

allowed_iff :
    (o : Option Decision)
    → ((or_fail o (value_error time_invalid) >>= λ decision. ok (is_allowed decision)) ≡ ok true)
      ↔ (outcome_of o ≡ some allowed)
unfolding outcome_of
allowed_iff none = ground arith
allowed_iff (some decision) = ground arith

pub in_policy_iff :
    (tools : Toolbox) (policy : Policy) (intent : Intent) (now : ℕ) (target : Target)
    → (in_policy tools policy intent now target ≡ ok true)
      ↔ Permitted tools.platform (record intent { target = target }) policy true false now
unfolding in_policy
in_policy_iff tools policy intent now target =
    let (f, g) =
      evaluate-allowed tools.platform (record intent { target = target }) policy true false now in
    let (f', g') =
      allowed_iff
        (evaluate tools.platform (record intent { target = target }) policy true false now) in
    (λ h. f (f' h), λ p. g' (g p))
