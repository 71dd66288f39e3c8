-- ===== src/NetworkControl/Destination/Explained.antt =====
-- The reasons that `authorize_destination` gives, and the addresses that it pins.
use pent_ai.Prelude.{
  Bool, sym, any, map, ◌∙◌, ap, ◌||◌, ℕ, ◌≡◌, ◌≢◌, ◌↔◌, refl, subst, inl, inr, true, false, Option,
  none, some, String, List, [], ◌∷◌, ◌==◌, string_eq, nat_eq, list_eq, contains, Unique, Text, ok,
  err, arith, ==-refl, eq_of_==, Bool-cases,
}
use pent_ai.Policy.Document.{Host, Target, Policy, Intent, allowed}
use pent_ai.NetworkControl.{
  destination_authorized, denied_for, reason_code_eq, Denial, denial_eq, Constraints, Attestation,
}
use pent_ai.NetworkControl.Hosts.{Toolbox}
use pent_ai.NetworkControl.Destination.{
  is_fixture, Grant, Request, Authorization, Attempt, Completed, check_destination, first_of_each,
  conclude, answer, authorize_destination,
}
use pent_ai.NetworkControl.Destination.Outcomes.{IsAdmitted}
use pent_ai.Dns.Resolver.Answers.{IsAscending, sorted_texts-IsAscending, contains-sorted_texts}
use pent_ai.NetworkControl.Destination.Admitted.{Pins}
use pent_ai.NetworkControl.Destination.Authorized.{
  IsAdmitted-check_destination, authorize_destination-allowed,
}

-- A reason that has been seen is not kept.
first_of_each_seen :
    (seen reasons : List Denial) (reason : Denial)
    → contains seen reason ≡ true
    → contains (first_of_each seen reasons) reason ≡ false
unfolding first_of_each
first_of_each_seen seen [] reason h = refl
first_of_each_seen seen (r ∷ reasons) reason h = elim (Bool-cases (contains seen r)) [
  | inl e ↦ rw e (first_of_each_seen seen reasons reason h)
  | inr e ↦
      let kept = first_of_each_seen (r ∷ seen) reasons reason (ground arith) in
      let apart : (reason == r) ≡ false = elim (Bool-cases (reason == r)) [
        | inl s ↦
            let same = eq_of_== reason r s in
            absurd (let t = subst (λ k. contains seen k ≡ true) same h in ground arith)
        | inr s ↦ s
      ] in
      ground arith
]

first_of_each-Unique : (seen reasons : List Denial) → Unique (first_of_each seen reasons)
unfolding first_of_each
first_of_each-Unique seen [] = tt
first_of_each-Unique seen (r ∷ reasons) = elim (Bool-cases (contains seen r)) [
  | inl e ↦ rw e (first_of_each-Unique seen reasons)
  | inr e ↦ rw e (
    first_of_each_seen (r ∷ seen) reasons r (let self = ==-refl r in ground arith),
    first_of_each-Unique (r ∷ seen) reasons,
  )
]

contains-map_denied_for :
    (reasons : List Denial) (reason : Denial)
    → contains (map denied_for reasons) (denied_for reason) ≡ contains reasons reason
contains-map_denied_for [] reason = refl
contains-map_denied_for (r ∷ reasons) reason =
    ground (arith, contains-map_denied_for reasons reason)

map_denied_for-Unique : (reasons : List Denial) → Unique reasons → Unique (map denied_for reasons)
map_denied_for-Unique [] u = tt
map_denied_for-Unique (r ∷ reasons) (c, u) =
    (contains-map_denied_for reasons r ∙ c, map_denied_for-Unique reasons u)

map_denied_for-contains :
    (reasons : List Denial) → contains (map denied_for reasons) destination_authorized ≡ false
map_denied_for-contains [] = refl
map_denied_for-contains (r ∷ reasons) = ground (arith, map_denied_for-contains reasons)

abbrev pub has_text : Toolbox → Text → Option Host → Bool
has_text tools x none = false
has_text tools x (some address) = x == tools.address_text address

-- `x` is the text of the address that `value` denotes.
abbrev pub is_text_of : Toolbox → Text → Text → Bool
is_text_of tools x value = has_text tools x (tools.canonicalize_ip value)

Pins-contains :
    (tools : Toolbox) (fixture : Bool) (values : List Text) (pinned : List Host) (x : Text)
    → Pins tools fixture values pinned
    → contains (map tools.address_text pinned) x ≡ any (is_text_of tools x) values
Pins-contains tools fixture [] [] x p = refl
Pins-contains tools fixture [] (address ∷ addresses) x p = absurd p
Pins-contains tools fixture (value ∷ values) [] x p = absurd p
Pins-contains tools fixture (value ∷ values) (address ∷ addresses) x (c, t, p) =
    let first : (x == tools.address_text address) ≡ is_text_of tools x value =
      ap (has_text tools x) (sym c) in
    ap (λ b. b || contains (map tools.address_text addresses) x) first
    ∙ ap (λ rest. is_text_of tools x value || rest)
        (Pins-contains tools fixture values addresses x p)

-- An answer whose reason codes are those of its outcome, each once, and which pins the addresses of the
-- request, in order, where it is allowed, and none where it is not.
pub record IsExplained (tools : Toolbox) (request : Request) (authorization : Authorization)
    : Type 0 where
  pub each_once : Unique authorization.reason_codes
  pub authorized :
      (authorization.outcome ≡ allowed) ↔ (authorization.reason_codes ≡ destination_authorized ∷ [])
  pub refused :
      authorization.outcome ≢ allowed
      → (authorization.reason_codes ≢ [])
        × (contains authorization.reason_codes destination_authorized ≡ false)
        × (authorization.pinned_addresses ≡ [])
  pub ascending : IsAscending authorization.pinned_addresses
  pub pinned :
      authorization.outcome ≡ allowed
      → (x : Text)
      → contains authorization.pinned_addresses x ≡ any (is_text_of tools x) request.addresses

-- What holds of an answer whatever the request is
abbrev HasCodes : Authorization → Type 0
HasCodes authorization =
    Unique authorization.reason_codes
    × ((authorization.outcome ≡ allowed)
        ↔ (authorization.reason_codes ≡ destination_authorized ∷ []))
    × (authorization.outcome ≢ allowed
        → (authorization.reason_codes ≢ [])
          × (contains authorization.reason_codes destination_authorized ≡ false)
          × (authorization.pinned_addresses ≡ []))
    × IsAscending authorization.pinned_addresses

conclude-HasCodes :
    (id : String) (grant : Grant) (attestation : Attestation) (now : ℕ) (reasons : List Denial)
    → (candidate : Option Target) (pinned : List Text)
    → HasCodes (conclude id grant attestation now reasons candidate pinned)
unfolding conclude first_of_each
conclude-HasCodes id grant attestation now [] candidate pinned =
    ((refl, tt), ((λ h. refl), λ h. refl), (λ n. absurd (n refl)), sorted_texts-IsAscending pinned)
conclude-HasCodes id grant attestation now (reason ∷ reasons) candidate pinned = (
  map_denied_for-Unique (first_of_each [] (reason ∷ reasons))
      (first_of_each-Unique [] (reason ∷ reasons)),
  ((λ h. absurd (ground arith)), λ h. absurd (ground arith)),
  (λ n. (
    (λ h. absurd (ground arith)),
    map_denied_for-contains (first_of_each [] (reason ∷ reasons)),
    refl,
  )),
  tt,
)

answer-HasCodes :
    (id : String) (grant : Grant) (attestation : Attestation) (now : ℕ) (r : Attempt Completed)
    → HasCodes (answer id grant attestation now r)
unfolding answer
answer-HasCodes id grant attestation now (ok done) =
    conclude-HasCodes id grant attestation now done.reasons (some done.candidate) done.pinned
answer-HasCodes id grant attestation now (err interrupted) =
    conclude-HasCodes id grant attestation now _ _ []

module _ (tools : Toolbox) (id : String) (grant : Grant) (intent : Intent) (policy : Policy)
    (constraints : Constraints) (attestation : Attestation) (request : Request) (now : ℕ) where
  pinned_addresses_lem :
      (candidate : Target) (pinned : List Host) (x : Text)
      → IsAdmitted tools grant intent policy constraints attestation request now candidate pinned
      → contains
          (authorize_destination tools id grant intent policy constraints attestation request
            now).pinned_addresses
          x
        ≡ any (is_text_of tools x) request.addresses
  unfolding authorize_destination answer conclude first_of_each
  pinned_addresses_lem candidate pinned x a =
      rw
        (IsAdmitted-check_destination tools grant intent policy constraints attestation request now
          candidate pinned a)
        (contains-sorted_texts x (map tools.address_text pinned)
          ∙ Pins-contains tools (is_fixture attestation) request.addresses pinned x a.pins)

  -- Every answer gives each of its reason codes once: the one code of an authorization exactly if the
  -- request is allowed, and otherwise at least one, all of them of denials. The addresses that it pins
  -- are ascending, so none stands there twice; if the request is allowed they are the canonical texts of
  -- the addresses that the request names, all of them and no other, and if it is not there are none.
  pub authorize_destination-IsExplained :
      IsExplained tools request
        (authorize_destination tools id grant intent policy constraints attestation request now)
  unfolding authorize_destination
  authorize_destination-IsExplained =
      let (once, authorized, refused, ascending) =
        answer-HasCodes id grant attestation now
          (check_destination tools grant intent policy constraints attestation request now) in
      record {
        each_once = once;
        authorized = authorized;
        refused = refused;
        ascending = ascending;
        pinned = λ h x.
            let (candidate, pinned, a) =
              (authorize_destination-allowed tools id grant intent policy constraints attestation
                  request now).0
                h in
            pinned_addresses_lem candidate pinned x a;
      }
