-- ===== src/Budget/Ledger/Traces.antt =====
-- Ledgers as calls leave them, one after another.
use pent_ai.Prelude.{
  ℕ, ◌≤◌, ◌≡◌, refl, subst, ◌∙◌, ap, sym, Option, none, String, arith, lookup, string_eq, ok,
  >>=-eq-ok, or_fail, ok-injective,
}
use pent_ai.Budget.Provider.{Field, Configuration, ProviderPolicy, validate_provider_configuration}
use pent_ai.Budget.Ledger.{
  Ledger, Request, Platform, State, create, reserve, finalize, admit, settle, from_provider,
  clock_invalid,
}
use pent_ai.Budget.Ledger.Accounts.{total}
use pent_ai.Budget.Ledger.Invariant.{IsSound, create-IsSound, reserve-IsSound, finalize-IsSound}

-- The ledgers that calls reach from `l`. Every call of `reserve` that makes a UUID makes a new one.
pub data Reach (platform : Platform) (l : Ledger) : Ledger → Type 0 where
  start : Reach platform l l
  reserves :
      {m : Ledger} (request : Request) (clock : Option ℕ) (uuid : String)
      → Reach platform l m
      → lookup uuid m.records ≡ none
      → Reach platform l (reserve platform m request clock uuid).0
  finalizes :
      {m : Ledger} (id : String) (expected : ℕ) (target : State) (clock : Option ℕ)
      → Reach platform l m
      → Reach platform l (finalize m id expected target clock).0

Reach-IsSound : {platform : Platform} {l m : Ledger} → IsSound l → Reach platform l m → IsSound m
Reach-IsSound s start = s
Reach-IsSound s (reserves {m = m} request clock uuid r fresh) =
    reserve-IsSound _ m request uuid clock fresh (Reach-IsSound s r)
Reach-IsSound s (finalizes {m = m} id expected target clock r) =
    finalize-IsSound m id expected target clock (Reach-IsSound s r)

-- A call leaves the configuration alone, and does not lower the version.
abbrev Later : Ledger → Ledger → Type 0
Later l m = (m.configuration ≡ l.configuration) × (l.version ≤ m.version)

reserve-Later :
    (platform : Platform) (l : Ledger) (request : Request) (clock : Option ℕ) (uuid : String)
    → Later l (reserve platform l request clock uuid).0
unfolding reserve admit
reserve-Later platform l request clock uuid = ground arith

finalize-Later :
    (l : Ledger) (id : String) (expected : ℕ) (target : State) (clock : Option ℕ)
    → Later l (finalize l id expected target clock).0
unfolding finalize settle
finalize-Later l id expected target clock = ground arith

Reach-Later : {platform : Platform} {l m : Ledger} → Reach platform l m → Later l m
Reach-Later start = (refl, omega arith)
Reach-Later {platform} {l} (reserves {m = m} request clock uuid r fresh) =
    let (c, v) = Reach-Later r in
    let (c', v') = reserve-Later platform m request clock uuid in (c' ∙ c, omega arith)
Reach-Later {platform} {l} (finalizes {m = m} id expected target clock r) =
    let (c, v) = Reach-Later r in
    let (c', v') = finalize-Later m id expected target clock in (c' ∙ c, omega arith)

pub create-configuration :
    (configuration : Configuration) (policy : ProviderPolicy) (clock : Option ℕ) (l : Ledger)
    → create configuration policy clock ≡ ok l
    → l.configuration ≡ configuration
unfolding create
create-configuration configuration policy clock l h =
    let (now, _, h₁) = >>=-eq-ok (or_fail clock clock_invalid) _ h in
    let (_, _, h₂) =
      >>=-eq-ok (from_provider (validate_provider_configuration configuration policy now)) _ h₁ in
    ap (λ (m : Ledger). m.configuration) (sym (ok-injective h₂))

-- Calls on a sound ledger keep its reservations within the budget.
pub Reach-total-le_sound :
    (platform : Platform) (l m : Ledger)
    → IsSound l
    → Reach platform l m
    → (field : Field) → total m.records field ≤ l.configuration.budgets field
Reach-total-le_sound platform l m sound reached field =
    let s = Reach-IsSound sound reached in
    let same = (Reach-Later reached).0 in
    let a = s.accounted field in
    let w = subst (λ (c : Configuration). m.used field ≤ c.budgets field) same (s.within field) in
    omega arith

-- Whatever calls are made on a new ledger, in whatever order and with whatever answers, the
-- reservations that are not released never hold more of any field than the configuration's budget.
pub Reach-total-le :
    (platform : Platform) (configuration : Configuration) (policy : ProviderPolicy)
    (clock : Option ℕ) (l m : Ledger)
    → create configuration policy clock ≡ ok l
    → Reach platform l m
    → (field : Field) → total m.records field ≤ configuration.budgets field
Reach-total-le platform configuration policy clock l m made reached field =
    subst (λ (c : Configuration). total m.records field ≤ c.budgets field)
      (create-configuration configuration policy clock l made)
      (Reach-total-le_sound platform l m (create-IsSound configuration policy clock l made) reached
        field)
