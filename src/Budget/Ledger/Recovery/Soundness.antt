-- ===== src/Budget/Ledger/Recovery/Soundness.antt =====
-- A recovered ledger is sound.
use Prim.Native.Nat.{max}
use pent_ai.Prelude.{
  All-append, ℕ, suc, ◌+◌, ◌≤◌, ◌≡◌, ◌≢◌, refl, sym, ap, subst, ◌∙◌, ◌⊎◌, inl, inr, Bool, true,
  false, not, ◌||◌, Option, none, some, String, List, [], ◌∷◌, ◌++◌, arith, ◌==◌, string_eq,
  if◌then◌else◌, contains, Dict, lookup, insert, Bool-cases, All, All-map, ok, ◌>>=◌, >>=-eq-ok,
  ok-injective, guard, or_fail, guard-eq-ok,
}
use pent_ai.Budget.Provider.{
  Field, Amounts, Configuration, ProviderPolicy, validate_provider_configuration,
}
use pent_ai.Budget.Ledger.{
  Ledger, Reservation, Platform, Checked, recovery_invalid, recovery_ambiguous, recovery_exceeded,
  key_missing, clock_invalid, is_released, released, exceeds, create, finalized, from_provider,
}
use pent_ai.Budget.Ledger.Accounts.{
  held, total, Every, Every-insert, All-insert, known-insert, lookup-insert_self,
  lookup-insert-some,
}
use pent_ai.Budget.Ledger.Invariant.{IsSound, create-IsSound, exceeds-false}
use pent_ai.Budget.Ledger.Traces.{Reach, Reach-total-le_sound}
use pent_ai.Budget.Ledger.Recovery.{
  Recovering, validate_record_authority, check_record, is_expired, counted, restored, restore,
  restore_all, sorted_ids, release_expired, release_all, recover,
}
use pent_ai.Budget.Ledger.Recovery.Balance.{
  open_total, Distinct, has_key-false, open_total-nil, open_total-insert_new, open_total-same,
  open_total-append, open_total-insert_old, Distinct-insert, contains-append, contains-sorted_ids,
}

-- A ledger that does not count the listed identifiers.
record IsOpen (ids : List String) (l : Ledger) : Type 0 where
  accounted : (field : Field) → l.used field ≡ open_total ids l.records field
  within : (field : Field) → l.used field ≤ l.configuration.budgets field
  dated : Every (λ r. r.ledger_version ≤ l.version) l.records
  known : All (λ (_, (_, id)). lookup id l.records ≢ none) l.idempotency
  distinct : Distinct l.records

-- The listed identifiers are keys.
abbrev Listed : List String → Ledger → Type 0
Listed ids l = All (λ id. lookup id l.records ≢ none) ids

Listed-contains :
    (ids : List String) (l : Ledger) (id : String)
    → Listed ids l
    → lookup id l.records ≡ none
    → contains ids id ≡ false
Listed-contains [] l id a h = refl
Listed-contains (j ∷ ids) l id (k, a) h = elim (Bool-cases (id == j)) [
  | inl e ↦
      let same : id ≡ j = ground arith in absurd (k (ap (λ i. lookup i l.records) (sym same) ∙ h))
  | inr e ↦ let ih = Listed-contains ids l id a h in ground arith
]

counted-cases :
    (b c : Bool) (used plus used' : Amounts)
    → ◌≡◌ {A = Checked Amounts}
        (if b then ok used else (guard (not c) recovery_exceeded >>= λ _. ok plus))
        (ok used')
    → ((b ≡ true) × (used ≡ used')) ⊎ ((b ≡ false) × ((c ≡ false) × (plus ≡ used')))
counted-cases true c used plus used' h = inl (refl, ok-injective h)
counted-cases false true used plus used' h = cc
counted-cases false false used plus used' h = inr (refl, (refl, ok-injective h))

-- A record that counts fits in the budget, and adds what it holds.
counted-ok :
    (used : Amounts) (r : Reservation) (expired : Bool) (budgets used' : Amounts)
    → counted used r expired budgets ≡ ok used'
    → ((field : Field) → used field ≤ budgets field)
    → (field : Field)
    → (used' field ≡ used field + (if expired then 0 else held r field))
      × (used' field ≤ budgets field)
unfolding counted
counted-ok used r expired budgets used' h w field =
    let w' = w field in
    let c =
      counted-cases (is_released r.state || expired) (exceeds used r.amounts budgets) used
        (λ f. used f + r.amounts f) used' h in
    elim c [
      | inl (e, q) ↦ let v = ap (λ (a : Amounts). a field) q in ground arith
      | inr (e, (x, q)) ↦
          let v = ap (λ (a : Amounts). a field) q in
          let fits = exceeds-false used r.amounts budgets x field in ground arith
    ]

check_record-fresh :
    (platform : Platform) (state : Recovering) (r : Reservation)
    → check_record platform state r ≡ ok tt
    → lookup r.reservation_id state.ledger.records ≡ none
unfolding check_record
check_record-fresh platform state r h =
    let (_, _, h₁) = >>=-eq-ok (guard (platform.record_valid r) recovery_invalid) _ h in
    let (_, _, h₂) = >>=-eq-ok (validate_record_authority state.ledger r) _ h₁ in
    let fresh = guard-eq-ok _ recovery_ambiguous h₂ in
    has_key-false r.reservation_id state.ledger.records (ground arith)

Every-max :
    (n k : ℕ) (records : Dict String Reservation)
    → Every (λ r. r.ledger_version ≤ n) records
    → Every (λ r. r.ledger_version ≤ max n k) records
Every-max n k records = All-map records (λ (_, r) h. omega arith)

-- What the loop keeps
abbrev Keeps : Recovering → Type 0
Keeps state =
    IsOpen state.expired_reservations state.ledger × Listed state.expired_reservations state.ledger

-- The identifiers that are listed after a record
abbrev next_listed : List String → String → Bool → List String
next_listed ids id expired = if expired then ids ++ (id ∷ []) else ids

next_listed-balance :
    (ids : List String) (l : Ledger) (id : String) (r : Reservation) (expired : Bool)
    → lookup id l.records ≡ none
    → Listed ids l
    → (field : Field)
    → open_total (next_listed ids id expired) (insert id r l.records) field
      ≡ open_total ids l.records field + (if expired then 0 else held r field)
next_listed-balance ids l id r true fresh a field =
    let n = open_total-insert_new (ids ++ (id ∷ [])) id r l.records field fresh in
    let e = contains-append ids id id in
    let o = open_total-append ids id l.records field fresh in ground arith
next_listed-balance ids l id r false fresh a field =
    let n = open_total-insert_new ids id r l.records field fresh in
    let e = Listed-contains ids l id a fresh in ground arith

next_listed-Listed :
    (ids : List String) (l : Ledger) (id : String) (r : Reservation) (expired : Bool)
    → Listed ids l
    → All (λ i. lookup i (insert id r l.records) ≢ none) (next_listed ids id expired)
next_listed-Listed ids l id r false a = All-map ids (λ i h. lookup-insert-some i id r l.records h) a
next_listed-Listed ids l id r true a =
    All-append (λ i. lookup i (insert id r l.records) ≢ none) ids (id ∷ [])
      (All-map ids (λ i h. lookup-insert-some i id r l.records h) a)
      (lookup-insert_self id r l.records, tt)

restored-Keeps :
    (state : Recovering) (r : Reservation) (expired : Bool) (used : Amounts)
    → lookup r.reservation_id state.ledger.records ≡ none
    → counted state.ledger.used r expired state.ledger.configuration.budgets ≡ ok used
    → Keeps state
    → Keeps (restored state r expired used)
unfolding restored
restored-Keeps state r expired used fresh c (o, listed) =
    let l = state.ledger in
    let id = r.reservation_id in
    let ids = state.expired_reservations in
    let step = counted-ok l.used r expired l.configuration.budgets used c o.within in
    (
      record {
        accounted = λ f.
            let b = next_listed-balance ids l id r expired fresh listed f in
            let a = o.accounted f in
            let (u, _) = step f in u ∙ ap (λ n. n + (if expired then 0 else held r f)) a ∙ sym b;
        within = λ f. (step f).1;
        dated =
            Every-insert (λ s. s.ledger_version ≤ max l.version r.ledger_version) id r l.records
              (omega arith) (Every-max l.version r.ledger_version l.records o.dated);
        known =
            All-insert (λ (_, (_, i)). lookup i (insert id r l.records) ≢ none) r.idempotency_key
              (r.request_fingerprint, id) l.idempotency (lookup-insert_self id r l.records)
              (known-insert id r l.records l.idempotency o.known);
        distinct = Distinct-insert id r l.records o.distinct;
      },
      next_listed-Listed ids l id r expired listed,
    )

restore-Keeps :
    (platform : Platform) (instant : ℕ) (state next : Recovering) (r : Reservation)
    → restore platform instant state r ≡ ok next
    → Keeps state
    → Keeps next
unfolding restore
restore-Keeps platform instant state next r h k =
    let (_, c, h₁) = >>=-eq-ok (check_record platform state r) _ h in
    let (expired, _, h₂) = >>=-eq-ok (is_expired r instant) _ h₁ in
    let (used, u, h₃) =
      >>=-eq-ok (counted state.ledger.used r expired state.ledger.configuration.budgets) _ h₂ in
    subst Keeps (ok-injective h₃)
      (restored-Keeps state r expired used (check_record-fresh platform state r c) u k)

restore_all-Keeps :
    (platform : Platform) (instant : ℕ) (state last : Recovering) (rs : List Reservation)
    → restore_all platform instant state rs ≡ ok last
    → Keeps state
    → Keeps last
unfolding restore_all
restore_all-Keeps platform instant state last [] h k = subst Keeps (ok-injective h) k
restore_all-Keeps platform instant state last (r ∷ rs) h k =
    let (next, e, h₁) = >>=-eq-ok (restore platform instant state r) _ h in
    restore_all-Keeps platform instant next last rs h₁
      (restore-Keeps platform instant state next r e k)

finalized-held :
    (r : Reservation) (version instant : ℕ) (field : Field)
    → held (finalized r version released instant) field ≡ 0
unfolding finalized
finalized-held r version instant field = refl

finalized-version :
    (r : Reservation) (version instant : ℕ)
    → (finalized r version released instant).ledger_version ≡ version
unfolding finalized
finalized-version r version instant = refl

release_expired-IsOpen :
    (instant : ℕ) (l next : Ledger) (id : String) (ids : List String)
    → release_expired instant l id ≡ ok next
    → IsOpen (id ∷ ids) l
    → IsOpen ids next
unfolding release_expired
release_expired-IsOpen instant l next id ids h o =
    let (r, found, h₁) = >>=-eq-ok (or_fail (lookup id l.records) key_missing) _ h in
    let s = finalized r (suc l.version) released instant in
    let z = finalized-held r (suc l.version) instant in
    let v = finalized-version r (suc l.version) instant in
    let p : lookup id l.records ≡ some r = ground arith in
    subst (IsOpen ids) (ok-injective h₁) (record {
      accounted = λ f.
          o.accounted f ∙ sym (open_total-insert_old ids id s r l.records f o.distinct p (z f));
      within = o.within;
      dated =
          Every-insert (λ t. t.ledger_version ≤ suc l.version) id s l.records (omega arith)
            (All-map l.records (λ (_, t) k. omega arith) o.dated);
      known = known-insert id s l.records l.idempotency o.known;
      distinct = Distinct-insert id s l.records o.distinct;
    })

release_all-IsOpen :
    (instant : ℕ) (l last : Ledger) (ids : List String)
    → release_all instant l ids ≡ ok last
    → IsOpen ids l
    → IsOpen [] last
unfolding release_all
release_all-IsOpen instant l last [] h o = subst (IsOpen []) (ok-injective h) o
release_all-IsOpen instant l last (id ∷ ids) h o =
    let (next, e, h₁) = >>=-eq-ok (release_expired instant l id) _ h in
    release_all-IsOpen instant next last ids h₁ (release_expired-IsOpen instant l next id ids e o)

sorted-IsOpen : (ids : List String) (l : Ledger) → IsOpen ids l → IsOpen (sorted_ids ids) l
sorted-IsOpen ids l o = record {
  accounted = λ f.
      o.accounted f
      ∙ open_total-same ids (sorted_ids ids) l.records f (λ i _. sym (contains-sorted_ids ids i));
  within = o.within;
  dated = o.dated;
  known = o.known;
  distinct = o.distinct;
}

create-records :
    (configuration : Configuration) (policy : ProviderPolicy) (clock : Option ℕ) (l : Ledger)
    → create configuration policy clock ≡ ok l
    → [] ≡ l.records
unfolding create
create-records configuration policy clock l h =
    let (now, _, h₁) = >>=-eq-ok (or_fail clock clock_invalid) _ h in
    let (_, _, h₂) =
      >>=-eq-ok (from_provider (validate_provider_configuration configuration policy now)) _ h₁ in
    ap (λ (m : Ledger). m.records) (ok-injective h₂)

create-Keeps :
    (configuration : Configuration) (policy : ProviderPolicy) (clock : Option ℕ) (l : Ledger)
    → create configuration policy clock ≡ ok l
    → Keeps (record { ledger = l; seen_versions = []; expired_reservations = [] })
create-Keeps configuration policy clock l h =
    let s = create-IsSound configuration policy clock l h in
    (
      record {
        accounted = λ f. s.accounted f ∙ sym (open_total-nil l.records f);
        within = s.within;
        dated = s.dated;
        known = s.known;
        distinct = subst Distinct (create-records configuration policy clock l h) tt;
      },
      tt,
    )

recover-IsSound :
    (platform : Platform) (records : List Reservation) (configuration : Configuration)
    (policy : ProviderPolicy) (clock clock' : Option ℕ) (l : Ledger)
    → recover platform records configuration policy clock clock' ≡ ok l
    → IsSound l
unfolding recover
recover-IsSound platform records configuration policy clock clock' l h =
    let (m, made, h₁) = >>=-eq-ok (create configuration policy clock) _ h in
    let (instant, _, h₂) = >>=-eq-ok (or_fail clock' clock_invalid) _ h₁ in
    let initial : Recovering = record {
      ledger = m;
      seen_versions = [];
      expired_reservations = [];
    } in
    let (state, e, h₃) = >>=-eq-ok (restore_all platform instant initial records) _ h₂ in
    let (o, _) =
      restore_all-Keeps platform instant initial state records e
        (create-Keeps configuration policy clock m made) in
    let p =
      release_all-IsOpen instant state.ledger l (sorted_ids state.expired_reservations) h₃
        (sorted-IsOpen state.expired_reservations state.ledger o) in
    record {
      accounted = λ f. p.accounted f ∙ open_total-nil l.records f;
      within = p.within;
      dated = p.dated;
      known = p.known;
    }

-- Whatever records a ledger recovers from, once it recovers, what its reservations hold is within
-- the budget of its configuration, and calls on it keep it so.
pub recover-total-le :
    (platform : Platform) (records : List Reservation) (configuration : Configuration)
    (policy : ProviderPolicy) (clock clock' : Option ℕ) (l m : Ledger)
    → recover platform records configuration policy clock clock' ≡ ok l
    → Reach platform l m
    → (field : Field) → total m.records field ≤ l.configuration.budgets field
recover-total-le platform records configuration policy clock clock' l m h reached field =
    Reach-total-le_sound platform l m
      (recover-IsSound platform records configuration policy clock clock' l h) reached field
