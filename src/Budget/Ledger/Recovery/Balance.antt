-- ===== src/Budget/Ledger/Recovery/Balance.antt =====
-- The sums of a recovery's records, where some identifiers do not count.
use pent_ai.Prelude.{
  ℕ, ◌+◌, ◌≡◌, ◌≢◌, refl, inl, inr, false, ◌||◌, none, some, String, List, [], ◌∷◌, ◌++◌, arith,
  ◌==◌, string_eq, if◌then◌else◌, contains, Dict, lookup, insert, Bool-cases,
}
use pent_ai.Budget.Provider.{Field}
use pent_ai.Budget.Ledger.{Reservation}
use pent_ai.Budget.Ledger.Accounts.{held, total}
use pent_ai.Budget.Ledger.Recovery.{insert_id, sorted_ids, has_key}

-- What a record holds, unless it is listed.
abbrev pub unlisted : List String → String → Reservation → Field → ℕ
unlisted ids id r field = if contains ids id then 0 else held r field

unfoldable pub open_total : List String → Dict String Reservation → Field → ℕ
open_total ids [] field = 0
open_total ids ((id, r) ∷ records) field = unlisted ids id r field + open_total ids records field

-- No key occurs twice.
abbrev pub Distinct : Dict String Reservation → Type 0
Distinct [] = Unit
Distinct ((id, r) ∷ records) = (lookup id records ≡ none) × Distinct records

pub has_key-false :
    {V : Type 0} (id : String) (d : Dict String V) → has_key id d ≡ false → lookup id d ≡ none
unfolding has_key lookup
has_key-false id [] h = refl
has_key-false id ((j, v) ∷ d) h = ground (arith, has_key-false id d)

pub open_total-nil :
    (records : Dict String Reservation) (field : Field)
    → open_total [] records field ≡ total records field
unfolding open_total total
open_total-nil [] field = refl
open_total-nil ((id, r) ∷ records) field = let ih = open_total-nil records field in omega arith

pub open_total-insert_new :
    (ids : List String) (id : String) (r : Reservation) (records : Dict String Reservation)
    (field : Field)
    → lookup id records ≡ none
    → open_total ids (insert id r records) field
      ≡ open_total ids records field + unlisted ids id r field
unfolding open_total lookup insert
open_total-insert_new ids id r [] field h = omega arith
open_total-insert_new ids id r ((j, s) ∷ records) field h = elim (Bool-cases (id == j)) [
  | inl e ↦ absurd (ground arith)
  | inr e ↦
      let ih = open_total-insert_new ids id r records field (ground arith) in rw e (omega arith)
]

lookup-cons :
    (i j : String) (r : Reservation) (records : Dict String Reservation)
    → lookup i records ≢ none
    → lookup i ((j, r) ∷ records) ≢ none
unfolding lookup
lookup-cons i j r records h e = ground arith

lookup-head :
    (j : String) (r : Reservation) (records : Dict String Reservation)
    → lookup j ((j, r) ∷ records) ≢ none
unfolding lookup
lookup-head j r records e = ground arith

-- Lists that have the same keys of the dict leave the same sum.
pub open_total-same :
    (ids js : List String) (records : Dict String Reservation) (field : Field)
    → ((i : String) → lookup i records ≢ none → contains ids i ≡ contains js i)
    → open_total ids records field ≡ open_total js records field
unfolding open_total
open_total-same ids js [] field h = refl
open_total-same ids js ((j, r) ∷ records) field h =
    let ih = open_total-same ids js records field (λ i k. h i (lookup-cons i j r records k)) in
    let e = h j (lookup-head j r records) in rw e (omega arith)

pub contains-append :
    (ids : List String) (id i : String)
    → contains (ids ++ (id ∷ [])) i ≡ (i == id || contains ids i)
contains-append [] id i = ground arith
contains-append (j ∷ ids) id i = ground (arith, contains-append ids id i)

-- A key that the dict does not have can be listed.
pub open_total-append :
    (ids : List String) (id : String) (records : Dict String Reservation) (field : Field)
    → lookup id records ≡ none
    → open_total (ids ++ (id ∷ [])) records field ≡ open_total ids records field
open_total-append ids id records field h =
    open_total-same (ids ++ (id ∷ [])) ids records field
      (λ i k. let e = contains-append ids id i in ground arith)

open_total-cons :
    (ids : List String) (id : String) (records : Dict String Reservation) (field : Field)
    → lookup id records ≡ none
    → open_total (id ∷ ids) records field ≡ open_total ids records field
open_total-cons ids id records field h =
    open_total-same (id ∷ ids) ids records field (λ i k. ground arith)

-- A listed record that gives way to one that holds nothing need not be listed.
pub open_total-insert_old :
    (ids : List String) (id : String) (r s : Reservation) (records : Dict String Reservation)
    (field : Field)
    → Distinct records
    → lookup id records ≡ some s
    → held r field ≡ 0
    → open_total ids (insert id r records) field ≡ open_total (id ∷ ids) records field
unfolding open_total lookup insert
open_total-insert_old ids id r s [] field d h z = absurd (ground arith)
open_total-insert_old ids id r s ((j, t) ∷ records) field (u, d) h z = elim (Bool-cases (id == j)) [
  | inl e ↦
      let same : id ≡ j = ground arith in
      let c = open_total-cons ids j records field u in rw e (ground arith)
  | inr e ↦
      let ih = open_total-insert_old ids id r s records field d (ground arith) z in
      rw e (ground arith)
]

lookup-insert_other :
    (i j : String) (r : Reservation) (records : Dict String Reservation)
    → (i == j) ≡ false
    → lookup j records ≡ none
    → lookup j (insert i r records) ≡ none
unfolding lookup insert
lookup-insert_other i j r [] n h = ground arith
lookup-insert_other i j r ((k, s) ∷ records) n h = ground (arith, lookup-insert_other i j r records)

pub Distinct-insert :
    (id : String) (r : Reservation) (records : Dict String Reservation)
    → Distinct records
    → Distinct (insert id r records)
unfolding lookup insert
Distinct-insert id r [] d = (refl, tt)
Distinct-insert id r ((j, s) ∷ records) (u, d) = elim (Bool-cases (id == j)) [
  | inl e ↦ let same : id ≡ j = ground arith in rw e (rw same u, d)
  | inr e ↦ rw e (lookup-insert_other id j r records e u, Distinct-insert id r records d)
]

contains-insert_id :
    (id : String) (ids : List String) (i : String)
    → contains (insert_id id ids) i ≡ (i == id || contains ids i)
unfolding insert_id
contains-insert_id id [] i = refl
contains-insert_id id (j ∷ ids) i = ground (arith, contains-insert_id id ids i)

pub contains-sorted_ids :
    (ids : List String) (i : String) → contains (sorted_ids ids) i ≡ contains ids i
unfolding sorted_ids
contains-sorted_ids [] i = refl
contains-sorted_ids (id ∷ ids) i =
    let e = contains-insert_id id (sorted_ids ids) i in ground (arith, contains-sorted_ids ids i)
