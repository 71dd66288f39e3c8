-- ===== src/Budget/Ledger/Accounts.antt =====
-- The sums of what a ledger's reservations hold.
use pent_ai.Prelude.{
  ℕ, ◌+◌, ◌≤◌, ◌≡◌, ◌≢◌, subst, none, some, String, [], ◌∷◌, arith, ◌==◌, string_eq, if◌then◌else◌,
  Dict, lookup, insert, lookup-insert, All, All-map, Bool-cases, inl, inr,
}
use pent_ai.Budget.Provider.{Field}
use pent_ai.Budget.Ledger.{Reservation, is_released}

-- What a reservation holds of the budget: nothing once it is released.
abbrev pub held : Reservation → Field → ℕ
held reservation field = if is_released reservation.state then 0 else reservation.amounts field

unfoldable pub total : Dict String Reservation → Field → ℕ
total [] field = 0
total ((id, reservation) ∷ records) field = held reservation field + total records field

-- A new record adds what it holds.
pub total-insert_new :
    (id : String) (r : Reservation) (records : Dict String Reservation) (field : Field)
    → lookup id records ≡ none
    → total (insert id r records) field ≡ total records field + held r field
unfolding total lookup insert
total-insert_new id r [] field h = omega arith
total-insert_new id r ((j, s) ∷ records) field h = elim (Bool-cases (id == j)) [
  | inl e ↦ absurd (ground arith)
  | inr e ↦ let ih = total-insert_new id r records field (ground arith) in rw e (omega arith)
]

-- A record that takes another's place trades what the one holds for what the other did.
pub total-insert_old :
    (id : String) (r s : Reservation) (records : Dict String Reservation) (field : Field)
    → lookup id records ≡ some s
    → total (insert id r records) field + held s field ≡ total records field + held r field
unfolding total lookup insert
total-insert_old id r s [] field h = ground arith
total-insert_old id r s ((j, t) ∷ records) field h = elim (Bool-cases (id == j)) [
  | inl e ↦ let same : t ≡ s = ground arith in rw (e, same) (omega arith)
  | inr e ↦ let ih = total-insert_old id r s records field (ground arith) in rw e (omega arith)
]

-- A property of every record of a dict
abbrev pub Every : (Reservation → Type 0) → Dict String Reservation → Type 0
Every P = All (λ (_, r). P r)

pub Every-insert :
    (P : Reservation → Type 0) (id : String) (r : Reservation) (records : Dict String Reservation)
    → P r
    → Every P records
    → Every P (insert id r records)
unfolding insert
Every-insert P id r [] h a = (h, tt)
Every-insert P id r ((j, s) ∷ records) h (k, a) = elim (Bool-cases (id == j)) [
  | inl e ↦ rw e (h, a)
  | inr e ↦ rw e (k, Every-insert P id r records h a)
]

pub Every-lookup :
    (P : Reservation → Type 0) (id : String) (r : Reservation) (records : Dict String Reservation)
    → Every P records
    → lookup id records ≡ some r
    → P r
unfolding lookup
Every-lookup P id r [] a h = absurd (ground arith)
Every-lookup P id r ((j, s) ∷ records) (k, a) h = elim (Bool-cases (id == j)) [
  | inl e ↦ let same : s ≡ r = ground arith in subst P same k
  | inr e ↦ Every-lookup P id r records a (ground arith)
]

pub held-le-total :
    (id : String) (r : Reservation) (records : Dict String Reservation) (field : Field)
    → lookup id records ≡ some r
    → held r field ≤ total records field
unfolding total lookup
held-le-total id r [] field h = absurd (ground arith)
held-le-total id r ((j, s) ∷ records) field h = elim (Bool-cases (id == j)) [
  | inl e ↦ let same : s ≡ r = ground arith in rw same (omega arith)
  | inr e ↦ let ih = held-le-total id r records field (ground arith) in omega arith
]

-- A dict keeps its keys when a key is written.
pub lookup-insert-some :
    (j k : String) (v : Reservation) (d : Dict String Reservation)
    → lookup j d ≢ none
    → lookup j (insert k v d) ≢ none
lookup-insert-some j k v d h e = ground (arith, lookup-insert j k v d)

pub known-insert :
    (k : String) (v : Reservation) (d : Dict String Reservation)
    (keys : Dict String (String × String))
    → All (λ (_, (_, id)). lookup id d ≢ none) keys
    → All (λ (_, (_, id)). lookup id (insert k v d) ≢ none) keys
known-insert k v d keys = All-map keys (λ (_, (_, id)) h. lookup-insert-some id k v d h)

pub All-insert :
    (P : String × (String × String) → Type 0) (k : String) (v : String × String)
    (d : Dict String (String × String))
    → P (k, v)
    → All P d
    → All P (insert k v d)
unfolding insert
All-insert P k v [] h a = (h, tt)
All-insert P k v ((j, w) ∷ d) h (p, a) = elim (Bool-cases (k == j)) [
  | inl e ↦ rw e (h, a)
  | inr e ↦ rw e (p, All-insert P k v d h a)
]

pub lookup-insert_self :
    (k : String) (v : Reservation) (d : Dict String Reservation) → lookup k (insert k v d) ≢ none
lookup-insert_self k v d e = ground (arith, lookup-insert k k v d)
