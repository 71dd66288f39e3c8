-- ===== src/Tests/Trail.antt =====
-- Runs of the audit log.
use pent_ai.Prelude.{
  ◌≡◌, ◌≢◌, refl, sym, ap, ◌∙◌, ◌⊎◌, inl, inr, none, some, String, ◌==◌, true, false, string_eq, [],
  ◌∷◌,
}
use pent_ai.Audit.{Event, Log, row_of}
use pent_ai.Audit.Chain.{IsChain, head_hash-injective}

abbrev as_it_is : String → String
as_it_is text = text

abbrev hash_of : Event String → String
hash_of event = event.event_id

abbrev opened : Event String
opened = record {
  event_id = "aaaaaaaaaaaaaaaaaaaaaaaaaaaaaaaaaaaaaaaaaaaaaaaaaaaaaaaaaaaaaaaa";
  occurred_at = "2026-01-01T00:00:00Z";
  actor_type = "user";
  actor_id = "analyst";
  action = "engagement.created";
  subject_type = "engagement";
  subject_id = "engagement-1";
  details = "{}";
  previous_hash = none;
}

abbrev closed : Event String
closed = record {
  event_id = "bbbbbbbbbbbbbbbbbbbbbbbbbbbbbbbbbbbbbbbbbbbbbbbbbbbbbbbbbbbbbbbb";
  occurred_at = "2026-01-02T00:00:00Z";
  actor_type = "user";
  actor_id = "analyst";
  action = "engagement.closed";
  subject_type = "engagement";
  subject_id = "engagement-1";
  details = "{}";
  previous_hash = some "aaaaaaaaaaaaaaaaaaaaaaaaaaaaaaaaaaaaaaaaaaaaaaaaaaaaaaaaaaaaaaaa";
}

abbrev two_rows : Log
two_rows = row_of as_it_is hash_of closed ∷ row_of as_it_is hash_of opened ∷ []

abbrev Recorded : Event String → Type 0
Recorded event = (event ≡ opened) ⊎ (event ≡ closed)

two_rows-IsChain : IsChain as_it_is hash_of Recorded two_rows
unfolding row_of
two_rows-IsChain = ((closed, (inr refl, (refl, refl))), ((opened, (inl refl, (refl, refl))), tt))

hashes_differ : hash_of opened ≢ hash_of closed
unfolding string_eq
hashes_differ h = let b : true ≡ false = ap (λ s. s == hash_of opened) h in cc

hash_of-injective :
    (e e' : Event String) → Recorded e → Recorded e' → hash_of e ≡ hash_of e' → e ≡ e'
hash_of-injective e e' (inl p) (inl q) h = p ∙ sym q
hash_of-injective e e' (inl p) (inr q) h =
    absurd (hashes_differ (sym (ap hash_of p) ∙ (h ∙ ap hash_of q)))
hash_of-injective e e' (inr p) (inl q) h =
    absurd (hashes_differ (sym (ap hash_of q) ∙ (sym h ∙ ap hash_of p)))
hash_of-injective e e' (inr p) (inr q) h = p ∙ sym q

head_hash-injective_example : two_rows ≡ two_rows
head_hash-injective_example =
    head_hash-injective as_it_is hash_of Recorded hash_of-injective two_rows two_rows
      two_rows-IsChain two_rows-IsChain refl
