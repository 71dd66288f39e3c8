-- ===== src/Audit/Chain.antt =====
-- The chain of hashes: what every log is like, and why a change of it shows.
use pent_ai.Prelude.{◌≡◌, refl, sym, ap, ◌∙◌, some, String, [], ◌∷◌, arith}
use pent_ai.Audit.{Event, Log, head_hash, row_of, append_audit_event}

module _ {D : Type 0} (canonical_json : D → String) (content_hash : Event D → String) where
  -- The logs that appending makes
  pub data Appended : Log → Type 0 where
    empty : Appended []
    append :
        {log next : Log} (call : Event D)
        → Appended log
        → append_audit_event canonical_json content_hash call log ≡ some next
        → Appended next

  -- Each row is that of an event, one of those that are `Known`, which names the hash of the row
  -- before it.
  abbrev pub IsChain : (Event D → Type 0) → Log → Type 0
  IsChain Known [] = Unit
  IsChain Known (row ∷ log) =
      ((event : Event D) × (Known event
          × ((row ≡ row_of canonical_json content_hash event)
              × (event.previous_hash ≡ head_hash log))))
      × IsChain Known log

  -- Two logs that are chains of events no two of which share a hash are the same log if their last
  -- hashes are the same: a log is fixed by its last hash, and no row can be changed, dropped or moved.
  pub head_hash-injective :
      (Known : Event D → Type 0)
      → ((e e' : Event D) → Known e → Known e' → content_hash e ≡ content_hash e' → e ≡ e')
      → (log other : Log) → IsChain Known log
      → IsChain Known other
      → head_hash log ≡ head_hash other
      → log ≡ other
  unfolding row_of
  head_hash-injective Known free [] [] c d h = refl
  head_hash-injective Known free [] (row ∷ other) c d h = absurd (ground arith)
  head_hash-injective Known free (row ∷ log) [] c d h = absurd (ground arith)
  head_hash-injective Known free (row ∷ log) (row' ∷ other) c d h =
      let ((e, (k, (r, p))), c') = c in
      let ((e', (k', (r', p'))), d') = d in
      let hash : row.event_hash ≡ row'.event_hash = ground arith in
      let same : e ≡ e' =
        free e e' k k' (sym (ap (λ s. s.event_hash) r) ∙ (hash ∙ ap (λ s. s.event_hash) r')) in
      let rows : row ≡ row' = r ∙ (ap (row_of canonical_json content_hash) same ∙ sym r') in
      let rest =
        head_hash-injective Known free log other c' d'
          (sym p ∙ (ap (λ s. s.previous_hash) same ∙ p')) in
      cc
