-- ===== src/Payments/Settled.antt =====
-- What a webhook that is accepted leaves in a repository that keeps its contract.
use stair_platform.Prelude.{
  ℕ, String, ◌≡◌, Bool, true, Option, none, some, List, [], ◌∷◌, ◌++◌, if◌then◌else◌, ℤ, eq_ℤ,
  is_some,
}
use stair_platform.Payments.{
  Status, PaymentIntent, PaymentEvent, Result, ok, Repository, resolve_status, apply_verified_event,
  is_paid,
}

-- The comments on the interface: UpdateStatus sets the status, and the time of payment unless it is
-- nil; AppendEvent writes the event to the journal, with the id and the time that it gives it, and
-- neither touches what the other writes. `journal` reads the events of a store.
pub record IsRepository {S B : Type 0} (repo : Repository S B) (journal : S → List (PaymentEvent B))
    : Type 0 where
  pub updates :
      (provider checkout : String) (intent : PaymentIntent) (s : Status) (paid_at : Option ℕ)
      (st : S)
      → repo.get_by_checkout provider checkout st ≡ ok intent
      → (repo.update_status intent.tenant_id intent.id s paid_at st).1 ≡ none
      → (after : PaymentIntent) × (repo.get_by_checkout provider checkout
            (repo.update_status intent.tenant_id intent.id s paid_at st).0
          ≡ ok after)
        × (after.id ≡ intent.id)
        × (after.status ≡ s)
        × (after.paid_at ≡ (if is_some paid_at then paid_at else intent.paid_at))
  pub keeps_journal :
      (tenant id : String) (s : Status) (paid_at : Option ℕ) (st : S)
      → journal (repo.update_status tenant id s paid_at st).0 ≡ journal st
  pub keeps_intents :
      (provider checkout : String) (event : PaymentEvent B) (st : S)
      → repo.get_by_checkout provider checkout (repo.append_event event st).0
        ≡ repo.get_by_checkout provider checkout st
  pub appends :
      (event stored : PaymentEvent B) (st : S)
      → (repo.append_event event st).1 ≡ ok stored
      → (journal (repo.append_event event st).0 ≡ journal st ++ stored ∷ [])
        × (stored ≡ record event { id = stored.id; created_at = stored.created_at })

module _ {S B : Type 0} (repo : Repository S B) (now : ℕ) (lower : String → String)
    (equal_fold : String → String → Bool) where
  -- After a webhook: the intent of its checkout is settled with its status, and the journal has one
  -- more event, the one returned, which names that intent, its tenant, the type and the body.
  abbrev pub IsSettled :
      (S → List (PaymentEvent B))
      → String
      → String
      → PaymentIntent
      → Status
      → String
      → B
      → PaymentEvent B
      → S
      → S
      → Type 0
  IsSettled journal provider checkout intent s typ body event before st =
      (after : PaymentIntent) × (repo.get_by_checkout provider checkout st ≡ ok after)
      × (after.id ≡ intent.id)
      × (after.status ≡ s)
      × (after.paid_at ≡ (if is_paid s then some now else intent.paid_at))
      × (journal st ≡ journal before ++ event ∷ [])
      × (event.intent_id ≡ intent.id)
      × (event.tenant_id ≡ intent.tenant_id)
      × (event.event_type ≡ typ)
      × (event.payload ≡ body)

  abbrev event_of : PaymentIntent → String → B → PaymentEvent B
  event_of intent typ body = record {
    id = "";
    tenant_id = intent.tenant_id;
    intent_id = intent.id;
    event_type = typ;
    payload = body;
    created_at = now;
  }

  module _ (intent : PaymentIntent) (s : Status) (typ : String) (body : B) (st : S) where
    abbrev paid_at : Option ℕ
    paid_at = if is_paid s then some now else none

    abbrev updated : S
    updated = (repo.update_status intent.tenant_id intent.id s paid_at st).0

    abbrev logged : S × Result (PaymentEvent B)
    logged = repo.append_event (event_of intent typ body) updated

  module _ (provider checkout status : String) (amount : ℤ) (currency : String) (body : B)
      (st : S) where
    abbrev applied : S × Result (PaymentEvent B)
    applied =
        apply_verified_event repo now lower equal_fold provider checkout status amount currency body
          st

    -- What an accepted webhook has passed.
    abbrev Passed : PaymentIntent → Status → String → Type 0
    Passed intent s typ =
        (repo.get_by_checkout provider checkout st ≡ ok intent)
        × (eq_ℤ amount intent.amount_minor ≡ true)
        × (equal_fold currency intent.currency ≡ true)
        × (resolve_status lower status ≡ ok (s, typ))
