-- ===== src/Payments.antt =====
-- internal/application/payments/entity.go and service.go: payment intents and the webhooks that
-- settle them. The repository is an interface over a store of type S; a webhook's body is of type B.
-- `upper`, `lower`, `trim` and `equal_fold` are functions of Go's package strings.
pub mod Settled
mod Examples
use stair_platform.Prelude.{
  ℕ, String, Bool, true, false, not, ◌||◌, Option, none, some, str_eq, if◌then◌else◌, ℤ, pos, ltb_ℤ,
  eq_ℤ,
}

pub data Status : Type 0 where
  pending paid failed refunded : Status

abbrev pub is_paid : Status → Bool
is_paid paid = true
is_paid _ = false

pub record PaymentIntent : Type 0 where
  pub id : String
  pub tenant_id : String
  pub project_id : String
  pub user_id : String
  pub amount_minor : ℤ
  pub currency : String
  pub status : Status
  pub provider : String
  pub provider_checkout_id : String
  pub checkout_url : String
  pub created_at : ℕ
  pub updated_at : ℕ
  pub paid_at : Option ℕ

-- The repository may give an event its id and its time.
pub record PaymentEvent (B : Type 0) : Type 0 where
  pub id : String
  pub tenant_id : String
  pub intent_id : String
  pub event_type : String
  pub payload : B
  pub created_at : ℕ

pub data PaymentError : Type 0 where
  not_found project_required amount_not_positive currency_required : PaymentError
  verifier_missing invalid_signature invalid_body checkout_required : PaymentError
  amount_mismatch unsupported_status provider_failed repository_failed : PaymentError

pub data Result (A : Type 0) : Type 0 where
  ok : A → Result A
  err : PaymentError → Result A

-- What checkouts and webhooks use of `Repository`. CreateIntent gives the intent its id. AppendEvent
-- writes what it stores back through its pointer, so it returns the event.
pub record Repository (S B : Type 0) : Type 0 where
  pub create_intent : PaymentIntent → S → S × Result PaymentIntent
  pub get_by_checkout : String → String → S → Result PaymentIntent
  pub update_status : String → String → Status → Option ℕ → S → S × Option PaymentError
  pub append_event : PaymentEvent B → S → S × Result (PaymentEvent B)

-- `webhookPayload`
pub record WebhookPayload : Type 0 where
  pub event_type : String
  pub provider : String
  pub checkout_id : String
  pub status : String
  pub amount_minor : ℤ
  pub currency : String

-- The status and the type of event of a status of the provider.
unfoldable pub resolve_status : (String → String) → String → Result (Status × String)
resolve_status lower raw =
    if str_eq (lower raw) "paid" || str_eq (lower raw) "succeeded"
    then ok (paid, "payment.succeeded")
    else if str_eq (lower raw) "failed" || str_eq (lower raw) "declined"
    then ok (failed, "payment.failed")
    else err unsupported_status

module _ {S B : Type 0} (repo : Repository S B) (now : ℕ) where
  -- `session` is what the provider returns for the amount and the currency: the ids of the session
  -- and its URL.
  unfoldable pub create_checkout :
      (String → String)
      → (String → String)
      → (ℤ → String → Result (String × String))
      → String
      → String
      → String
      → String
      → ℤ
      → String
      → S
      → S × Result PaymentIntent
  create_checkout upper trim session provider tenant project user amount currency st =
      let code = upper (trim currency) in
      if str_eq tenant "" || str_eq project ""
      then (st, err project_required)
      else if not (ltb_ℤ (pos 0) amount)
      then (st, err amount_not_positive)
      else if str_eq code ""
      then (st, err currency_required)
      else elim (session amount code) [
        | err e ↦ (st, err e)
        | ok (checkout_id, url) ↦
            repo.create_intent
              (record {
                id = "";
                tenant_id = tenant;
                project_id = project;
                user_id = user;
                amount_minor = amount;
                currency = code;
                status = pending;
                provider = provider;
                provider_checkout_id = checkout_id;
                checkout_url = url;
                created_at = now;
                updated_at = now;
                paid_at = none;
              })
              st
      ]

  -- `applyVerifiedEvent` from the intent on.
  unfoldable pub settle : PaymentIntent → Status → String → B → S → S × Result (PaymentEvent B)
  settle intent new_status event_type body st =
      let paid_at = if is_paid new_status then some now else none in
      let (updated, failure) =
        repo.update_status intent.tenant_id intent.id new_status paid_at st in
      let event : PaymentEvent B = record {
        id = "";
        tenant_id = intent.tenant_id;
        intent_id = intent.id;
        event_type = event_type;
        payload = body;
        created_at = now;
      } in
      elim failure [ some e ↦ (updated, err e) | none ↦ repo.append_event event updated ]

  module _ (lower : String → String) (equal_fold : String → String → Bool) where
    unfoldable pub apply_verified_event :
        String → String → String → ℤ → String → B → S → S × Result (PaymentEvent B)
    unfolding resolve_status settle
    apply_verified_event provider checkout_id status amount currency body st =
        if str_eq provider "" || str_eq checkout_id ""
        then (st, err checkout_required)
        else elim (repo.get_by_checkout provider checkout_id st) [
          | err e ↦ (st, err e)
          | ok intent ↦
              if not (eq_ℤ amount intent.amount_minor) || not (equal_fold currency intent.currency)
              then (st, err amount_mismatch)
              else elim (resolve_status lower status) [
                | err e ↦ (st, err e)
                | ok (new_status, event_type) ↦ settle intent new_status event_type body st
              ]
        ]

    -- `verified` is what the verifier returns for the signature, none without a verifier, and
    -- `decode` is the decoding of JSON.
    unfoldable pub handle_webhook :
        Option Bool → (B → Option WebhookPayload) → B → S → S × Result (PaymentEvent B)
    unfolding apply_verified_event
    handle_webhook verified decode body st = elim verified [
      | none ↦ (st, err verifier_missing)
      | some false ↦ (st, err invalid_signature)
      | some true ↦ elim (decode body) [
        | none ↦ (st, err invalid_body)
        | some ev ↦
            if str_eq ev.provider "" || str_eq ev.checkout_id ""
            then (st, err checkout_required)
            else apply_verified_event ev.provider ev.checkout_id ev.status ev.amount_minor
                ev.currency body st
      ]
    ]
