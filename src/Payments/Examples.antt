-- ===== src/Payments/Examples.antt =====
-- A repository of one intent, and a webhook that settles it.
use stair_platform.Prelude.{
  ℕ, ◌&&◌, none, some, List, [], ◌∷◌, ◌++◌, str_eq, if◌then◌else◌, pos, is_some,
}
use stair_platform.Payments.{paid, PaymentIntent, PaymentEvent, ok, err, Repository, not_found}

abbrev Store : Type 0
Store = PaymentIntent × List (PaymentEvent ℕ)

abbrev single : Repository Store ℕ
single = record {
  create_intent = λ p st. ((p, st.1), ok p);
  get_by_checkout = λ provider checkout st.
      if str_eq st.0.provider provider && str_eq st.0.provider_checkout_id checkout
      then ok st.0
      else err not_found;
  update_status = λ tenant id s paid_at st. (
    (record st.0 { status = s; paid_at = if is_some paid_at then paid_at else st.0.paid_at }, st.1),
    none,
  );
  append_event =
      λ e st. let stored = record e { id = "e1" } in ((st.0, st.1 ++ stored ∷ []), ok stored);
}

abbrev journal : Store → List (PaymentEvent ℕ)
journal st = st.1

abbrev held : PaymentIntent
held = record {
  id = "i1";
  tenant_id = "t";
  project_id = "p";
  user_id = "u";
  amount_minor = pos 500;
  currency = "EUR";
  status = paid;
  provider = "mock";
  provider_checkout_id = "c9";
  checkout_url = "";
  created_at = 1;
  updated_at = 1;
  paid_at = some 2;
}

abbrev failure : PaymentEvent ℕ
failure = record {
  id = "e1";
  tenant_id = "t";
  intent_id = "i1";
  event_type = "payment.failed";
  payload = 0;
  created_at = 7;
}
