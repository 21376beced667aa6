-- ===== src/Payments/Tests.antt =====
-- The theorems of the payments at concrete inputs: a webhook that is late, and a refund of a part.
use beleqet_ecosystem_update.Base.{◌≡◌, refl, true, some, none, [], ◌∷◌, lookup, insert}
use beleqet_ecosystem_update.Payments.{
  Payment, Payments, status_pending, status_processing, status_refunded, status_partially_refunded,
  payment_intent_succeeded, payment_intent_processing, charge_refunded, returned, refund,
  process_webhook_event, webhooks,
}
use beleqet_ecosystem_update.Payments.Laws.{webhooks_last, last_report}

abbrev payment : Payment
payment = record {
  user_id = 1;
  amount = 500;
  currency = 2;
  status = status_pending;
  description = none;
  metadata = [];
}

abbrev payments : Payments
payments = (9, payment) ∷ []

-- The event that a charge was refunded, which Stripe sends for a refund of a part as well.
partly_refunded :
    lookup 9 ((refund true 9 (some 100) (returned 100) payments).1)
    ≡ some (record payment { status = status_partially_refunded })
unfolding refund lookup insert
partly_refunded = refl

then_refunded :
    lookup 9 (
      process_webhook_event true
        (charge_refunded (some 9))
        ((refund true 9 (some 100) (returned 100) payments).1))
    ≡ some (record payment { status = status_refunded })
unfolding refund process_webhook_event lookup insert
then_refunded = refl

-- `processing` arrives after `succeeded`.
late :
    last_report 9 status_pending
      ((true, some (payment_intent_succeeded 9)) ∷ (true, some (payment_intent_processing 9)) ∷ [])
    ≡ status_processing
unfolding last_report
late = refl

webhooks_last_example :
    lookup 9 (
      webhooks
        ((true, some (payment_intent_succeeded 9))
          ∷ (true, some (payment_intent_processing 9))
          ∷ [])
        payments)
    ≡ some (record payment {
      status = last_report 9 status_pending (
          (true, some (payment_intent_succeeded 9))
          ∷ (true, some (payment_intent_processing 9))
          ∷ []);
    })
unfolding lookup
webhooks_last_example =
    webhooks_last 9 payment
      ((true, some (payment_intent_succeeded 9)) ∷ (true, some (payment_intent_processing 9)) ∷ [])
      payments refl
