-- ===== src/Payments/Laws.antt =====
-- Deliveries of webhooks and the status of a payment (stripe.service.ts).
use beleqet_ecosystem_update.Base.{
  ℕ, ◌==◌, if◌then◌else◌, Bool, true, false, Option, none, some, List, [], ◌∷◌, ◌≡◌, refl, lookup,
  lookup-insert, arith, ap, ◌≢◌, Option-cases, inl, inr,
}
use beleqet_ecosystem_update.Payments.{
  Payment, Payments, PaymentStatus, StripeEvent, status_succeeded, status_failed, status_processing,
  status_refunded, process_webhook_event, handle_webhook, webhooks, update_payment_status,
  payment_intent_succeeded, payment_intent_failed, payment_intent_processing, charge_refunded,
  unhandled,
}

-- What an event reports about a payment, read off the event alone.
pub reports : ℕ → StripeEvent → Option PaymentStatus
reports id (payment_intent_succeeded j) = if j == id then some status_succeeded else none
reports id (payment_intent_failed j) = if j == id then some status_failed else none
reports id (payment_intent_processing j) = if j == id then some status_processing else none
reports id (charge_refunded none) = none
reports id (charge_refunded (some j)) = if j == id then some status_refunded else none
reports id unhandled = none

pub heard : ℕ → Bool × Option StripeEvent → Option PaymentStatus
unfolding reports
heard id (false, event) = none
heard id (true, none) = none
heard id (true, some event) = reports id event

pub or_keep : PaymentStatus → Option PaymentStatus → PaymentStatus
or_keep status none = status
or_keep status (some reported) = reported

-- The last report among the deliveries that are signed and that the database takes.
unfoldable pub last_report : ℕ → PaymentStatus → List (Bool × Option StripeEvent) → PaymentStatus
unfolding heard or_keep
last_report id status [] = status
last_report id status (d ∷ ds) = last_report id (or_keep status (heard id d)) ds

same_row :
    (id j : ℕ) (status : PaymentStatus) (p q : Payment) (ps : Payments)
    → lookup id ps ≡ some p
    → lookup j ps ≡ some q
    → j ≡ id
    → some (record q { status = status }) ≡ some (record p { status = status })
same_row id j status p q ps h found e =
    let same : q ≡ p = cc in ap (λ (r : Payment). some (record r { status = status })) same

missed_elsewhere :
    (id j : ℕ) (p : Payment) (ps : Payments) → lookup id ps ≡ some p → lookup j ps ≡ none → j ≢ id
missed_elsewhere id j p ps h missing e = cc

lookup-update :
    (id j : ℕ) (status : PaymentStatus) (p : Payment) (ps : Payments)
    → lookup id ps ≡ some p
    → lookup id (update_payment_status true j status ps)
      ≡ some (if j == id then record p { status = status } else p)
unfolding update_payment_status
lookup-update id j status p ps h = elim (Option-cases (lookup j ps)) [
  | inl missing ↦ ground (arith, missed_elsewhere id j p ps h missing)
  | inr (q, found) ↦ ground (
    arith,
    lookup-insert j id (record q { status = status }) ps,
    same_row id j status p q ps h found,
  )
]

process-lookup :
    (id : ℕ) (event : StripeEvent) (p : Payment) (ps : Payments)
    → lookup id ps ≡ some p
    → lookup id (process_webhook_event true event ps)
      ≡ some (record p { status = or_keep p.status (reports id event) })
unfolding process_webhook_event reports or_keep
process-lookup id (payment_intent_succeeded j) p ps h =
    ground (arith, lookup-update id j status_succeeded p ps h)
process-lookup id (payment_intent_failed j) p ps h =
    ground (arith, lookup-update id j status_failed p ps h)
process-lookup id (payment_intent_processing j) p ps h =
    ground (arith, lookup-update id j status_processing p ps h)
process-lookup id (charge_refunded none) p ps h = h
process-lookup id (charge_refunded (some j)) p ps h =
    ground (arith, lookup-update id j status_refunded p ps h)
process-lookup id unhandled p ps h = h

process_fails : (event : StripeEvent) (ps : Payments) → process_webhook_event false event ps ≡ ps
unfolding process_webhook_event
process_fails (payment_intent_succeeded j) ps = refl
process_fails (payment_intent_failed j) ps = refl
process_fails (payment_intent_processing j) ps = refl
process_fails (charge_refunded none) ps = refl
process_fails (charge_refunded (some j)) ps = refl
process_fails unhandled ps = refl

handle-lookup :
    (id : ℕ) (d : Bool × Option StripeEvent) (p : Payment) (ps : Payments)
    → lookup id ps ≡ some p
    → lookup id ((handle_webhook d.0 d.1 ps).1)
      ≡ some (record p { status = or_keep p.status (heard id d) })
unfolding handle_webhook heard or_keep
handle-lookup id (false, none) p ps h = h
handle-lookup id (true, none) p ps h = h
handle-lookup id (false, some event) p ps h = rw (process_fails event ps) h
handle-lookup id (true, some event) p ps h = process-lookup id event p ps h

-- After any deliveries of webhooks a payment has the status of the last one that reports about it,
-- among those with a good signature that the database takes, and nothing else of it has changed; the
-- order in which they arrive decides, and not what was known before.
pub webhooks_last :
    (id : ℕ) (p : Payment) (ds : List (Bool × Option StripeEvent)) (ps : Payments)
    → lookup id ps ≡ some p
    → lookup id (webhooks ds ps) ≡ some (record p { status = last_report id p.status ds })
unfolding webhooks last_report
webhooks_last id p [] ps h = h
webhooks_last id p (d ∷ ds) ps h =
    webhooks_last id (record p { status = or_keep p.status (heard id d) }) ds
      ((handle_webhook d.0 d.1 ps).1) (handle-lookup id d p ps h)
