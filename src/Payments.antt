-- ===== src/Payments.antt =====
-- src/modules/payments/stripe.service.ts: card payments. The table is keyed by `providerPaymentId`,
-- which is unique. What Stripe answers is an argument; so is whether the database takes a write, since
-- its faults are logged and dropped. Currency codes, texts and ids are numbers, amounts minor units.
pub mod Laws
mod Tests
use beleqet_ecosystem_update.Base.{
  ℕ, ◌==◌, if◌then◌else◌, Bool, true, false, not, Option, none, some, List, [], ◌∷◌, filter, Dict,
  lookup, insert,
}

pub data PaymentStatus : Type 0 where
  status_pending status_processing status_succeeded status_failed : PaymentStatus
  status_cancelled status_refunded status_partially_refunded : PaymentStatus

pub record Payment : Type 0 where
  pub user_id : ℕ
  pub amount : ℕ
  pub currency : ℕ
  pub status : PaymentStatus
  pub description : Option ℕ
  pub metadata : Dict ℕ

abbrev pub Payments : Type 0
Payments = Dict Payment

-- The errors of Stripe's library, and the exceptions that they become.
pub data StripeError : Type 0 where
  card_error invalid_request_error api_error other_error : StripeError

pub data PaymentError : Type 0 where
  unprocessable_entity bad_request internal_server_error : PaymentError

pub data Answer {ℓ} (A : Type ℓ) : Type ℓ where
  answer : A → Answer A
  refusal : PaymentError → Answer A

handle_stripe_error : StripeError → PaymentError
handle_stripe_error card_error = unprocessable_entity
handle_stripe_error invalid_request_error = bad_request
handle_stripe_error api_error = internal_server_error
handle_stripe_error other_error = internal_server_error

-- A call of Stripe.
pub data Called {ℓ} (A : Type ℓ) : Type ℓ where
  returned : A → Called A
  threw : StripeError → Called A

pub data IntentStatus : Type 0 where
  requires_payment_method requires_confirmation requires_action processing : IntentStatus
  requires_capture canceled succeeded : IntentStatus

map_stripe_status : IntentStatus → PaymentStatus
map_stripe_status requires_payment_method = status_pending
map_stripe_status requires_confirmation = status_pending
map_stripe_status requires_action = status_pending
map_stripe_status processing = status_processing
map_stripe_status requires_capture = status_processing
map_stripe_status canceled = status_cancelled
map_stripe_status succeeded = status_succeeded

pub record CreatePaymentIntent : Type 0 where
  pub user_id : ℕ
  pub amount : ℕ
  pub currency : ℕ
  pub description : Option ℕ
  pub metadata : Dict ℕ

-- `is_pii` is `PII_METADATA_KEYS.includes(key.toLowerCase())`.
pub sanitise_metadata : (ℕ → Bool) → Dict ℕ → Dict ℕ
sanitise_metadata is_pii = filter (λ entry. not (is_pii entry.0))

upsert_row : ℕ → Payment → Option Payment → Payments → Payments
upsert_row id row none ps = insert id row ps
upsert_row id row (some old) ps = insert id (record old { status = row.status }) ps

upsert_payment_record : Bool → ℕ → Payment → Payments → Payments
unfolding upsert_row
upsert_payment_record writes id row ps = if writes then upsert_row id row (lookup id ps) ps else ps

-- `updateMany` by the provider's id: no row, no change.
with_status : PaymentStatus → ℕ → Option Payment → Payments → Payments
with_status status id none ps = ps
with_status status id (some old) ps = insert id (record old { status = status }) ps

pub update_payment_status : Bool → ℕ → PaymentStatus → Payments → Payments
unfolding with_status
update_payment_status writes id status ps =
    if writes then with_status status id (lookup id ps) ps else ps

-- `{ ...metadata, key: value }` for each entry that the service adds: the user and a version.
with_entries : Dict ℕ → List (ℕ × ℕ) → Dict ℕ
with_entries metadata [] = metadata
with_entries metadata ((key, value) ∷ entries) = with_entries (insert key value metadata) entries

-- The third argument is that the currency is a code of three letters.
pub create_payment_intent :
    (ℕ → Bool)
    → Bool
    → Bool
    → List (ℕ × ℕ)
    → CreatePaymentIntent
    → Called (ℕ × IntentStatus)
    → Payments
    → Answer (ℕ × IntentStatus) × Payments
unfolding sanitise_metadata with_entries upsert_payment_record handle_stripe_error
create_payment_intent is_pii writes false added dto call ps = (refusal bad_request, ps)
create_payment_intent is_pii writes true added dto (threw e) ps =
    (refusal (handle_stripe_error e), ps)
create_payment_intent is_pii writes true added dto (returned (id, status)) ps = (
  answer (id, status),
  upsert_payment_record writes id
      (record {
        user_id = dto.user_id;
        amount = dto.amount;
        currency = dto.currency;
        status = status_pending;
        description = dto.description;
        metadata = sanitise_metadata is_pii (with_entries dto.metadata added);
      })
      ps,
)

pub confirm_payment :
    Bool → Called (ℕ × IntentStatus) → Payments → Answer (ℕ × IntentStatus) × Payments
unfolding update_payment_status map_stripe_status handle_stripe_error
confirm_payment writes (threw e) ps = (refusal (handle_stripe_error e), ps)
confirm_payment writes (returned (id, status)) ps =
    (answer (id, status), update_payment_status writes id (map_stripe_status status) ps)

-- A refund of an amount; without one, or with 0, of everything.
refund_status : Option ℕ → PaymentStatus
refund_status none = status_refunded
refund_status (some amount) = if amount == 0 then status_refunded else status_partially_refunded

unfoldable pub refund : Bool → ℕ → Option ℕ → Called ℕ → Payments → Answer ℕ × Payments
unfolding update_payment_status refund_status handle_stripe_error
refund writes id amount (threw e) ps = (refusal (handle_stripe_error e), ps)
refund writes id amount (returned refunded) ps =
    (answer refunded, update_payment_status writes id (refund_status amount) ps)

-- A webhook whose signature is right; a charge names its payment, or no payment.
pub data StripeEvent : Type 0 where
  payment_intent_succeeded payment_intent_failed payment_intent_processing : ℕ → StripeEvent
  charge_refunded : Option ℕ → StripeEvent
  unhandled : StripeEvent

pub process_webhook_event : Bool → StripeEvent → Payments → Payments
unfolding update_payment_status
process_webhook_event writes (payment_intent_succeeded id) ps =
    update_payment_status writes id status_succeeded ps
process_webhook_event writes (payment_intent_failed id) ps =
    update_payment_status writes id status_failed ps
process_webhook_event writes (payment_intent_processing id) ps =
    update_payment_status writes id status_processing ps
process_webhook_event writes (charge_refunded (some id)) ps =
    update_payment_status writes id status_refunded ps
process_webhook_event writes (charge_refunded none) ps = ps
process_webhook_event writes unhandled ps = ps

-- `constructEvent` answers the event, or `none` where the signature is wrong.
unfoldable pub handle_webhook : Bool → Option StripeEvent → Payments → Answer StripeEvent × Payments
unfolding process_webhook_event
handle_webhook writes none ps = (refusal unprocessable_entity, ps)
handle_webhook writes (some event) ps = (answer event, process_webhook_event writes event ps)

pub webhooks : List (Bool × Option StripeEvent) → Payments → Payments
unfolding handle_webhook
webhooks [] ps = ps
webhooks ((writes, event) ∷ rest) ps = webhooks rest ((handle_webhook writes event ps).1)
