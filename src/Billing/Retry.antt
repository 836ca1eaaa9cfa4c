-- ===== src/Billing/Retry.antt =====
-- internal/billing/stripe.go: events are recorded once, processed and tried again; handleWebhook of
-- internal/authservice/handlers.go.
use secure_gateway.Common.{
  ℕ, suc, String, Bool, true, false, not, Option, none, some, List, [], ◌∷◌, leb, if◌then◌else◌,
}
use secure_gateway.AuthStore.{
  WebhookStatus, webhook_pending, webhook_processed, webhook_failed, webhook_dead, WebhookEvent,
}
use secure_gateway.AuthStore.State.{ok, fail}
use secure_gateway.AuthStore.Webhooks.{
  insert_webhook_event_if_absent, set_webhook_status, list_webhook_events_by_status,
}
use secure_gateway.Billing.Objects.{Event}
use secure_gateway.Billing.Run.{Processor, World, Run, failed, going, store_error, with_store}
use secure_gateway.Billing.Events.{dispatch}

abbrev pub max_attempts : ℕ
max_attempts = 5

unfoldable pub record_event : ℕ → Event → List ℕ → World → World × Bool
record_event now ev payload w =
    let e : WebhookEvent = record {
      id = ev.id;
      type = ev.type;
      status = webhook_pending;
      attempts = 0;
      payload = payload;
      received_at = now;
      processed_at = 0;
    } in
    let (s, inserted) = insert_webhook_event_if_absent e w.store in (with_store w s, inserted)

-- `_ = p.store.SetWebhookStatus(...)`: an error leaves the store as it was.
abbrev pub mark : String → WebhookStatus → ℕ → ℕ → World → World
mark id status attempts processed_at w =
    elim (set_webhook_status id status attempts processed_at w.store) [
      | ok s ↦ with_store w s
      | fail e ↦ w
    ]

abbrev mark_processed : String → ℕ → World → Run World
mark_processed id now w = elim (set_webhook_status id webhook_processed 0 now w.store) [
  | ok s ↦ going (with_store w s)
  | fail e ↦ failed w (store_error e)
]

abbrev after_dispatch : String → ℕ → Run World → Run World
after_dispatch id now (failed w e) = failed (mark id webhook_failed 1 0 w) e
after_dispatch id now (going w) = mark_processed id now w

unfoldable pub process : Processor → ℕ → Event → World → Run World
process p now ev w = after_dispatch ev.id now (dispatch p now ev w)

-- The numbers of processed and of dead events.
pub record Tally : Type 0 where
  pub processed : ℕ
  pub dead : ℕ

abbrev pub retried : WebhookEvent → ℕ → Run World → Tally → World × Tally
retried e now (failed w err) t =
    if leb max_attempts (suc e.attempts)
    then (mark e.id webhook_dead (suc e.attempts) 0 w, record t { dead = suc t.dead })
    else (mark e.id webhook_failed (suc e.attempts) 0 w, t)
retried e now (going w) t =
    (mark e.id webhook_processed 0 now w, record t { processed = suc t.processed })

abbrev pub retry_parsed :
    Processor → ℕ → WebhookEvent → Option Event → World → Tally → World × Tally
retry_parsed p now e none w t =
    (mark e.id webhook_dead e.attempts now w, record t { dead = suc t.dead })
retry_parsed p now e (some ev) w t = retried e now (dispatch p now ev w) t

-- One round of the loop.
unfoldable pub retry_one : Processor → ℕ → WebhookEvent → World → Tally → World × Tally
retry_one p now e w t = retry_parsed p now e (p.parse.event e.payload) w t

unfoldable pub retry_each : Processor → ℕ → List WebhookEvent → World × Tally → World × Tally
retry_each p now [] r = r
retry_each p now (e ∷ rest) (w, t) = retry_each p now rest (retry_one p now e w t)

-- Listing does not fail over the in-memory store.
unfoldable pub retry_failed : Processor → ℕ → ℕ → World → World × Tally
retry_failed p now limit w =
    retry_each p now (list_webhook_events_by_status webhook_failed limit w.store)
      (w, record { processed = 0; dead = 0 })

-- What the webhook handler answers; an event that fails stays recorded for a retry.
pub data Answer : Type 0 where
  billing_disabled read_error bad_signature duplicate queued processed_ok : Answer

abbrev answer_run : Run World → World × Answer
answer_run (failed w e) = (w, queued)
answer_run (going w) = (w, processed_ok)

abbrev if_inserted : Processor → ℕ → Event → World × Bool → World × Answer
if_inserted p now ev (w, false) = (w, duplicate)
if_inserted p now ev (w, true) = answer_run (process p now ev w)

abbrev if_verified : Processor → ℕ → List ℕ → World → Option Event → World × Answer
if_verified p now body w none = (w, bad_signature)
if_verified p now body w (some ev) = if_inserted p now ev (record_event now ev body w)

abbrev if_read : Processor → (List ℕ → Option Event) → ℕ → World → Option (List ℕ) → World × Answer
if_read p verify now w none = (w, read_error)
if_read p verify now w (some body) = if_verified p now body w (verify body)

-- handleWebhook: `verify` is the check of the signature in the header, and `none` a body that cannot
-- be read.
unfoldable pub handle_webhook :
    Bool → Processor → (List ℕ → Option Event) → ℕ → Option (List ℕ) → World → World × Answer
handle_webhook enabled p verify now body w =
    if not enabled then (w, billing_disabled) else if_read p verify now w body
