-- ===== src/AuthStore/Webhooks.antt =====
-- internal/authstore/memory/memory.go: webhook events.
use secure_gateway.Common.{
  ℕ, ltb, String, Bool, true, false, ◌&&◌, none, some, List, [], ◌∷◌, if◌then◌else◌, length, take,
  select, string_key,
}
use secure_gateway.Common.Table.{values, get, put}
use secure_gateway.AuthStore.{not_found, WebhookStatus, same_webhook_status, WebhookEvent}
use secure_gateway.AuthStore.State.{Store, Outcome, ok, fail, has_key}

unfoldable pub insert_webhook_event_if_absent : WebhookEvent → Store → Store × Bool
insert_webhook_event_if_absent e s =
    if has_key (get e.id s.webhook_events)
    then (s, false)
    else (record s { webhook_events = put e.id e s.webhook_events }, true)

unfoldable pub set_webhook_status : String → WebhookStatus → ℕ → ℕ → Store → Outcome Store
set_webhook_status id status attempts processed_at s = elim (get id s.webhook_events) [
  | none ↦ fail not_found
  | some e ↦ ok (record s {
    webhook_events =
        put id (record e { status = status; attempts = attempts; processed_at = processed_at })
          s.webhook_events;
  })
]

unfoldable pub insert_received : WebhookEvent → List WebhookEvent → List WebhookEvent
insert_received e [] = e ∷ []
insert_received e (x ∷ xs) =
    if ltb x.received_at e.received_at then x ∷ insert_received e xs else e ∷ x ∷ xs

unfoldable pub sort_received : List WebhookEvent → List WebhookEvent
unfolding insert_received
sort_received [] = []
sort_received (e ∷ es) = insert_received e (sort_received es)

unfoldable pub list_webhook_events_by_status : WebhookStatus → ℕ → Store → List WebhookEvent
unfolding sort_received
list_webhook_events_by_status status limit s =
    let out =
      sort_received (select (λ e. same_webhook_status e.status status) (values s.webhook_events)) in
    if ltb 0 limit && ltb limit (length out) then take limit out else out
