-- ===== src/License.antt =====
-- internal/license/license.go: what a mirrored subscription entitles to at an instant.
use secure_gateway.Common.{ℕ, ◌≡◌, ◌↔◌, Bool, true, false, ◌||◌, not, ltb, if◌then◌else◌, arith}
use secure_gateway.AuthStore.{
  is_zero, SubStatus, trialing, active, past_due, canceled, unpaid, incomplete_expired, paused,
  other, Subscription,
}

pub data Behavior : Type 0 where
  valid grace revoked suspended : Behavior

abbrev evaluate_status : SubStatus → ℕ → ℕ → Behavior
evaluate_status trialing grace_until now = valid
evaluate_status active grace_until now = valid
evaluate_status past_due grace_until now =
    if is_zero grace_until || ltb now grace_until then grace else revoked
evaluate_status paused grace_until now = suspended
evaluate_status canceled grace_until now = revoked
evaluate_status unpaid grace_until now = revoked
evaluate_status incomplete_expired grace_until now = revoked
evaluate_status (other s) grace_until now = revoked

unfoldable pub evaluate : Subscription → ℕ → Behavior
evaluate sub now = evaluate_status sub.status sub.grace_until now

unfoldable pub issuable : Behavior → Bool
issuable valid = true
issuable grace = true
issuable _ = false

unfoldable pub enforced : Behavior → Bool
enforced revoked = true
enforced suspended = true
enforced _ = false

-- A subscription that pays: trialing or active, or past due with its grace deadline not yet set or ahead.
pub data IsPaying (sub : Subscription) (now : ℕ) : Type 0 where
  on_trial : sub.status ≡ trialing → IsPaying sub now
  in_force : sub.status ≡ active → IsPaying sub now
  late :
      sub.status ≡ past_due
      → (is_zero sub.grace_until || ltb now sub.grace_until) ≡ true
      → IsPaying sub now

IsPaying-issuable :
    (sub : Subscription) (now : ℕ) → IsPaying sub now → issuable (evaluate sub now) ≡ true
unfolding evaluate issuable
IsPaying-issuable sub now (on_trial e) = ground arith
IsPaying-issuable sub now (in_force e) = ground arith
IsPaying-issuable sub now (late e h) = ground arith

issuable-IsPaying :
    (sub : Subscription) (now : ℕ) (s : SubStatus)
    → sub.status ≡ s
    → issuable (evaluate sub now) ≡ true
    → IsPaying sub now
unfolding evaluate issuable
issuable-IsPaying sub now trialing e h = on_trial e
issuable-IsPaying sub now active e h = in_force e
issuable-IsPaying sub now past_due e h = late e (ground arith)
issuable-IsPaying sub now canceled e h = absurd (ground arith)
issuable-IsPaying sub now unpaid e h = absurd (ground arith)
issuable-IsPaying sub now incomplete_expired e h = absurd (ground arith)
issuable-IsPaying sub now paused e h = absurd (ground arith)
issuable-IsPaying sub now (other x) e h = absurd (ground arith)

-- Tokens may be issued for exactly the subscriptions that pay, whatever the status text, and a
-- subscription is enforced exactly where they may not.
pub issuable_iff_IsPaying :
    (sub : Subscription) (now : ℕ)
    → ((issuable (evaluate sub now) ≡ true) ↔ IsPaying sub now)
      × (enforced (evaluate sub now) ≡ not (issuable (evaluate sub now)))
unfolding evaluate issuable enforced
issuable_iff_IsPaying sub now = (
  (issuable-IsPaying sub now sub.status (λ i. sub.status), IsPaying-issuable sub now),
  ground arith,
)
