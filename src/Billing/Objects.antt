-- ===== src/Billing/Objects.antt =====
-- internal/billing/extract.go, the parts of Stripe's objects that the processor reads, and MaxPairs of
-- internal/license/license.go.
use secure_gateway.Common.{
  ℕ, ◌+◌, ◌*◌, String, str_eq, not, Option, none, some, List, [], ◌∷◌, ltb, leb, if◌then◌else◌,
  string_key,
}
use secure_gateway.Common.Table.{Table, get}
use secure_gateway.AuthStore.{
  SubStatus, trialing, active, past_due, canceled, unpaid, incomplete_expired, paused, other,
}
use secure_gateway.AuthStore.State.{has_key}

-- A nil price and a nil map of metadata are both `none`. A period end that is not positive is 0.
pub record Item : Type 0 where
  pub id : String
  pub price_metadata : Option (Table String String)
  pub current_period_end : ℕ

-- A nil pointer is `none`; of a customer or a subscription that is expanded, only the id is read.
pub record StripeSubscription : Type 0 where
  pub id : String
  pub customer : Option String
  pub status : String
  pub items : List (Option Item)
  pub metadata : Table String String

pub record CheckoutSession : Type 0 where
  pub id : String
  pub customer : Option String
  pub client_reference_id : String
  pub subscription : Option String
  pub metadata : Table String String

-- The subscription of an invoice's parent; a nil on the way is `none`.
pub record Invoice : Type 0 where
  pub id : String
  pub parent_subscription : Option String

pub record Event : Type 0 where
  pub id : String
  pub type : String
  pub raw : List ℕ

-- json.Unmarshal for each type, and strconv.Atoi of a trimmed text (`none` is an error or a negative
-- number).
pub record Parsers : Type 0 where
  pub checkout_session : List ℕ → Option CheckoutSession
  pub subscription : List ℕ → Option StripeSubscription
  pub invoice : List ℕ → Option Invoice
  pub event : List ℕ → Option Event
  pub atoi : String → Option ℕ

-- customerIDOf and subscriptionIDOf.
abbrev pub id_of : Option String → String
id_of none = ""
id_of (some id) = id

abbrev at_least_one : Option ℕ → ℕ
at_least_one none = 1
at_least_one (some n) = if leb 1 n then n else 1

abbrev entitled : Parsers → Option String → ℕ
entitled ps none = 1
entitled ps (some v) = at_least_one (ps.atoi v)

unfoldable pub max_pairs : Parsers → Table String String → ℕ
max_pairs ps metadata = entitled ps (get "max_pairs" metadata)

-- The metadata of an item that names max_pairs.
abbrev naming_max_pairs : Option Item → Option (Table String String)
naming_max_pairs none = none
naming_max_pairs (some it) = elim it.price_metadata [
  | none ↦ none
  | some m ↦ if has_key (get "max_pairs" m) then some m else none
]

abbrev first_naming : List (Option Item) → Option (Table String String)
first_naming [] = none
first_naming (it ∷ rest) = elim (naming_max_pairs it) [ none ↦ first_naming rest | some m ↦ some m ]

unfoldable pub max_pairs_for : Parsers → StripeSubscription → ℕ
max_pairs_for ps sub = elim (first_naming sub.items) [
  | none ↦ max_pairs ps sub.metadata
  | some m ↦ max_pairs ps m
]

-- `time.Unix(n, 0)`: the unix epoch is 62135596800 seconds after Go's zero time.
abbrev pub from_unix : ℕ → ℕ
from_unix n = (n + 62135596800) * 1000000000

abbrev pub current_period_end : List (Option Item) → ℕ
current_period_end [] = 0
current_period_end (none ∷ rest) = current_period_end rest
current_period_end (some it ∷ rest) =
    if ltb 0 it.current_period_end then from_unix it.current_period_end else current_period_end rest

abbrev pub first_item_id : List (Option Item) → String
first_item_id [] = ""
first_item_id (none ∷ rest) = first_item_id rest
first_item_id (some it ∷ rest) = if not (str_eq it.id "") then it.id else first_item_id rest

-- SubStatus of a text.
abbrev pub sub_status : String → SubStatus
sub_status s =
    if str_eq s "trialing"
    then trialing
    else if str_eq s "active"
    then active
    else if str_eq s "past_due"
    then past_due
    else if str_eq s "canceled"
    then canceled
    else if str_eq s "unpaid"
    then unpaid
    else if str_eq s "incomplete_expired"
    then incomplete_expired
    else if str_eq s "paused"
    then paused
    else other s
