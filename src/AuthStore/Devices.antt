-- ===== src/AuthStore/Devices.antt =====
-- internal/authstore/memory/memory.go: devices.
use Prim.Native.String.{compare}
use text.Mathlib.Text.{is_lt}
use secure_gateway.Common.{
  ℕ, nat_eq, String, str_eq, Bool, true, false, ◌&&◌, Option, none, some, List, [], ◌∷◌,
  if◌then◌else◌, count, string_key,
}
use secure_gateway.Common.Table.{values, get, put}
use secure_gateway.AuthStore.{not_found, Device}
use secure_gateway.AuthStore.State.{Store, Outcome, fail, found}

keep_key : Option (List ℕ) → Option Device → Option (List ℕ)
keep_key (some k) old = some k
keep_key none none = none
keep_key none (some old) = old.public_key

unfoldable pub upsert_device : Device → Store → Store
unfolding keep_key
upsert_device d s =
    let key = keep_key d.public_key (get d.id s.devices) in
    record s { devices = put d.id (record d { public_key = key }) s.devices }

abbrev pub get_device : String → Store → Outcome Device
get_device id s = found (get id s.devices)

unfoldable pub count_devices_by_account : String → Store → ℕ
count_devices_by_account account s = count (λ d. str_eq d.account_id account) (values s.devices)

abbrev pub same_bytes : List ℕ → List ℕ → Bool
same_bytes [] [] = true
same_bytes [] (y ∷ ys) = false
same_bytes (x ∷ xs) [] = false
same_bytes (x ∷ xs) (y ∷ ys) = nat_eq x y && same_bytes xs ys

-- The bytes of a slice that may be nil.
abbrev pub bytes : Option (List ℕ) → List ℕ
bytes none = []
bytes (some b) = b

device_matches : String → String → List ℕ → Device → Bool
device_matches account role key d =
    str_eq d.account_id account && str_eq d.role role && same_bytes (bytes d.public_key) key

-- The match with the lowest id, as the loop keeps it.
lower_id : Device → Option Device → Bool
lower_id d none = true
lower_id d (some m) = is_lt (compare d.id m.id)

lowest_match : (Device → Bool) → Option Device → List Device → Option Device
unfolding lower_id
lowest_match p best [] = best
lowest_match p best (d ∷ ds) = lowest_match p (if p d && lower_id d best then some d else best) ds

unfoldable pub find_device_by_account_role_key : String → String → List ℕ → Store → Outcome Device
unfolding device_matches lowest_match
find_device_by_account_role_key account role [] s = fail not_found
find_device_by_account_role_key account role (b ∷ key) s =
    found (lowest_match (device_matches account role (b ∷ key)) none (values s.devices))
