-- ===== src/AuthStore/Pairings/Count.antt =====
-- What the pairing operations do to the number of active pairings of a license.
use secure_gateway.Common.{
  ℕ, ◌+◌, ◌<◌, ◌≡◌, String, none, some, arith, if◌then◌else◌, string_key, Option-cases, inl, inr,
  count,
}
use secure_gateway.Common.Table.{Table, get, put, values, count-put_fresh, count-put_old}
use secure_gateway.AuthStore.{Pairing, pairing_revoked}
use secure_gateway.AuthStore.State.{Store, ok}
use secure_gateway.AuthStore.Pairings.{
  active_for_license, active_pair_count, create_pairing_within_capacity, update_pairing_devices,
}

-- A pairing is created only under a fresh id and only below the limit.
pub create-ok :
    (p : Pairing) (n : ℕ) (s s' : Store)
    → create_pairing_within_capacity p n s ≡ ok s'
    → (get p.pair_id s.pairings ≡ none)
      × (active_pair_count p.license_id s < n)
      × (s' ≡ record s { pairings = put p.pair_id p s.pairings })
unfolding create_pairing_within_capacity
create-ok p n s s' h = ground arith

pub update-ok :
    (id mobile desktop : String) (s s' : Store)
    → update_pairing_devices id mobile desktop s ≡ ok s'
    → (p : Pairing) × (get id s.pairings ≡ some p)
      × (s' ≡ record s {
        pairings =
            put id (record p { mobile_device_id = mobile; desktop_device_id = desktop }) s.pairings;
      })
unfolding update_pairing_devices
update-ok id mobile desktop s s' h = elim (Option-cases (get id s.pairings)) [
  | inl e ↦ absurd (ground arith)
  | inr (p, e) ↦ (p, e, ground arith)
]

-- A new active pairing counts for its own license only.
pub count-create :
    (p : Pairing) (license : String) (m : Table String Pairing)
    → get p.pair_id m ≡ none
    → count (active_for_license license) (values (put p.pair_id p m))
      ≡ (if active_for_license license p then 1 else 0)
        + count (active_for_license license) (values m)
count-create p license m h = count-put_fresh (active_for_license license) p.pair_id p m h

-- A pairing that changes its devices counts as before.
pub count-update :
    (p : Pairing) (id mobile desktop license : String) (m : Table String Pairing)
    → get id m ≡ some p
    → count
        (active_for_license license)
        (values (put id (record p { mobile_device_id = mobile; desktop_device_id = desktop }) m))
      ≡ count (active_for_license license) (values m)
count-update p id mobile desktop license m h = omega (
  arith,
  count-put_old (active_for_license license) id
      (record p { mobile_device_id = mobile; desktop_device_id = desktop }) p m h,
)

-- A pairing that is revoked frees its slot.
pub count-revoke :
    (p : Pairing) (id license : String) (m : Table String Pairing)
    → get id m ≡ some p
    → count (active_for_license license) (values (put id (record p { status = pairing_revoked }) m))
        + (if active_for_license license p then 1 else 0)
      ≡ count (active_for_license license) (values m)
count-revoke p id license m h = ground (
  arith,
  count-put_old (active_for_license license) id (record p { status = pairing_revoked }) p m h,
)
