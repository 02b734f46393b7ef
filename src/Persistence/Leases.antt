-- ===== src/Persistence/Leases.antt =====
-- platform/crates/persistence/src/lib.rs: the leases of the sessions in the store in memory. How a
-- timestamp is read is chrono's, and an argument.
pub mod Exclusion
pub mod Succession
use dragon_shift.Common.{
  ℕ, Bool, true, false, String, Option, none, some, List, [], ◌∷◌, leb, is_some_and, if◌then◌else◌,
  str_eq, ◌||◌,
}
use dragon_shift.BTreeMap.{BTreeMap, string_key, get, insert, remove, update}

-- For each session's code the lease's id and when it expires.
abbrev pub Leases : Type 0
Leases = BTreeMap String (String × String)

-- Whether a lease may be taken over from the one that is there.
abbrev pub may_acquire : (String → Option ℕ) → ℕ → String → Option (String × String) → Bool
may_acquire parse now lease_id none = true
may_acquire parse now lease_id (some (existing_lease_id, existing_expires_at)) =
    str_eq existing_lease_id lease_id
    || is_some_and (parse existing_expires_at) (λ deadline. leb deadline now)

unfoldable pub acquire_session_lease :
    (String → Option ℕ) → ℕ → String → String → String → Leases → Leases × Bool
acquire_session_lease parse now code lease_id expires_at leases =
    if may_acquire parse now lease_id (get code leases)
    then (insert code (lease_id, expires_at) leases, true)
    else (leases, false)

abbrev pub is_held_by : String → Option (String × String) → Bool
is_held_by lease_id none = false
is_held_by lease_id (some (existing_lease_id, _)) = str_eq existing_lease_id lease_id

unfoldable pub release_session_lease : String → String → Leases → Leases
release_session_lease code lease_id leases =
    if is_held_by lease_id (get code leases) then remove code leases else leases

unfoldable pub renew_session_lease : String → String → String → Leases → Leases × Bool
renew_session_lease code lease_id expires_at leases =
    if is_held_by lease_id (get code leases)
    then (update code (λ (lease : String × String). (lease.0, expires_at)) leases, true)
    else (leases, false)

-- The calls of the server's replicas.
pub data LeaseCall : Type 0 where
  acquires : String → String → String → LeaseCall
  releases : String → String → LeaseCall
  renews : String → String → String → LeaseCall

-- The lease that a call is made for.
abbrev pub lease_of : LeaseCall → String
lease_of (acquires code lease_id expires_at) = lease_id
lease_of (releases code lease_id) = lease_id
lease_of (renews code lease_id expires_at) = lease_id

unfoldable pub exec : (String → Option ℕ) → ℕ → LeaseCall → Leases → Leases
exec parse now (acquires code lease_id expires_at) leases =
    (acquire_session_lease parse now code lease_id expires_at leases).0
exec parse now (releases code lease_id) leases = release_session_lease code lease_id leases
exec parse now (renews code lease_id expires_at) leases =
    (renew_session_lease code lease_id expires_at leases).0

unfoldable pub run : (String → Option ℕ) → Leases → List (ℕ × LeaseCall) → Leases
run parse leases [] = leases
run parse leases ((now, call) ∷ calls) = run parse (exec parse now call leases) calls
