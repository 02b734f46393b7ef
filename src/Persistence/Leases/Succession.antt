-- ===== src/Persistence/Leases/Succession.antt =====
-- How a session's lease passes from the lease that expired to the one that asks next.
use dragon_shift.Common.{
  ℕ, ◌<◌, ◌≡◌, ◌≢◌, refl, ap, ◌∙◌, true, false, String, Option, some, List, All, arith,
}
use dragon_shift.BTreeMap.{string_key, get}
use dragon_shift.BTreeMap.Laws.{get-insert_self}
use dragon_shift.Persistence.Leases.{
  Leases, may_acquire, acquire_session_lease, is_held_by, release_session_lease,
  renew_session_lease, LeaseCall, run,
}
use dragon_shift.Persistence.Leases.Exclusion.{Before, run-Holds, not_held, lease-excludes}

take_over :
    (parse : String → Option ℕ) (now : ℕ) (other id expires_at : String) (deadline : ℕ)
    → parse expires_at ≡ some deadline
    → ¬ (now < deadline)
    → may_acquire parse now other (some (id, expires_at)) ≡ true
take_over parse now other id expires_at deadline reads late = rw reads (ground arith)

acquired :
    (parse : String → Option ℕ) (now : ℕ) (code lease_id expires_at : String) (leases : Leases)
    → may_acquire parse now lease_id (get code leases) ≡ true
    → let r = acquire_session_lease parse now code lease_id expires_at leases in
      (r.1 ≡ true) × (get code r.0 ≡ some (lease_id, expires_at))
unfolding acquire_session_lease
acquired parse now code lease_id expires_at leases h =
    rw h (refl, get-insert_self code (lease_id, expires_at) leases)

-- A lease that does not hold the session can neither renew nor release it.
shut_out :
    (code lease_id expires_at : String) (leases : Leases)
    → is_held_by lease_id (get code leases) ≡ false
    → (renew_session_lease code lease_id expires_at leases ≡ (leases, false))
      × (release_session_lease code lease_id leases ≡ leases)
unfolding renew_session_lease release_session_lease
shut_out code lease_id expires_at leases h = rw h (refl, refl)

-- A lease that is no longer renewed passes on. Where a lease on a session is held with a readable
-- deadline, then after any calls for other leases that are made before the deadline, another lease
-- that asks for the session at the deadline or later gets it. If its own deadline is readable too,
-- then after any calls for leases other than it, the old one's among them, that are made before this
-- deadline, it holds the session; and the old lease, which asks before this deadline or tries to renew
-- or to release, is refused and changes nothing.
pub lease_passes_on :
    (parse : String → Option ℕ) (code old old_expires_at : String) (old_deadline : ℕ)
    (leases : Leases) (calls : List (ℕ × LeaseCall)) (now : ℕ) (new new_expires_at : String)
    (new_deadline : ℕ) (later_calls : List (ℕ × LeaseCall)) (later : ℕ) (again : String)
    → parse old_expires_at ≡ some old_deadline
    → get code leases ≡ some (old, old_expires_at)
    → All (Before old old_deadline) calls
    → ¬ (now < old_deadline)
    → parse new_expires_at ≡ some new_deadline
    → All (Before new new_deadline) later_calls
    → later < new_deadline
    → old ≢ new
    → let taken =
        acquire_session_lease parse now code new new_expires_at (run parse leases calls) in
      let after = run parse taken.0 later_calls in
      (taken.1 ≡ true)
      × (get code after ≡ some (new, new_expires_at))
      × (acquire_session_lease parse later code old again after ≡ (after, false))
      × (renew_session_lease code old again after ≡ (after, false))
      × (release_session_lease code old after ≡ after)
lease_passes_on parse code old old_expires_at old_deadline leases calls now new new_expires_at
      new_deadline later_calls later again reads_old h before late reads_new before_new early ne =
    let held =
      run-Holds parse code old old_expires_at old_deadline reads_old leases calls before h in
    let (got, holds) = acquired parse now code new new_expires_at (run parse leases calls) (
      ap (may_acquire parse now new) held
      ∙ take_over parse now new old old_expires_at old_deadline reads_old late) in
    let taken =
      (acquire_session_lease parse now code new new_expires_at (run parse leases calls)).0 in
    let (kept, refused) =
      lease-excludes parse code new new_expires_at new_deadline taken later_calls later old again
        reads_new holds before_new early ne in
    let (renewed, released) = shut_out code old again (run parse taken later_calls) (
      not_held parse code new new_expires_at new_deadline reads_new old
        (get code (run parse taken later_calls)) ne kept) in
    (got, kept, refused, renewed, released)
