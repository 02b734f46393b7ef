-- ===== src/Examples/Replicas.antt =====
-- Tests of the leases and the registered connections of the store in memory.
use dragon_shift.Common.{
  ℕ, ◌≡◌, ◌≢◌, refl, String, true, false, Option, none, some, List, [], ◌∷◌, arith, str_eq, eq_iff,
  if◌then◌else◌,
}
use dragon_shift.BTreeMap.{BTreeMap, string_key, get, insert, remove, update}
use dragon_shift.Realtime.{player_key}
use dragon_shift.Persistence.Leases.{
  Leases, acquire_session_lease, release_session_lease, renew_session_lease, LeaseCall, acquires,
  releases, renews, run,
}
use dragon_shift.Persistence.Leases.Exclusion.{lease-excludes}
use dragon_shift.Persistence.Leases.Succession.{lease_passes_on}
use dragon_shift.Persistence.Connections.{
  RealtimeConnectionRegistration, Connections, claim_realtime_connection,
  release_realtime_connection, renew_realtime_connection, prune_stale, forget_all, claim_pruned,
  register,
}
use dragon_shift.Persistence.Connections.Soundness.{IsSound}
use dragon_shift.Persistence.Connections.Reach.{
  no_connections, claims, Reachable, started, stepped, Reachable-IsSound,
}

differ : (s t : String) → str_eq s t ≡ false → s ≢ t
differ s t e h = cc ((eq_iff s t).1 h, e)

-- A clock of two timestamps.
abbrev parse : String → Option ℕ
parse text =
    if str_eq text "noon" then some 100 else if str_eq text "evening" then some 200 else none

abbrev held : Leases
held = ("123456", ("lease-a", "noon")) ∷ []

abbrev intruders : List (ℕ × LeaseCall)
intruders =
    (10, acquires "123456" "lease-b" "later")
    ∷ (20, releases "123456" "lease-b")
    ∷ (30, renews "123456" "lease-b" "later")
    ∷ (40, acquires "654321" "lease-b" "later")
    ∷ []

lease-excludes_example :
    (get "123456" (run parse held intruders) ≡ some ("lease-a", "noon"))
    × (acquire_session_lease parse 99 "123456" "lease-b" "later" (run parse held intruders)
        ≡ (run parse held intruders, false))
unfolding get
lease-excludes_example =
    lease-excludes parse "123456" "lease-a" "noon" 100 held intruders 99 "lease-b" "later" refl refl
      (
        (omega arith, other),
        ((omega arith, other), ((omega arith, other), ((omega arith, other), tt))),
      )
      (omega arith) other
  where
    other : ◌≢◌ {A = String} "lease-b" "lease-a"
    other = differ "lease-b" "lease-a" refl

-- What the replica of the expired lease tries afterwards.
abbrev comes_back : List (ℕ × LeaseCall)
comes_back =
    (110, acquires "123456" "lease-a" "noon")
    ∷ (120, renews "123456" "lease-a" "evening")
    ∷ (130, releases "123456" "lease-a")
    ∷ []

lease_passes_on_example :
    let taken =
      acquire_session_lease parse 100 "123456" "lease-b" "evening" (run parse held intruders) in
    let after = run parse taken.0 comes_back in
    (taken.1 ≡ true)
    × (get "123456" after ≡ some ("lease-b", "evening"))
    × (acquire_session_lease parse 199 "123456" "lease-a" "noon" after ≡ (after, false))
    × (renew_session_lease "123456" "lease-a" "noon" after ≡ (after, false))
    × (release_session_lease "123456" "lease-a" after ≡ after)
unfolding get
lease_passes_on_example =
    lease_passes_on parse "123456" "lease-a" "noon" 100 held intruders 100 "lease-b" "evening" 200
      comes_back 199 "noon" refl refl
      ((omega arith, new), ((omega arith, new), ((omega arith, new), ((omega arith, new), tt))))
      (omega arith) refl ((omega arith, old), ((omega arith, old), ((omega arith, old), tt)))
      (omega arith) old
  where
    new : ◌≢◌ {A = String} "lease-b" "lease-a"
    new = differ "lease-b" "lease-a" refl

    old : ◌≢◌ {A = String} "lease-a" "lease-b"
    old = differ "lease-a" "lease-b" refl

abbrev socket : String → String → RealtimeConnectionRegistration
socket id replica = record {
  session_code = "123456";
  player_id = "ann";
  connection_id = id;
  replica_id = replica;
}

-- A second window of one player, at another replica.
abbrev first_window : Connections
first_window = (claim_realtime_connection 1 (socket "c1" "r1") no_connections).0

abbrev second_window : Connections
second_window = (claim_realtime_connection 2 (socket "c2" "r2") first_window).0

second_window_reached : Reachable second_window
second_window_reached =
    stepped (stepped started (claims 1 (socket "c1" "r1"))) (claims 2 (socket "c2" "r2"))

Reachable-IsSound_example : IsSound second_window
Reachable-IsSound_example = Reachable-IsSound second_window_reached

second_replaces_first :
    (get "c1" second_window.by_id ≡ none) × (get "c1" second_window.retired ≡ some "r1")
unfolding claim_realtime_connection prune_stale forget_all claim_pruned register get insert remove
    update dragon_shift.BTreeMap.insert_new
second_replaces_first = (refl, refl)

-- A release by another replica drops the connection, and leaves its player linked to it.
released_by_another :
    let after = (release_realtime_connection "c1" "r2" first_window).0 in
    (get "c1" after.by_id ≡ none) × (get ("123456", "ann") after.by_session_player ≡ some "c1")
unfolding release_realtime_connection claim_realtime_connection prune_stale forget_all claim_pruned
    register get insert remove update dragon_shift.BTreeMap.insert_new
released_by_another = (refl, refl)

-- An entry of 15 seconds is not renewed any more.
renewed_too_late : (renew_realtime_connection 15000000001 "c1" "r1" first_window).1 ≡ false
unfolding renew_realtime_connection claim_realtime_connection prune_stale forget_all claim_pruned
    register get insert remove update dragon_shift.BTreeMap.insert_new
renewed_too_late = refl
