-- ===== src/Persistence/Connections.antt =====
-- platform/crates/persistence/src/lib.rs: the registered connections of the replicas' sockets in the
-- store in memory. Times are nanoseconds.
pub mod Soundness
pub mod Reach
use dragon_shift.Common.{
  ℕ, ◌+◌, Bool, true, false, not, ◌&&◌, ◌||◌, String, Option, none, some, List, [], ◌∷◌, map,
  filter_by, leb, is_some, is_some_and, if◌then◌else◌, str_eq,
}
use dragon_shift.BTreeMap.{
  BTreeMap, string_key, get, contains_key, insert, remove, update, keys, values,
}
use dragon_shift.Realtime.{PlayerKey, key_eq, player_key}

pub record RealtimeConnectionRegistration : Type 0 where
  pub session_code : String
  pub player_id : String
  pub connection_id : String
  pub replica_id : String

-- A registration and when it was last renewed.
abbrev pub Entry : Type 0
Entry = RealtimeConnectionRegistration × ℕ

pub record Connections : Type 0 where
  pub by_id : BTreeMap String Entry
  pub by_session_player : BTreeMap PlayerKey String
  pub retired : BTreeMap String String

-- 15 seconds.
abbrev pub connection_ttl : ℕ
connection_ttl = 15000000000

-- `updated_at <= cutoff`, for the cutoff `now - 15 s`.
abbrev pub is_stale : ℕ → ℕ → Bool
is_stale now updated_at = leb (updated_at + connection_ttl) now

abbrev pub player_of : RealtimeConnectionRegistration → PlayerKey
player_of r = (r.session_code, r.player_id)

-- A connection that is there is removed from both maps.
abbrev pub forget_found : String → Option Entry → Connections → Connections
forget_found id none s = s
forget_found id (some (registration, updated_at)) s = record s {
  by_id = remove id s.by_id;
  by_session_player = remove (player_of registration) s.by_session_player;
}

unfoldable pub forget_all : List String → Connections → Connections
forget_all [] s = s
forget_all (id ∷ ids) s = forget_all ids (forget_found id (get id s.by_id) s)

-- The ids of the entries that pass a test, in the order of the map.
abbrev pub ids_where : (Entry → Bool) → BTreeMap String Entry → List String
ids_where test entries =
    map (λ (e : String × Entry). e.0) (filter_by (λ (e : String × Entry). test e.1) entries)

unfoldable pub prune_stale : ℕ → Connections → Connections
prune_stale now s = forget_all (ids_where (λ (e : Entry). is_stale now e.1) s.by_id) s

-- The entry of a connection that was another player's loses its player.
abbrev pub leave_player :
    Option Entry → PlayerKey → BTreeMap PlayerKey String → BTreeMap PlayerKey String
leave_player none key players = players
leave_player (some (existing, updated_at)) key players =
    if key_eq (player_of existing) key then players else remove (player_of existing) players

-- The connection that the player had is dropped, unless it is the new one.
abbrev pub drop_previous : Option String → String → BTreeMap String Entry → BTreeMap String Entry
drop_previous none id entries = entries
drop_previous (some previous) id entries =
    if str_eq previous id then entries else remove previous entries

abbrev pub registration_of : Option Entry → Option RealtimeConnectionRegistration
registration_of none = none
registration_of (some (registration, updated_at)) = some registration

abbrev pub replaced_by :
    Option String → String → BTreeMap String Entry → Option RealtimeConnectionRegistration
replaced_by none id entries = none
replaced_by (some previous) id entries =
    if str_eq previous id then none else registration_of (get previous entries)

abbrev pub retire :
    Option RealtimeConnectionRegistration → BTreeMap String String → BTreeMap String String
retire none retired = retired
retire (some r) retired = insert r.connection_id r.replica_id retired

-- The end of a claim, and of a restore.
unfoldable pub register :
    ℕ
    → RealtimeConnectionRegistration
    → Connections
    → Connections × Option RealtimeConnectionRegistration
register now r s =
    let left = leave_player (get r.connection_id s.by_id) (player_of r) s.by_session_player in
    let previous = get (player_of r) left in
    let replaced = replaced_by previous r.connection_id s.by_id in
    (
      record {
        by_id = insert r.connection_id (r, now) (drop_previous previous r.connection_id s.by_id);
        by_session_player = insert (player_of r) r.connection_id left;
        retired = retire replaced s.retired;
      },
      replaced,
    )

pub data Claim : Type 0 where
  claimed : Option RealtimeConnectionRegistration → Claim
  retired_realtime_connection : String → Claim

abbrev pub claim_made : Connections × Option RealtimeConnectionRegistration → Connections × Claim
claim_made (s, replaced) = (s, claimed replaced)

-- The claim after the stale entries were removed.
unfoldable pub claim_pruned : ℕ → RealtimeConnectionRegistration → Connections → Connections × Claim
claim_pruned now r s =
    if contains_key r.connection_id s.retired
    then (s, retired_realtime_connection r.connection_id)
    else claim_made (register now r s)

unfoldable pub claim_realtime_connection :
    ℕ → RealtimeConnectionRegistration → Connections → Connections × Claim
claim_realtime_connection now r s = claim_pruned now r (prune_stale now s)

pub record Restore : Type 0 where
  pub restored : Bool
  pub replaced : Option RealtimeConnectionRegistration

abbrev pub restore_made :
    Connections × Option RealtimeConnectionRegistration → Connections × Restore
restore_made (s, replaced) = (s, record { restored = true; replaced = replaced })

-- `current_connection_id != &registration.connection_id`, for the player's connection
abbrev pub has_other : Option String → String → Bool
has_other none id = false
has_other (some current) id = not (str_eq current id)

abbrev pub not_restored : Restore
not_restored = record { restored = false; replaced = none }

unfoldable pub restore_pruned :
    ℕ → RealtimeConnectionRegistration → Connections → Connections × Restore
restore_pruned now r s =
    if has_other (get (player_of r) s.by_session_player) r.connection_id
    then (s, not_restored)
    else if not
        (is_some_and (get r.connection_id s.retired) (λ replica. str_eq replica r.replica_id))
    then (s, not_restored)
    else restore_made (register now r (record s { retired = remove r.connection_id s.retired }))

unfoldable pub restore_realtime_connection :
    ℕ → RealtimeConnectionRegistration → Connections → Connections × Restore
restore_realtime_connection now r s = restore_pruned now r (prune_stale now s)

abbrev pub is_renewable : ℕ → String → Option Entry → Bool
is_renewable now replica_id none = false
is_renewable now replica_id (some (registration, updated_at)) =
    not (not (str_eq registration.replica_id replica_id) || is_stale now updated_at)

unfoldable pub renew_realtime_connection : ℕ → String → String → Connections → Connections × Bool
renew_realtime_connection now id replica_id s =
    if is_renewable now replica_id (get id s.by_id)
    then (record s { by_id = update id (λ (e : Entry). (e.0, now)) s.by_id }, true)
    else (s, false)

-- The entry goes before its replica is compared; its player's only if the replica is the caller's.
abbrev pub release_found :
    String
    → String
    → Option Entry
    → Connections
    → Connections × Option RealtimeConnectionRegistration
release_found id replica_id none s = (s, none)
release_found id replica_id (some (registration, updated_at)) s =
    if str_eq registration.replica_id replica_id
    then (
      record s {
        by_id = remove id s.by_id;
        by_session_player = remove (player_of registration) s.by_session_player;
      },
      some registration,
    )
    else (record s { by_id = remove id s.by_id }, none)

unfoldable pub release_realtime_connection :
    String → String → Connections → Connections × Option RealtimeConnectionRegistration
release_realtime_connection id replica_id s = release_found id replica_id (get id s.by_id) s

unfoldable pub take_retired_realtime_connection :
    String → String → Connections → Connections × Option RealtimeConnectionRegistration
take_retired_realtime_connection id replica_id s =
    if is_some_and (get id s.retired) (λ replica. str_eq replica replica_id)
    then (
      record s { retired = remove id s.retired },
      some (record {
        session_code = "";
        player_id = "";
        connection_id = id;
        replica_id = replica_id;
      }),
    )
    else (s, none)

unfoldable pub list_realtime_connections :
    ℕ → String → Connections → List RealtimeConnectionRegistration
list_realtime_connections now session_code s =
    map (λ (e : Entry). e.0)
      (filter_by (λ (e : Entry). str_eq e.0.session_code session_code && not (is_stale now e.1))
        (values s.by_id))

-- Each connection of a deleted session is removed, and retired.
unfoldable pub delete_each :
    List String → Connections → Connections × List RealtimeConnectionRegistration
delete_each [] s = (s, [])
delete_each (id ∷ ids) s = elim (get id s.by_id) [
  | none ↦ delete_each ids s
  | some e ↦
      let (after, rest) = delete_each ids (record {
        by_id = remove id s.by_id;
        by_session_player = remove (player_of e.0) s.by_session_player;
        retired = insert e.0.connection_id e.0.replica_id s.retired;
      }) in
      (after, e.0 ∷ rest)
]

unfoldable pub delete_realtime_connections_for_session :
    String → Connections → Connections × List RealtimeConnectionRegistration
delete_realtime_connections_for_session session_code s =
    delete_each (ids_where (λ (e : Entry). str_eq e.0.session_code session_code) s.by_id) s
