-- ===== src/Session/Host.antt =====
-- platform/crates/domain/src/lib.rs, who hosts a workshop: `add_player`, `reserve_host`,
-- `assign_reserved_host_to_player`, `ensure_host_assigned` and `reconcile_host_flags`. `Election`
-- and `Seating` hold the proofs.
pub mod Election
pub mod Seating
use dragon_shift.Common.{
  ℕ, String, Bool, true, false, not, ◌&&◌, ◌||◌, Option, none, some, List, [], ◌∷◌, any, filter_by,
  is_some, is_none, is_some_and, and_then, if◌then◌else◌, leb, str_eq,
}
use mathlib.Core.Option
use dragon_shift.BTreeMap.{BTreeMap, string_key, get, insert, values, map_values, find_map}
use dragon_shift.Session.{SessionPlayer, WorkshopSession, touch}

-- `a.zip(b).is_some_and(|(a, b)| a == b)`: both are there and equal.
abbrev pub zip_eq : Option String → Option String → Bool
zip_eq none b = false
zip_eq (some a) none = false
zip_eq (some a) (some b) = str_eq a b

abbrev pub account_of : BTreeMap String SessionPlayer → String → Option String
account_of players player_id = and_then (get player_id players) λ player. player.account_id

abbrev pub flagged : Option String → SessionPlayer → SessionPlayer
flagged host_id player = record player { is_host = is_some_and host_id (λ id. str_eq id player.id) }

unfoldable pub reconcile_host_flags : Option String → WorkshopSession → WorkshopSession
reconcile_host_flags host_id s = record s { players = map_values (flagged host_id) s.players }

-- `self.host_player_id = host_id`, and the flags after it.
abbrev pub seat : Option String → WorkshopSession → WorkshopSession
seat host_id s = reconcile_host_flags host_id (record s { host_player_id = host_id })

unfoldable pub assign_reserved_host_to_player : String → WorkshopSession → WorkshopSession × Bool
assign_reserved_host_to_player player_id s =
    if zip_eq (account_of s.players player_id) s.reserved_host_account_id
    then (
      seat (some player_id)
          (record s { reserved_host_account_id = none; reserved_host_name = none }),
      true,
    )
    else (s, false)

-- The first of the players who joined earliest.
unfoldable pub min_by_joined : List SessionPlayer → Option SessionPlayer
min_by_joined [] = none
min_by_joined (p ∷ ps) = elim (min_by_joined ps) [
  | none ↦ some p
  | some q ↦ if leb p.joined_at q.joined_at then some p else some q
]

-- `!prefer_connected || player.is_connected`
abbrev pub eligible : Bool → SessionPlayer → Bool
eligible prefer_connected player = not prefer_connected || player.is_connected

-- The first player of an account, in the order of the ids, who is eligible.
unfoldable pub find_account : Bool → Option String → BTreeMap String SessionPlayer → Option String
find_account prefer_connected account players =
    find_map
      (λ player_id player.
        if zip_eq player.account_id account && eligible prefer_connected player
        then some player_id
        else none)
      players

unfoldable pub elect : Bool → WorkshopSession → WorkshopSession × Option String
elect prefer_connected s =
    let next_host =
      Option.map (λ (player : SessionPlayer). player.id)
        (min_by_joined (filter_by (eligible prefer_connected) (values s.players))) in
    (seat next_host s, next_host)

-- The host stays if the player is there and eligible.
unfoldable pub staying_host : Bool → WorkshopSession → Option String
staying_host prefer_connected s = and_then s.host_player_id (λ id.
    and_then (get id s.players) (λ host. if eligible prefer_connected host then some id else none))

-- Otherwise the players elect one.
unfoldable pub keep_or_elect : Bool → WorkshopSession → WorkshopSession × Option String
keep_or_elect prefer_connected s = elim (staying_host prefer_connected s) [
  | some id ↦ (reconcile_host_flags (some id) s, some id)
  | none ↦ elect prefer_connected s
]

-- `players.get(host).account_id == Some(owner)`, for the host that there is.
abbrev pub current_matches_owner : String → WorkshopSession → Bool
current_matches_owner owner s =
    zip_eq (and_then s.host_player_id (account_of s.players)) (some owner)

-- A player of the owner's account takes the seat of anyone else.
abbrev pub takes_seat : Bool → String → WorkshopSession → Bool
takes_seat prefer_connected owner s =
    is_some (find_account prefer_connected (some owner) s.players)
    && not (current_matches_owner owner s)

-- With no host and no player of the owner's account, the seat stays empty.
abbrev pub waits_for_owner : String → WorkshopSession → Bool
waits_for_owner owner s =
    not (any (λ (player : SessionPlayer). zip_eq player.account_id (some owner)) (values s.players))
    && is_none s.host_player_id

unfoldable pub ensure_owner :
    Bool → Option String → WorkshopSession → WorkshopSession × Option String
ensure_owner prefer_connected none s = keep_or_elect prefer_connected s
ensure_owner prefer_connected (some owner) s =
    let owner_host = find_account prefer_connected (some owner) s.players in
    if takes_seat prefer_connected owner s
    then (seat owner_host s, owner_host)
    else if waits_for_owner owner s
    then (seat none s, none)
    else keep_or_elect prefer_connected s

-- With a reservation only its account hosts.
unfoldable pub find_reserved : Bool → WorkshopSession → WorkshopSession × Option String
find_reserved prefer_connected s =
    elim (find_account prefer_connected s.reserved_host_account_id s.players) [
      | some id ↦ ((assign_reserved_host_to_player id s).0, some id)
      | none ↦ (seat none s, none)
    ]

-- The reservation's branch, for the host that there is.
unfoldable pub ensure_reserved :
    Bool → Option String → WorkshopSession → WorkshopSession × Option String
ensure_reserved prefer_connected none s = find_reserved prefer_connected s
ensure_reserved prefer_connected (some id) s =
    if zip_eq (account_of s.players id) s.reserved_host_account_id
    then ((assign_reserved_host_to_player id s).0, some id)
    else find_reserved prefer_connected (seat none s)

unfoldable pub ensure_host_assigned : Bool → WorkshopSession → WorkshopSession × Option String
ensure_host_assigned prefer_connected s =
    if is_some s.reserved_host_account_id
    then ensure_reserved prefer_connected s.host_player_id s
    else ensure_owner prefer_connected s.owner_account_id s

-- `can_assign_first_host`, where there is neither a host nor a reservation.
abbrev pub may_host_first : SessionPlayer → WorkshopSession → Bool
may_host_first player s =
    is_none s.host_player_id
    && (is_none s.reserved_host_account_id
        && (is_none s.owner_account_id || zip_eq player.account_id s.owner_account_id))

-- The part of `add_player` between the insertion and `ensure_host_assigned`.
unfoldable pub first_host : SessionPlayer → WorkshopSession → WorkshopSession
first_host player s =
    if zip_eq s.reserved_host_account_id (account_of s.players player.id)
    then (assign_reserved_host_to_player player.id s).0
    else if may_host_first player s
    then record s { host_player_id = some player.id }
    else s

unfoldable pub add_player : ℕ → SessionPlayer → WorkshopSession → WorkshopSession
add_player now player s =
    touch now
      (ensure_host_assigned false
        (first_host player (record s { players = insert player.id player s.players }))).0

-- The old host gives way to the reservation, unless it is of the reserved account.
unfoldable pub reseat : Option String → WorkshopSession → WorkshopSession
reseat none s = s
reseat (some id) s =
    if zip_eq (account_of s.players id) s.reserved_host_account_id
    then (assign_reserved_host_to_player id s).0
    else reconcile_host_flags (some id) s

unfoldable pub reserve_host : ℕ → String → String → WorkshopSession → WorkshopSession
reserve_host now account_id name s = touch now (
    reseat s.host_player_id (record s {
      owner_account_id = some account_id;
      reserved_host_account_id = some account_id;
      reserved_host_name = some name;
    }))
