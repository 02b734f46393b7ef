-- ===== src/Realtime.antt =====
-- platform/crates/realtime/src/lib.rs: `SessionRegistry`, which connection speaks for which player
-- of which session, kept in two maps.
pub mod Links
use dragon_shift.Common.{
  ℕ, Bool, true, false, not, ◌&&◌, ◌||◌, ◌≡◌, ◌↔◌, refl, ap, sym, ◌∙◌, String, Option, none, some,
  List, [], ◌∷◌, map, length, filter_by, if◌then◌else◌, str_eq, eq_iff, is_some, is_some_and,
  Bool-cases, inl, inr, arith,
}
use text.Mathlib.Text.{is_lt}
use Prim.Native.String.{compare}
use dragon_shift.BTreeMap.{Key, BTreeMap, string_key, get, contains_key, insert, remove, values}

-- A session's code and a player's id.
abbrev pub PlayerKey : Type 0
PlayerKey = String × String

abbrev pub key_eq : PlayerKey → PlayerKey → Bool
key_eq (a, b) (c, d) = str_eq a c && str_eq b d

pub key_eq_iff : (j k : PlayerKey) → (key_eq j k ≡ true) ↔ (j ≡ k)
key_eq_iff (a, b) (c, d) =
    (both, λ e. each (ap (λ (k : PlayerKey). k.0) e) (ap (λ (k : PlayerKey). k.1) e))
  where
    both : (str_eq a c && str_eq b d) ≡ true → ◌≡◌ {A = PlayerKey} (a, b) (c, d)
    both h = elim (Bool-cases (str_eq a c)) [
      | inr e ↦ cc (rw e at h)
      | inl e ↦ let p = (eq_iff a c).0 e in let q = (eq_iff b d).0 (rw e at h) in λ i. (p i, q i)
    ]

    each : a ≡ c → b ≡ d → (str_eq a c && str_eq b d) ≡ true
    each p q = rw ((eq_iff a c).1 p, (eq_iff b d).1 q)

-- Pairs in the order of their parts.
instance abbrev pub player_key : Key PlayerKey
player_key = record {
  beq = key_eq;
  beq_iff = key_eq_iff;
  lt = λ j k. is_lt (compare j.0 k.0) || (str_eq j.0 k.0 && is_lt (compare j.1 k.1));
}

pub record ConnectionRegistration : Type 0 where
  pub session_code : String
  pub player_id : String
  pub connection_id : String

pub record SessionRegistry : Type 0 where
  pub connections_by_id : BTreeMap String ConnectionRegistration
  pub connection_by_session_player : BTreeMap PlayerKey String

pub record OutboundEvent (M : Type 0) : Type 0 where
  pub connection_id : String
  pub message : M

abbrev pub new : SessionRegistry
new = record { connections_by_id = []; connection_by_session_player = [] }

abbrev pub key_of : ConnectionRegistration → PlayerKey
key_of r = (r.session_code, r.player_id)

-- A connection that moves to another player leaves its old one.
abbrev pub leave_old :
    Option ConnectionRegistration
    → PlayerKey
    → BTreeMap PlayerKey String
    → BTreeMap PlayerKey String
leave_old none key m = m
leave_old (some existing) key m =
    if key_eq (key_of existing) key then m else remove (key_of existing) m

-- The connection that the player had before is dropped.
abbrev pub drop_replaced :
    Option String → BTreeMap String ConnectionRegistration → BTreeMap String ConnectionRegistration
drop_replaced none m = m
drop_replaced (some previous) m = remove previous m

-- `replaced.filter(|value| value != connection_id)`
abbrev pub other_than : String → Option String → Option String
other_than connection_id none = none
other_than connection_id (some value) = if str_eq value connection_id then none else some value

unfoldable pub attach : String → String → String → SessionRegistry → SessionRegistry × Option String
attach session_code player_id connection_id r =
    let key : PlayerKey = (session_code, player_id) in
    let left =
      leave_old (get connection_id r.connections_by_id) key r.connection_by_session_player in
    let replaced = get key left in
    (
      record {
        connections_by_id =
            insert connection_id
              (record {
                session_code = session_code;
                player_id = player_id;
                connection_id = connection_id;
              })
              (drop_replaced replaced r.connections_by_id);
        connection_by_session_player = insert key connection_id left;
      },
      other_than connection_id replaced,
    )

unfoldable pub detach : String → SessionRegistry → SessionRegistry × Option ConnectionRegistration
detach connection_id r = elim (get connection_id r.connections_by_id) [
  | none ↦ (r, none)
  | some registration ↦ (
    record {
      connections_by_id = remove connection_id r.connections_by_id;
      connection_by_session_player = remove (key_of registration) r.connection_by_session_player;
    },
    some registration,
  )
]

unfoldable pub session_registrations : String → SessionRegistry → List ConnectionRegistration
session_registrations session_code r =
    filter_by
      (λ (registration : ConnectionRegistration). str_eq registration.session_code session_code)
      (values r.connections_by_id)

unfoldable pub session_connection_count : String → SessionRegistry → ℕ
unfolding session_registrations
session_connection_count session_code r = length (session_registrations session_code r)

unfoldable pub total_connection_count : SessionRegistry → ℕ
total_connection_count r = length (values r.connections_by_id)

unfoldable pub broadcast_to_session :
    {M : Type 0} → String → M → SessionRegistry → List (OutboundEvent M)
unfolding session_registrations
broadcast_to_session session_code message r =
    map
      (λ (registration : ConnectionRegistration). record {
        connection_id = registration.connection_id;
        message = message;
      })
      (session_registrations session_code r)
