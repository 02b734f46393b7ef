-- ===== src/Session/Host/Election.antt =====
-- What `ensure_host_assigned` leaves behind: the host that it returns, seated and flagged.
use dragon_shift.Common.{
  ◌≡◌, refl, ap, subst, ◌∙◌, inl, inr, Bool, true, ◌&&◌, String, Option, none, some, [], ◌∷◌,
  if◌then◌else◌, Bool-cases, Option-cases, some_inj, if_split, is_some,
}
use dragon_shift.BTreeMap.{BTreeMap, string_key, get, map_values}
use dragon_shift.BTreeMap.Distinct.{Distinct, Distinct-map_values, find_map_found}
use dragon_shift.Session.{SessionPlayer, WorkshopSession}
use dragon_shift.Session.Host.{
  zip_eq, account_of, flagged, reconcile_host_flags, seat, assign_reserved_host_to_player, eligible,
  find_account, elect, staying_host, keep_or_elect, takes_seat, waits_for_owner, ensure_owner,
  find_reserved, ensure_reserved, ensure_host_assigned,
}

-- `t` is `s` with the host `r` and its flags set again.
pub record Reseated (s t : WorkshopSession) (r : Option String) : Type 0 where
  pub host : t.host_player_id ≡ r
  pub players : t.players ≡ map_values (flagged r) s.players
  pub dragons : t.dragons ≡ s.dragons
  pub voting : t.voting ≡ s.voting
  pub phase : t.phase ≡ s.phase
  pub time : t.time ≡ s.time
  pub owner : t.owner_account_id ≡ s.owner_account_id

-- The flags of a host overwrite those of another.
map_values-flagged :
    (a b : Option String) (m : BTreeMap String SessionPlayer)
    → map_values (flagged a) (map_values (flagged b) m) ≡ map_values (flagged a) m
unfolding map_values
map_values-flagged a b [] = refl
map_values-flagged a b ((k, p) ∷ m) = ap (λ r. (k, flagged a p) ∷ r) (map_values-flagged a b m)

pub seat-Reseated : (r : Option String) (s : WorkshopSession) → Reseated s (seat r s) r
unfolding reconcile_host_flags
seat-Reseated r s = record {
  host = refl;
  players = refl;
  dragons = refl;
  voting = refl;
  phase = refl;
  time = refl;
  owner = refl;
}

-- Seating twice is seating once.
Reseated-seat :
    (r : Option String) (s t : WorkshopSession) (q : Option String)
    → Reseated (seat q s) t r
    → Reseated s t r
unfolding reconcile_host_flags
Reseated-seat r s t q h = record {
  host = h.host;
  players = h.players ∙ map_values-flagged r q s.players;
  dragons = h.dragons;
  voting = h.voting;
  phase = h.phase;
  time = h.time;
  owner = h.owner;
}

pub assign-Reseated :
    (id : String) (s : WorkshopSession)
    → zip_eq (account_of s.players id) s.reserved_host_account_id ≡ true
    → Reseated s (assign_reserved_host_to_player id s).0 (some id)
unfolding assign_reserved_host_to_player reconcile_host_flags
assign-Reseated id s e = rw e (record {
  host = refl;
  players = refl;
  dragons = refl;
  voting = refl;
  phase = refl;
  time = refl;
  owner = refl;
})

-- A session and a host, as the methods return them.
abbrev ReseatedPair : WorkshopSession → WorkshopSession × Option String → Type 0
ReseatedPair s r = Reseated s r.0 r.1

account_hit :
    (prefer : Bool) (account : Option String) (k : String) (p : SessionPlayer) {id : String}
    → (if zip_eq p.account_id account && eligible prefer p then some k else none) ≡ some id
    → (k ≡ id) × (zip_eq p.account_id account ≡ true) × (eligible prefer p ≡ true)
account_hit prefer account k p h = elim (Bool-cases (zip_eq p.account_id account)) [
  | inr e ↦ cc (rw e at h)
  | inl e ↦ elim (Bool-cases (eligible prefer p)) [
    | inr f ↦ cc (rw (e, f) at h)
    | inl f ↦ (some_inj (rw (e, f) at h), e, f)
  ]
]

-- The player that a search by account finds.
pub find_account_found :
    (prefer : Bool) (account : Option String) (players : BTreeMap String SessionPlayer)
    {id : String}
    → Distinct players
    → find_account prefer account players ≡ some id
    → (p : SessionPlayer) × (get id players ≡ some p)
      × (zip_eq p.account_id account ≡ true)
      × (eligible prefer p ≡ true)
unfolding find_account
find_account_found prefer account players d h =
    let (k, p, found, hit) = find_map_found _ players d h in
    let (same, owns, test) = account_hit prefer account k p hit in
    (p, subst (λ x. get x players ≡ some p) same found, owns, test)

account_found :
    (prefer : Bool) (account : Option String) (players : BTreeMap String SessionPlayer)
    {id : String}
    → Distinct players
    → find_account prefer account players ≡ some id
    → zip_eq (account_of players id) account ≡ true
account_found prefer account players d h =
    let (p, found, owns, test) = find_account_found prefer account players d h in rw found owns

-- The host that stays is the old one.
pub staying_host_lem :
    (prefer : Bool) (s : WorkshopSession) {id : String}
    → staying_host prefer s ≡ some id
    → (s.host_player_id ≡ some id)
      × ((p : SessionPlayer) × (get id s.players ≡ some p) × (eligible prefer p ≡ true))
unfolding staying_host
staying_host_lem prefer s h = elim (Option-cases s.host_player_id) [
  | inl e ↦ cc (rw e at h)
  | inr (host, e) ↦ elim (Option-cases (get host s.players)) [
    | inl f ↦ cc (rw (e, f) at h)
    | inr (p, f) ↦ elim (Bool-cases (eligible prefer p)) [
      | inr g ↦ cc (rw (e, f, g) at h)
      | inl g ↦
          let same = some_inj (rw (e, f, g) at h) in
          (e ∙ ap some same, (p, subst (λ x. get x s.players ≡ some p) same f, g))
    ]
  ]
]

keep_or_elect-Reseated :
    (prefer : Bool) (s : WorkshopSession) → ReseatedPair s (keep_or_elect prefer s)
unfolding keep_or_elect elect reconcile_host_flags
keep_or_elect-Reseated prefer s = elim (Option-cases (staying_host prefer s)) [
  | inl e ↦ rw (e, keep_or_elect) (seat-Reseated _ s)
  | inr (id, e) ↦
      rw (e, keep_or_elect)
        (record {
          host = (staying_host_lem prefer s e).0;
          players = refl;
          dragons = refl;
          voting = refl;
          phase = refl;
          time = refl;
          owner = refl;
        })
]

ensure_owner-Reseated :
    (prefer : Bool) (owner : Option String) (s : WorkshopSession)
    → ReseatedPair s (ensure_owner prefer owner s)
unfolding ensure_owner
ensure_owner-Reseated prefer none s = keep_or_elect-Reseated prefer s
ensure_owner-Reseated prefer (some owner) s =
    if_split (ReseatedPair s) (takes_seat prefer owner s) {x = (seat owner_host s, owner_host)}
      {y = if waits_for_owner owner s then (seat none s, none) else keep_or_elect prefer s}
      (λ _. seat-Reseated owner_host s)
      (λ _.
        if_split (ReseatedPair s) (waits_for_owner owner s) {x = (seat none s, none)}
          (λ _. seat-Reseated none s) (λ _. keep_or_elect-Reseated prefer s))
  where
    owner_host : Option String
    owner_host = find_account prefer (some owner) s.players

find_reserved-Reseated :
    (prefer : Bool) (s : WorkshopSession)
    → Distinct s.players
    → ReseatedPair s (find_reserved prefer s)
unfolding find_reserved
find_reserved-Reseated prefer s d =
    elim (Option-cases (find_account prefer s.reserved_host_account_id s.players)) [
      | inl e ↦ rw (e, find_reserved) (seat-Reseated none s)
      | inr (id, e) ↦
          rw (e, find_reserved)
            (assign-Reseated id s (account_found prefer s.reserved_host_account_id s.players d e))
    ]

ensure_reserved-Reseated :
    (prefer : Bool) (host : Option String) (s : WorkshopSession)
    → Distinct s.players
    → ReseatedPair s (ensure_reserved prefer host s)
unfolding ensure_reserved
ensure_reserved-Reseated prefer none s d = find_reserved-Reseated prefer s d
ensure_reserved-Reseated prefer (some id) s d =
    if_split (ReseatedPair s) (zip_eq (account_of s.players id) s.reserved_host_account_id)
      {x = ((assign_reserved_host_to_player id s).0, some id)} (λ same. assign-Reseated id s same)
      (λ _. Reseated-seat _ s _ none (
        find_reserved-Reseated prefer (seat none s)
          (unfold reconcile_host_flags in Distinct-map_values _ s.players d)))

pub ensure_host_assigned-Reseated :
    (prefer : Bool) (s : WorkshopSession)
    → Distinct s.players
    → Reseated s (ensure_host_assigned prefer s).0 (ensure_host_assigned prefer s).1
unfolding ensure_host_assigned
ensure_host_assigned-Reseated prefer s d =
    if_split (ReseatedPair s) (is_some s.reserved_host_account_id)
      (λ _. ensure_reserved-Reseated prefer s.host_player_id s d)
      (λ _. ensure_owner-Reseated prefer s.owner_account_id s)
