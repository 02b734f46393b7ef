-- ===== src/Persistence/Connections/Reach.antt =====
-- The registered connections under the operations of the store in memory.
use dragon_shift.Common.{
  ℕ, ◌≡◌, inl, inr, refl, sym, ap, ◌∙◌, subst, Bool, not, String, Option, none, some, List, [], ◌∷◌,
  arith, Bool-cases, Option-cases, if_split, is_some_and, str_eq, eq_iff,
}
use dragon_shift.BTreeMap.{BTreeMap, string_key, get, insert, remove, update}
use dragon_shift.BTreeMap.Laws.{get-insert_ne, get-remove_self, get-remove, get-update}
use dragon_shift.BTreeMap.Inversion.{get-remove-some}
use dragon_shift.Realtime.{player_key}
use dragon_shift.Realtime.Links.{IsLinked, new-IsLinked}
use dragon_shift.Persistence.Connections.{
  RealtimeConnectionRegistration, Entry, Connections, player_of, prune_stale, claim_pruned,
  claim_realtime_connection, Restore, has_other, restore_pruned, restore_realtime_connection,
  is_renewable, renew_realtime_connection, release_found, release_realtime_connection,
  take_retired_realtime_connection, delete_each, delete_realtime_connections_for_session,
}
use dragon_shift.Persistence.Connections.Soundness.{
  connection, connected, viewed, IsSound, get-viewed, forget_entry-IsSound, prune_stale-IsSound,
  register-IsSound,
}

-- A retired connection fewer.
remove-retired-IsSound :
    (id : String) (s : Connections)
    → IsSound s
    → IsSound (record s { retired = remove id s.retired })
remove-retired-IsSound id s v = record {
  linked = v.linked;
  unretired = λ c e h. elim (Bool-cases (str_eq id c)) [
    | inl hit ↦ rw (get-remove id c s.retired, hit) refl
    | inr miss ↦ rw (get-remove id c s.retired, miss) (v.unretired c e h)
  ];
}

claim_pruned-IsSound :
    (now : ℕ) (r : RealtimeConnectionRegistration) (s : Connections)
    → IsSound s
    → IsSound (claim_pruned now r s).0
unfolding claim_pruned
claim_pruned-IsSound now r s v = elim (Option-cases (get r.connection_id s.retired)) [
  | inl e ↦ rw (e, claim_pruned) (register-IsSound now r s v e)
  | inr (x, e) ↦ rw (e, claim_pruned) v
]

restore_pruned-IsSound :
    (now : ℕ) (r : RealtimeConnectionRegistration) (s : Connections)
    → IsSound s
    → IsSound (restore_pruned now r s).0
unfolding restore_pruned
restore_pruned-IsSound now r s v =
    if_split (λ (x : Connections × Restore). IsSound x.0)
      (has_other (get (player_of r) s.by_session_player) r.connection_id) (λ _. v)
      (λ _.
        if_split (λ (x : Connections × Restore). IsSound x.0)
          (not
            (is_some_and (get r.connection_id s.retired) (λ replica. str_eq replica r.replica_id)))
          (λ _. v)
          (λ _.
            register-IsSound now r (record s { retired = remove r.connection_id s.retired })
              (remove-retired-IsSound r.connection_id s v)
              (get-remove_self r.connection_id s.retired)))

viewed-renewed :
    (id : String) (now : ℕ) (m : BTreeMap String Entry)
    → viewed (update id (λ (e : Entry). (e.0, now)) m) ≡ viewed m
unfolding viewed update
viewed-renewed id now [] = refl
viewed-renewed id now ((j, e) ∷ m) = elim (Bool-cases (str_eq j id)) [
  | inl hit ↦ rw (hit, viewed, update) (ap (λ t. (j, connection e) ∷ t) (viewed-renewed id now m))
  | inr miss ↦ rw (miss, viewed, update) (ap (λ t. (j, connection e) ∷ t) (viewed-renewed id now m))
]

renew-IsSound :
    (now : ℕ) (id replica : String) (s : Connections)
    → IsSound s
    → IsSound (renew_realtime_connection now id replica s).0
unfolding renew_realtime_connection
renew-IsSound now id replica s v =
    if_split (λ (x : Connections × Bool). IsSound x.0) (is_renewable now replica (get id s.by_id))
      (λ _. record {
        linked =
            subst
              (λ m. IsLinked (record {
                connections_by_id = m;
                connection_by_session_player = s.by_session_player;
              }))
              (sym (viewed-renewed id now s.by_id)) v.linked;
        unretired = λ c e h. elim (Option-cases (get c s.by_id)) [
          | inl n ↦ absurd (nothing_renewed c e n h)
          | inr (x, found) ↦ v.unretired c x found
        ];
      })
      (λ _. v)
  where
    nothing_renewed :
        (c : String) (e : Entry)
        → get c s.by_id ≡ none
        → get c (update id (λ (x : Entry). (x.0, now)) s.by_id) ≡ some e
        → ⊥
    nothing_renewed c e n h =
        let absent : get c (update id (λ (x : Entry). (x.0, now)) s.by_id) ≡ none =
          ground (arith, n, get-update id c (λ (x : Entry). (x.0, now)) s.by_id) in
        cc (absent, h)

-- What a release by its own replica does with the entry it finds.
release_found-IsSound :
    (id replica : String) (o : Option Entry) (s : Connections)
    → IsSound s
    → get id s.by_id ≡ o
    → ((e : Entry) → o ≡ some e → e.0.replica_id ≡ replica)
    → IsSound (release_found id replica o s).0
release_found-IsSound id replica none s v found own = v
release_found-IsSound id replica (some e) s v found own =
    rw ((eq_iff e.0.replica_id replica).1 (own e refl)) (forget_entry-IsSound id e s v found)

take_retired-IsSound :
    (id replica : String) (s : Connections)
    → IsSound s
    → IsSound (take_retired_realtime_connection id replica s).0
unfolding take_retired_realtime_connection
take_retired-IsSound id replica s v =
    if_split (λ (x : Connections × Option RealtimeConnectionRegistration). IsSound x.0)
      (is_some_and (get id s.retired) (λ r. str_eq r replica)) (λ _. remove-retired-IsSound id s v)
      (λ _. v)

-- An entry that is removed and retired.
retired_entry-IsSound :
    (id : String) (e : Entry) (s : Connections)
    → IsSound s
    → get id s.by_id ≡ some e
    → IsSound (record {
      by_id = remove id s.by_id;
      by_session_player = remove (player_of e.0) s.by_session_player;
      retired = insert e.0.connection_id e.0.replica_id s.retired;
    })
retired_entry-IsSound id e s v found =
    let named = (v.linked.forth id (connection e) (get-viewed id s.by_id ∙ ap connected found)).0 in
    record {
      linked = (forget_entry-IsSound id e s v found).linked;
      unretired = λ c x h.
          let (ne, kept) = get-remove-some id c s.by_id h in
          get-insert_ne e.0.connection_id c e.0.replica_id s.retired (λ q. ne (sym named ∙ q))
          ∙ v.unretired c x kept;
    }

delete_each-IsSound :
    (ids : List String) (s : Connections) → IsSound s → IsSound (delete_each ids s).0
unfolding delete_each
delete_each-IsSound [] s v = v
delete_each-IsSound (id ∷ ids) s v = elim (Option-cases (get id s.by_id)) [
  | inl e ↦ rw (e, delete_each) (delete_each-IsSound ids s v)
  | inr (x, e) ↦ rw (e, delete_each) (delete_each-IsSound ids _ (retired_entry-IsSound id x s v e))
]

-- One call of the store by a replica. A connection is released by the replica that registered it,
-- if it is registered.
pub data Step (s : Connections) : Connections → Type 0 where
  claims :
      (now : ℕ) (r : RealtimeConnectionRegistration) → Step s (claim_realtime_connection now r s).0
  restores :
      (now : ℕ) (r : RealtimeConnectionRegistration)
      → Step s (restore_realtime_connection now r s).0
  renews : (now : ℕ) (id replica : String) → Step s (renew_realtime_connection now id replica s).0
  releases :
      (id replica : String)
      → ((e : Entry) → get id s.by_id ≡ some e → e.0.replica_id ≡ replica)
      → Step s (release_realtime_connection id replica s).0
  takes_retired : (id replica : String) → Step s (take_retired_realtime_connection id replica s).0
  deletes :
      (session_code : String) → Step s (delete_realtime_connections_for_session session_code s).0

abbrev pub no_connections : Connections
no_connections = record { by_id = []; by_session_player = []; retired = [] }

pub data Reachable : Connections → Type 0 where
  started : Reachable no_connections
  stepped : {s t : Connections} → Reachable s → Step s t → Reachable t

pub Step-IsSound : {s t : Connections} → Step s t → IsSound s → IsSound t
unfolding claim_realtime_connection restore_realtime_connection release_realtime_connection
    delete_realtime_connections_for_session
Step-IsSound {s} (claims now r) v =
    claim_pruned-IsSound now r (prune_stale now s) (prune_stale-IsSound now s v)
Step-IsSound {s} (restores now r) v =
    restore_pruned-IsSound now r (prune_stale now s) (prune_stale-IsSound now s v)
Step-IsSound {s} (renews now id replica) v = renew-IsSound now id replica s v
Step-IsSound {s} (releases id replica own) v =
    release_found-IsSound id replica (get id s.by_id) s v refl own
Step-IsSound {s} (takes_retired id replica) v = take_retired-IsSound id replica s v
Step-IsSound {s} (deletes code) v = delete_each-IsSound _ s v

-- However the replicas register, restore, renew, release, take and delete connections, as long as
-- each is released only by the replica that registered it: every registered connection carries its
-- own id and is the one of its player, every player's connection is registered for them, and no
-- connection is both registered and retired.
pub Reachable-IsSound : {s : Connections} → Reachable s → IsSound s
Reachable-IsSound started = record {
  linked = unfold viewed in new-IsLinked;
  unretired = λ c e h. absurd (unfold get in cc h);
}
Reachable-IsSound (stepped before step) = Step-IsSound step (Reachable-IsSound before)
