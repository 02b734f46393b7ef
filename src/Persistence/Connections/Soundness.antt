-- ===== src/Persistence/Connections/Soundness.antt =====
-- How the three maps of the registered connections belong together, and what `register` makes of
-- them.
use dragon_shift.Common.{
  ℕ, ◌≡◌, ◌≢◌, inl, inr, refl, sym, ap, ◌∙◌, subst, false, String, Option, none, some, some_inj,
  List, [], ◌∷◌, Bool-cases, str_eq, eq_iff,
}
use dragon_shift.BTreeMap.{BTreeMap, string_key, get, insert, remove}
use dragon_shift.BTreeMap.Laws.{get-insert_self, get-insert_ne, get-remove_ne}
use dragon_shift.BTreeMap.Inversion.{get-remove-some, get-insert-some}
use dragon_shift.Realtime.{
  PlayerKey, player_key, ConnectionRegistration, SessionRegistry, leave_old, drop_replaced, attach,
}
use dragon_shift.Realtime.Links.{IsLinked, attach-IsLinked, detach_found-IsLinked}
use dragon_shift.Persistence.Connections.{
  RealtimeConnectionRegistration, Entry, Connections, player_of, forget_found, forget_all,
  prune_stale, leave_player, drop_previous, registration_of, replaced_by, retire, register,
}

-- An entry as the registry of one replica would have it.
abbrev pub connection : Entry → ConnectionRegistration
connection e = record {
  session_code = e.0.session_code;
  player_id = e.0.player_id;
  connection_id = e.0.connection_id;
}

abbrev pub connected : Option Entry → Option ConnectionRegistration
connected none = none
connected (some e) = some (connection e)

unfoldable pub viewed : BTreeMap String Entry → BTreeMap String ConnectionRegistration
viewed [] = []
viewed ((id, e) ∷ m) = (id, connection e) ∷ viewed m

abbrev pub links : Connections → SessionRegistry
links s = record {
  connections_by_id = viewed s.by_id;
  connection_by_session_player = s.by_session_player;
}

-- The two maps of the connections are linked, and no connection is registered and retired.
pub record IsSound (s : Connections) : Type 0 where
  pub linked : IsLinked (links s)
  pub unretired : (c : String) (e : Entry) → get c s.by_id ≡ some e → get c s.retired ≡ none

pub get-viewed : (c : String) (m : BTreeMap String Entry) → get c (viewed m) ≡ connected (get c m)
unfolding viewed get
get-viewed c [] = refl
get-viewed c ((id, e) ∷ m) = elim (Bool-cases (str_eq id c)) [
  | inl hit ↦ rw hit refl
  | inr miss ↦ rw miss (get-viewed c m)
]

viewed-remove :
    (id : String) (m : BTreeMap String Entry) → viewed (remove id m) ≡ remove id (viewed m)
unfolding viewed remove
viewed-remove id [] = refl
viewed-remove id ((j, e) ∷ m) = elim (Bool-cases (str_eq j id)) [
  | inl hit ↦ rw (hit, viewed, remove) (viewed-remove id m)
  | inr miss ↦ rw (miss, viewed, remove) (ap (λ t. (j, connection e) ∷ t) (viewed-remove id m))
]

-- Being linked is a matter of lookups.
IsLinked-same :
    (m n : BTreeMap String ConnectionRegistration) (players : BTreeMap PlayerKey String)
    → ((c : String) → get c m ≡ get c n)
    → IsLinked (record { connections_by_id = m; connection_by_session_player = players })
    → IsLinked (record { connections_by_id = n; connection_by_session_player = players })
IsLinked-same m n players same v = record {
  forth = λ c g h. v.forth c g (same c ∙ h);
  back = λ k c h. let (g, found, of_k) = v.back k c h in (g, sym (same c) ∙ found, of_k);
}

pub forget_entry-IsSound :
    (id : String) (e : Entry) (s : Connections)
    → IsSound s
    → get id s.by_id ≡ some e
    → IsSound (forget_found id (some e) s)
forget_entry-IsSound id e s v found = record {
  linked =
      subst
        (λ m. IsLinked (record {
          connections_by_id = m;
          connection_by_session_player = remove (player_of e.0) s.by_session_player;
        }))
        (sym (viewed-remove id s.by_id))
        (detach_found-IsLinked id (connection e) (links s) v.linked
          (get-viewed id s.by_id ∙ ap connected found));
  unretired = λ c x h. v.unretired c x (get-remove-some id c s.by_id h).1;
}

forget_found-IsSound :
    (id : String) (o : Option Entry) (s : Connections)
    → IsSound s
    → get id s.by_id ≡ o
    → IsSound (forget_found id o s)
forget_found-IsSound id none s v found = v
forget_found-IsSound id (some e) s v found = forget_entry-IsSound id e s v found

forget_all-IsSound : (ids : List String) (s : Connections) → IsSound s → IsSound (forget_all ids s)
unfolding forget_all
forget_all-IsSound [] s v = v
forget_all-IsSound (id ∷ ids) s v =
    forget_all-IsSound ids (forget_found id (get id s.by_id) s)
      (forget_found-IsSound id (get id s.by_id) s v refl)

pub prune_stale-IsSound : (now : ℕ) (s : Connections) → IsSound s → IsSound (prune_stale now s)
unfolding prune_stale
prune_stale-IsSound now s v = forget_all-IsSound _ s v

leave_player-viewed :
    (o : Option Entry) (key : PlayerKey) (m : BTreeMap PlayerKey String)
    → leave_player o key m ≡ leave_old (connected o) key m
leave_player-viewed none key m = refl
leave_player-viewed (some e) key m = refl

drop_previous-viewed :
    (o : Option String) (id c : String) (m : BTreeMap String Entry)
    → id ≢ c
    → get c (viewed (drop_previous o id m)) ≡ get c (drop_replaced o (viewed m))
drop_previous-viewed none id c m ne = refl
drop_previous-viewed (some p) id c m ne = elim (Bool-cases (str_eq p id)) [
  | inl e ↦ rw e (sym (get-remove_ne p c (viewed m) (λ q. ne (sym ((eq_iff p id).0 e) ∙ q))))
  | inr e ↦ rw e (ap (λ t. get c t) (viewed-remove p m))
]

module _ (now : ℕ) (r : RealtimeConnectionRegistration) (s : Connections) (v : IsSound s) where
  abbrev id : String
  id = r.connection_id

  abbrev left : BTreeMap PlayerKey String
  left = leave_player (get id s.by_id) (player_of r) s.by_session_player

  left-viewed : left ≡ leave_old (get id (viewed s.by_id)) (player_of r) s.by_session_player
  left-viewed =
      leave_player-viewed (get id s.by_id) (player_of r) s.by_session_player
      ∙ ap (λ o. leave_old o (player_of r) s.by_session_player) (sym (get-viewed id s.by_id))

  same_lookups :
      (o : Option String) (c : String)
      → get c (insert id (connection (r, now)) (drop_replaced o (viewed s.by_id)))
        ≡ get c (viewed (insert id (r, now) (drop_previous o id s.by_id)))
  same_lookups o c = elim (Bool-cases (str_eq id c)) [
    | inl e ↦
        subst
          (λ x.
            get x (insert id (connection (r, now)) (drop_replaced o (viewed s.by_id)))
            ≡ get x (viewed (insert id (r, now) (drop_previous o id s.by_id))))
          ((eq_iff id c).0 e)
          (get-insert_self id (connection (r, now)) (drop_replaced o (viewed s.by_id))
            ∙ sym (
                get-viewed id (insert id (r, now) (drop_previous o id s.by_id))
                ∙ ap connected (get-insert_self id (r, now) (drop_previous o id s.by_id))))
    | inr e ↦
        let ne : id ≢ c = λ q. cc ((eq_iff id c).1 q, e) in
        get-insert_ne id c (connection (r, now)) (drop_replaced o (viewed s.by_id)) ne
        ∙ sym (
            get-viewed c (insert id (r, now) (drop_previous o id s.by_id))
            ∙ ap connected (get-insert_ne id c (r, now) (drop_previous o id s.by_id) ne)
            ∙ sym (get-viewed c (drop_previous o id s.by_id))
            ∙ drop_previous-viewed o id c s.by_id ne)
  ]

  register-IsLinked : IsLinked (links (register now r s).0)
  unfolding register
  register-IsLinked =
      IsLinked-same _ _ (insert (player_of r) id left) (same_lookups (get (player_of r) left)) (
        subst
          (λ l. IsLinked (record {
            connections_by_id =
                insert id (connection (r, now))
                  (drop_replaced (get (player_of r) l) (viewed s.by_id));
            connection_by_session_player = insert (player_of r) id l;
          }))
          (sym left-viewed)
          (unfold attach in attach-IsLinked r.session_code r.player_id id (links s) v.linked))

  -- The connection that is retired is not `c`.
  retire-none :
      (c p : String) (found : Option Entry)
      → get p s.by_id ≡ found
      → p ≢ c
      → get c s.retired ≡ none
      → get c (retire (registration_of found) s.retired) ≡ none
  retire-none c p none at ne h = h
  retire-none c p (some e) at ne h =
      let named = (v.linked.forth p (connection e) (get-viewed p s.by_id ∙ ap connected at)).0 in
      get-insert_ne e.0.connection_id c e.0.replica_id s.retired (λ q. ne (sym named ∙ q)) ∙ h

  replaced-none :
      (c : String) (o : Option String)
      → get c s.retired ≡ none
      → ((p : String) → o ≡ some p → str_eq p id ≡ false → p ≢ c)
      → get c (retire (replaced_by o id s.by_id) s.retired) ≡ none
  replaced-none c none h other = h
  replaced-none c (some p) h other = elim (Bool-cases (str_eq p id)) [
    | inl e ↦ rw e h
    | inr e ↦ rw e (retire-none c p (get p s.by_id) refl (other p refl e) h)
  ]

  dropped-some :
      (c : String) (o : Option String) (e : Entry)
      → get c (drop_previous o id s.by_id) ≡ some e
      → (get c s.by_id ≡ some e) × ((p : String) → o ≡ some p → str_eq p id ≡ false → p ≢ c)
  dropped-some c none e h = (h, λ p q differs. absurd cc)
  dropped-some c (some x) e h = elim (Bool-cases (str_eq x id)) [
    | inl hit ↦ (rw hit at h, λ p q differs. cc (hit, differs, some_inj q))
    | inr miss ↦
        let (ne, found) = get-remove-some x c s.by_id (rw miss at h) in
        (found, λ p q differs same. ne (some_inj q ∙ same))
  ]

  register-unretired :
      (c : String) (e : Entry)
      → get id s.retired ≡ none
      → get c (register now r s).0.by_id ≡ some e
      → get c (register now r s).0.retired ≡ none
  unfolding register
  register-unretired c e fresh h =
      let previous = get (player_of r) left in
      elim (get-insert-some id c (r, now) (drop_previous previous id s.by_id) h) [
        | inl (same, is_new) ↦
            replaced-none c previous (ap (λ x. get x s.retired) (sym same) ∙ fresh)
              (λ p q differs q2. cc ((eq_iff p id).1 (q2 ∙ sym same), differs))
        | inr (ne, kept) ↦
            let (found, other) = dropped-some c previous e kept in
            replaced-none c previous (v.unretired c e found) other
      ]

  pub register-IsSound : get id s.retired ≡ none → IsSound (register now r s).0
  register-IsSound fresh = record {
    linked = register-IsLinked;
    unretired = λ c e h. register-unretired c e fresh h;
  }
