-- ===== src/Realtime/Links.antt =====
-- How the two maps of `SessionRegistry` belong together.
use dragon_shift.Common.{
  ◌≡◌, ◌≢◌, refl, sym, ap, subst, ◌∙◌, String, Option, none, some, some_inj, Bool-cases,
  Option-cases, inl, inr,
}
use dragon_shift.BTreeMap.{BTreeMap, string_key, get, insert, remove}
use dragon_shift.BTreeMap.Laws.{get-insert_self, get-insert_ne, get-remove_ne}
use dragon_shift.BTreeMap.Inversion.{get-remove-some, get-insert-some}
use dragon_shift.Realtime.{
  PlayerKey, key_eq, key_eq_iff, player_key, ConnectionRegistration, SessionRegistry, new, key_of,
  leave_old, drop_replaced, attach, detach,
}

-- Each connection is the one of its player, and each player's connection is registered for them.
pub record IsLinked (r : SessionRegistry) : Type 0 where
  pub forth :
      (c : String) (g : ConnectionRegistration)
      → get c r.connections_by_id ≡ some g
      → (g.connection_id ≡ c) × (get (key_of g) r.connection_by_session_player ≡ some c)
  pub back :
      (k : PlayerKey) (c : String)
      → get k r.connection_by_session_player ≡ some c
      → (g : ConnectionRegistration) × (get c r.connections_by_id ≡ some g) × (key_of g ≡ k)

pub new-IsLinked : IsLinked new
new-IsLinked = record {
  forth = λ c g h. unfold get in cc h;
  back = λ k c h. absurd (unfold get in cc h);
}

-- What is left after a move: only the key that was left is missing.
leave_old-some :
    (o : Option ConnectionRegistration) (key k : PlayerKey) (m : BTreeMap PlayerKey String)
    {c : String}
    → get k (leave_old o key m) ≡ some c
    → get k m ≡ some c
leave_old-some none key k m h = h
leave_old-some (some g) key k m h = elim (Bool-cases (key_eq (key_of g) key)) [
  | inl e ↦ rw e at h
  | inr e ↦ (get-remove-some (key_of g) k m (rw e at h)).1
]

-- A key of the connection itself is missing, unless it is the new one.
leave_old_self :
    (g : ConnectionRegistration) (key : PlayerKey) (m : BTreeMap PlayerKey String) {c : String}
    → key_of g ≢ key
    → get (key_of g) (leave_old (some g) key m) ≡ some c
    → ⊥
leave_old_self g key m ne h = elim (Bool-cases (key_eq (key_of g) key)) [
  | inl e ↦ ne ((key_eq_iff (key_of g) key).0 e)
  | inr e ↦ (get-remove-some (key_of g) (key_of g) m (rw e at h)).0 refl
]

-- Every other key stays.
leave_old_other :
    (o : Option ConnectionRegistration) (key k : PlayerKey) (m : BTreeMap PlayerKey String)
    → ((g : ConnectionRegistration) → o ≡ some g → key_of g ≢ k)
    → get k (leave_old o key m) ≡ get k m
leave_old_other none key k m other = refl
leave_old_other (some g) key k m other = elim (Bool-cases (key_eq (key_of g) key)) [
  | inl e ↦ rw e
  | inr e ↦ rw e (get-remove_ne (key_of g) k m (other g refl))
]

drop_replaced-some :
    (o : Option String) (c : String) (m : BTreeMap String ConnectionRegistration)
    {g : ConnectionRegistration}
    → get c (drop_replaced o m) ≡ some g
    → (o ≢ some c) × (get c m ≡ some g)
drop_replaced-some none c m h = (λ e. cc, h)
drop_replaced-some (some p) c m h =
    let (ne, found) = get-remove-some p c m h in (λ e. ne (some_inj e), found)

drop_replaced_other :
    (o : Option String) (c : String) (m : BTreeMap String ConnectionRegistration)
    → o ≢ some c
    → get c (drop_replaced o m) ≡ get c m
drop_replaced_other none c m ne = refl
drop_replaced_other (some p) c m ne = get-remove_ne p c m (λ e. ne (ap some e))

module _ (session player conn : String) (r : SessionRegistry) (v : IsLinked r) where
  abbrev key : PlayerKey
  key = (session, player)

  abbrev made : ConnectionRegistration
  made = record { session_code = session; player_id = player; connection_id = conn }

  abbrev by_id : BTreeMap String ConnectionRegistration
  by_id = r.connections_by_id

  abbrev left : BTreeMap PlayerKey String
  left = leave_old (get conn by_id) key r.connection_by_session_player

  -- The key of a registration that stays is neither the new key nor the one that was left.
  forth_kept :
      (c : String) (g : ConnectionRegistration)
      → conn ≢ c
      → get key left ≢ some c
      → get c by_id ≡ some g
      → (g.connection_id ≡ c) × (get (key_of g) (insert key conn left) ≡ some c)
  forth_kept c g other kept found =
      let (named, mine) = v.forth c g found in
      let unmoved : (x : ConnectionRegistration) → get conn by_id ≡ some x → key_of x ≢ key_of g =
        λ x e same. other (
          some_inj (
            sym (v.forth conn x e).1
            ∙ ap (λ k. get k r.connection_by_session_player) same
            ∙ mine)) in
      let stays =
        leave_old_other (get conn by_id) key (key_of g) r.connection_by_session_player unmoved
        ∙ mine in
      (
        named,
        get-insert_ne key (key_of g) conn left (λ same. kept (ap (λ k. get k left) same ∙ stays))
            ∙ stays,
      )

  attach_forth :
      (c : String) (g : ConnectionRegistration)
      → get c (insert conn made (drop_replaced (get key left) by_id)) ≡ some g
      → (g.connection_id ≡ c) × (get (key_of g) (insert key conn left) ≡ some c)
  attach_forth c g h = elim (get-insert-some conn c made (drop_replaced (get key left) by_id) h) [
    | inl (same, is_made) ↦ (
      ap (λ (x : ConnectionRegistration). x.connection_id) (sym is_made) ∙ same,
      ap (λ (x : ConnectionRegistration). get (key_of x) (insert key conn left)) (sym is_made)
          ∙ get-insert_self key conn left
          ∙ ap some same,
    )
    | inr (other, found) ↦
        let (kept, before) = drop_replaced-some (get key left) c by_id found in
        forth_kept c g other kept before
  ]

  attach_back :
      (k : PlayerKey) (c : String)
      → get k (insert key conn left) ≡ some c
      → (g : ConnectionRegistration) × (get c
            (insert conn made (drop_replaced (get key left) by_id))
          ≡ some g)
        × (key_of g ≡ k)
  attach_back k c h = elim (get-insert-some key k conn left h) [
    | inl (same, is_conn) ↦ (
      made,
      ap (λ x. get x (insert conn made (drop_replaced (get key left) by_id))) (sym is_conn)
          ∙ get-insert_self conn made (drop_replaced (get key left) by_id),
      same,
    )
    | inr (other, stays) ↦
        let before = leave_old-some (get conn by_id) key k r.connection_by_session_player stays in
        let (g, found, of_k) = v.back k c before in
        let moved : conn ≢ c = λ same.
          let eg = ap (λ x. get x by_id) same ∙ found in
          leave_old_self g key r.connection_by_session_player (λ q. other (sym q ∙ of_k))
            (subst (λ x. get x (leave_old (some g) key r.connection_by_session_player) ≡ some c)
              (sym of_k)
              (subst (λ o. get k (leave_old o key r.connection_by_session_player) ≡ some c) eg
                stays)) in
        let kept : get key left ≢ some c = λ e.
          let (g2, found2, of2) =
            v.back key c
              (leave_old-some (get conn by_id) key key r.connection_by_session_player e) in
          other (sym of2 ∙ ap key_of (some_inj (sym found2 ∙ found)) ∙ of_k) in
        (
          g,
          get-insert_ne conn c made (drop_replaced (get key left) by_id) moved
              ∙ drop_replaced_other (get key left) c by_id kept
              ∙ found,
          of_k,
        )
  ]

-- If each registered connection carries its own id and is the one of its player, and each player's
-- connection is registered for them, that holds after any connection is attached for any player,
-- whether it is new, replaces another or moves.
pub attach-IsLinked :
    (session player conn : String) (r : SessionRegistry)
    → IsLinked r
    → IsLinked (attach session player conn r).0
unfolding attach
attach-IsLinked session player conn r v = record {
  forth = attach_forth session player conn r v;
  back = attach_back session player conn r v;
}

-- What `detach` does with the registration it finds.
pub detach_found-IsLinked :
    (conn : String) (g : ConnectionRegistration) (r : SessionRegistry)
    → IsLinked r
    → get conn r.connections_by_id ≡ some g
    → IsLinked (record {
      connections_by_id = remove conn r.connections_by_id;
      connection_by_session_player = remove (key_of g) r.connection_by_session_player;
    })
detach_found-IsLinked conn g r v e =
    let mine = (v.forth conn g e).1 in
    record {
      forth = λ c x h.
          let (ne, found) = get-remove-some conn c r.connections_by_id h in
          let (named, his) = v.forth c x found in
          (
            named,
            get-remove_ne (key_of g) (key_of x) r.connection_by_session_player (λ q.
                  ne (some_inj (sym mine ∙ ap (λ k. get k r.connection_by_session_player) q ∙ his)))
                ∙ his,
          );
      back = λ k c h.
          let (ne, before) = get-remove-some (key_of g) k r.connection_by_session_player h in
          let (x, found, of_k) = v.back k c before in
          (
            x,
            get-remove_ne conn c r.connections_by_id (λ q. ne (
                  ap key_of (some_inj (sym e ∙ ap (λ y. get y r.connections_by_id) q ∙ found))
                  ∙ of_k))
                ∙ found,
            of_k,
          );
    }

-- If each registered connection carries its own id and is the one of its player, and each player's
-- connection is registered for them, that holds after any connection is detached, known or not.
pub detach-IsLinked :
    (conn : String) (r : SessionRegistry) → IsLinked r → IsLinked (detach conn r).0
unfolding detach
detach-IsLinked conn r v = elim (Option-cases (get conn r.connections_by_id)) [
  | inl e ↦ rw (e, detach) v
  | inr (g, e) ↦ rw (e, detach) (detach_found-IsLinked conn g r v e)
]
