-- ===== src/Persistence/Leases/Exclusion.antt =====
-- The holder of a session's lease in the store in memory against the calls for other leases.
use dragon_shift.Common.{
  ℕ, ◌<◌, ◌≡◌, ◌≢◌, inl, inr, refl, sym, ap, ◌∙◌, Bool, true, false, String, Option, some, List, [],
  ◌∷◌, All, arith, Bool-cases, str_eq, eq_iff, if_split,
}
use dragon_shift.BTreeMap.{string_key, get}
use dragon_shift.BTreeMap.Laws.{get-insert_ne, get-remove_ne, get-update_ne}
use dragon_shift.Persistence.Leases.{
  Leases, may_acquire, acquire_session_lease, is_held_by, release_session_lease,
  renew_session_lease, LeaseCall, acquires, releases, renews, lease_of, exec, run,
}

true_ne_false : true ≡ false → ⊥
true_ne_false e = cc

-- A call for another lease, before the deadline.
abbrev pub Before : String → ℕ → ℕ × LeaseCall → Type 0
Before lease_id deadline (now, call) = (now < deadline) × (lease_of call ≢ lease_id)

module _ (parse : String → Option ℕ) (code lease_id expires_at : String) (deadline : ℕ)
    (reads : parse expires_at ≡ some deadline) where
  abbrev pub Holds : Leases → Type 0
  Holds leases = get code leases ≡ some (lease_id, expires_at)

  differ : (other : String) → other ≢ lease_id → str_eq lease_id other ≡ false
  differ other ne = elim (Bool-cases (str_eq lease_id other)) [
    | inl e ↦ absurd (ne (sym ((eq_iff lease_id other).0 e)))
    | inr e ↦ e
  ]

  refused :
      (now : ℕ) (other : String) (held : Option (String × String))
      → now < deadline
      → other ≢ lease_id
      → held ≡ some (lease_id, expires_at)
      → may_acquire parse now other held ≡ false
  refused now other held early ne e = rw (e, differ other ne, reads) (ground arith)

  pub not_held :
      (other : String) (held : Option (String × String))
      → other ≢ lease_id
      → held ≡ some (lease_id, expires_at)
      → is_held_by other held ≡ false
  not_held other held ne e = rw (e, differ other ne) refl

  acquire-Holds :
      (now : ℕ) (c other expires : String) (leases : Leases)
      → now < deadline
      → other ≢ lease_id
      → Holds leases
      → Holds (acquire_session_lease parse now c other expires leases).0
  unfolding acquire_session_lease
  acquire-Holds now c other expires leases early ne h =
      if_split (λ (r : Leases × Bool). Holds r.0) (may_acquire parse now other (get c leases))
        (λ yes.
          get-insert_ne c code (other, expires) leases
            (λ same. true_ne_false (
              sym yes
              ∙ ap (λ x. may_acquire parse now other (get x leases)) same
              ∙ refused now other (get code leases) early ne h))
          ∙ h)
        (λ no. h)

  release-Holds :
      (c other : String) (leases : Leases)
      → other ≢ lease_id
      → Holds leases
      → Holds (release_session_lease c other leases)
  unfolding release_session_lease
  release-Holds c other leases ne h =
      if_split (λ (m : Leases). Holds m) (is_held_by other (get c leases))
        (λ yes.
          get-remove_ne c code leases (λ same. true_ne_false (
            sym yes
            ∙ ap (λ x. is_held_by other (get x leases)) same
            ∙ not_held other (get code leases) ne h))
          ∙ h)
        (λ no. h)

  renew-Holds :
      (c other expires : String) (leases : Leases)
      → other ≢ lease_id
      → Holds leases
      → Holds (renew_session_lease c other expires leases).0
  unfolding renew_session_lease
  renew-Holds c other expires leases ne h =
      if_split (λ (r : Leases × Bool). Holds r.0) (is_held_by other (get c leases))
        (λ yes.
          get-update_ne c code (λ (lease : String × String). (lease.0, expires)) leases
            (λ same. true_ne_false (
              sym yes
              ∙ ap (λ x. is_held_by other (get x leases)) same
              ∙ not_held other (get code leases) ne h))
          ∙ h)
        (λ no. h)

  exec-Holds :
      (now : ℕ) (call : LeaseCall) (leases : Leases)
      → Before lease_id deadline (now, call)
      → Holds leases
      → Holds (exec parse now call leases)
  unfolding exec
  exec-Holds now (acquires c other expires) leases (early, ne) h =
      acquire-Holds now c other expires leases early ne h
  exec-Holds now (releases c other) leases (early, ne) h = release-Holds c other leases ne h
  exec-Holds now (renews c other expires) leases (early, ne) h =
      renew-Holds c other expires leases ne h

  pub run-Holds :
      (leases : Leases) (calls : List (ℕ × LeaseCall))
      → All (Before lease_id deadline) calls
      → Holds leases
      → Holds (run parse leases calls)
  unfolding run
  run-Holds leases [] before h = h
  run-Holds leases ((now, call) ∷ calls) before h =
      run-Holds (exec parse now call leases) calls before.1 (exec-Holds now call leases before.0 h)

  acquire-refused :
      (now : ℕ) (other expires : String) (leases : Leases)
      → now < deadline
      → other ≢ lease_id
      → Holds leases
      → acquire_session_lease parse now code other expires leases ≡ (leases, false)
  unfolding acquire_session_lease
  acquire-refused now other expires leases early ne h =
      rw (refused now other (get code leases) early ne h) refl

-- A lease excludes all others until it expires. Where a lease on a session is held with a readable
-- deadline, then after any calls for other leases, on this session or another, that are made before
-- the deadline, it is still held as it was, and another lease that asks for the session before the
-- deadline is refused and changes nothing.
pub lease-excludes :
    (parse : String → Option ℕ) (code lease_id expires_at : String) (deadline : ℕ) (leases : Leases)
    (calls : List (ℕ × LeaseCall)) (now : ℕ) (other expires : String)
    → parse expires_at ≡ some deadline
    → get code leases ≡ some (lease_id, expires_at)
    → All (Before lease_id deadline) calls
    → now < deadline
    → other ≢ lease_id
    → let after = run parse leases calls in
      (get code after ≡ some (lease_id, expires_at))
      × (acquire_session_lease parse now code other expires after ≡ (after, false))
lease-excludes parse code lease_id expires_at deadline leases calls now other expires reads h before
      early ne =
    let holds = run-Holds parse code lease_id expires_at deadline reads leases calls before h in
    (
      holds,
      acquire-refused parse code lease_id expires_at deadline reads now other expires
          (run parse leases calls) early ne holds,
    )
