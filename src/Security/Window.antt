-- ===== src/Security/Window.antt =====
-- `FixedWindowRateLimiter` over a sequence of requests of several keys.
use dragon_shift.Common.{
  ℕ, suc, ◌+◌, ◌%◌, ◌<◌, ◌≡◌, ◌≢◌, refl, sym, ap, subst, ◌∙◌, Bool, true, false, String, some, List,
  [], ◌∷◌, All, length, if◌then◌else◌, leb, lt→ltb, is_some_and, str_eq, eq_iff, arith, Bool-cases,
  Option-cases, inl, inr, some_inj, if_split,
}
use dragon_shift.Common.I32.{range}
use dragon_shift.BTreeMap.{BTreeMap, string_key, get, insert, retain}
use dragon_shift.BTreeMap.Laws.{get-update_self, get-update_ne, get-insert_self, get-insert_ne}
use dragon_shift.Security.{
  RateLimitDecision, RateLimitBucket, FixedWindowRateLimiter, is_open, prune, counted, consume_new,
  consume,
}

-- An entry that passes the test survives `retain`.
get-retain :
    {V : Type 0} (p : V → Bool) (k : String) (m : BTreeMap String V) {v : V}
    → get k m ≡ some v
    → p v ≡ true
    → get k (retain (λ _. p) m) ≡ some v
unfolding get retain
get-retain p k [] h e = absurd cc
get-retain p k ((j, w) ∷ m) {v} h e = elim (Bool-cases (str_eq j k)) [
  | inl same ↦ let is_v : w ≡ v = some_inj (rw same at h) in rw (is_v, e, same, retain) refl
  | inr other ↦ elim (Bool-cases (p w)) [
    | inl kept ↦ rw (kept, other) (get-retain p k m (rw other at h) e)
    | inr gone ↦ rw gone (get-retain p k m (rw other at h) e)
  ]
]

get-prune :
    (now : ℕ) (k : String) (m : BTreeMap String RateLimitBucket) {b : RateLimitBucket}
    → get k m ≡ some b
    → is_open now b ≡ true
    → get k (prune now m) ≡ some b
unfolding prune
get-prune now k m {b} h e =
    if_split (λ x. get k x ≡ some b) (leb (length m) 500) (λ _. h)
      (λ _. get-retain (is_open now) k m h e)

-- What opening a window for one key leaves to the others.
consume_new_ne :
    (key other : String) (now : ℕ) (r : FixedWindowRateLimiter) {b : RateLimitBucket}
    → other ≢ key
    → get key r.buckets ≡ some b
    → is_open now b ≡ true
    → get key (consume_new other now r).0.buckets ≡ some b
unfolding consume_new
consume_new_ne key other now r ne h e =
    let made : RateLimitBucket = record { count = 1; reset_at = now + r.window_ms } in
    get-prune now key (insert other made r.buckets) (get-insert_ne other key made r.buckets ne ∙ h)
      e

-- A request of another key leaves an open bucket as it is.
consume_ne :
    (key other : String) (now : ℕ) (r : FixedWindowRateLimiter) {b : RateLimitBucket}
    → other ≢ key
    → get key r.buckets ≡ some b
    → is_open now b ≡ true
    → get key (consume other now r).0.buckets ≡ some b
unfolding consume
consume_ne key other now r {b} ne h e = elim (Option-cases (get other r.buckets)) [
  | inl absent ↦ rw (absent, consume) (consume_new_ne key other now r ne h e)
  | inr (bucket, found) ↦
      rw (found, consume)
        (if_split (λ (x : FixedWindowRateLimiter × RateLimitDecision). get key x.0.buckets ≡ some b)
          (is_open now bucket) (λ _. get-update_ne other key counted r.buckets ne ∙ h)
          (λ _. consume_new_ne key other now r ne h e))
]

-- A request of the bucket's own key counts, in an open window.
consume_self :
    (key : String) (now : ℕ) (r : FixedWindowRateLimiter) {b : RateLimitBucket}
    → get key r.buckets ≡ some b
    → is_open now b ≡ true
    → (get key (consume key now r).0.buckets ≡ some (counted b))
      × ((consume key now r).1.allowed ≡ leb (counted b).count r.max_requests)
unfolding consume
consume_self key now r h e =
    rw (h, e, consume) (get-update_self key counted r.buckets ∙ rw h refl, refl)

consume_config :
    (key : String) (now : ℕ) (r : FixedWindowRateLimiter)
    → ((consume key now r).0.max_requests ≡ r.max_requests)
unfolding consume consume_new
consume_config key now r = elim (Option-cases (get key r.buckets)) [
  | inl absent ↦ rw (absent, consume) refl
  | inr (bucket, found) ↦
      rw (found, consume)
        (if_split
          (λ (x : FixedWindowRateLimiter × RateLimitDecision). x.0.max_requests ≡ r.max_requests)
          (is_open now bucket) (λ _. refl) (λ _. refl))
]

-- A sequence of requests, each with its key and its time.
unfoldable pub consume_all : List (String × ℕ) → FixedWindowRateLimiter → FixedWindowRateLimiter
consume_all [] r = r
consume_all ((key, now) ∷ requests) r = consume_all requests (consume key now r).0

-- How many of them are of one key.
unfoldable pub requests_of : String → List (String × ℕ) → ℕ
requests_of key [] = 0
requests_of key ((other, now) ∷ requests) =
    if str_eq other key then suc (requests_of key requests) else requests_of key requests

-- All of them come before a time.
abbrev pub Before : ℕ → List (String × ℕ) → Type 0
Before end requests = All (λ (x : String × ℕ). x.1 < end) requests

abbrev bucket_of : ℕ → ℕ → RateLimitBucket
bucket_of count end = record { count = count; reset_at = end }

-- What a sequence leaves of a bucket with a given count.
abbrev Left : String → ℕ → ℕ → ℕ → FixedWindowRateLimiter → Type 0
Left key count end limit r =
    (get key r.buckets ≡ some (bucket_of count end)) × (r.max_requests ≡ limit)

-- One request of the key itself.
consume_step :
    (key : String) (now count end : ℕ) (r : FixedWindowRateLimiter)
    → get key r.buckets ≡ some (bucket_of count end)
    → count + 1 < range
    → now < end
    → get key (consume key now r).0.buckets ≡ some (bucket_of (count + 1) end)
consume_step key now count end r h small lt =
    let exact : (count + 1) % range ≡ count + 1 = omega arith in
    (consume_self key now r h (lt→ltb now end lt)).0 ∙ ap (λ c. some (bucket_of c end)) exact

consume_all-Left :
    (key : String) (requests : List (String × ℕ)) (r : FixedWindowRateLimiter) (count end : ℕ)
    → get key r.buckets ≡ some (bucket_of count end)
    → count + requests_of key requests < range
    → Before end requests
    → Left key (count + requests_of key requests) end r.max_requests (consume_all requests r)
unfolding consume_all requests_of
consume_all-Left key [] r count end h small before =
    let same : count ≡ count + 0 = omega arith in (h ∙ ap (λ c. some (bucket_of c end)) same, refl)
consume_all-Left key ((other, now) ∷ requests) r count end h small before =
    let limit = consume_config other now r in
    elim (Bool-cases (str_eq other key)) [
      | inl same ↦
          let o : key ≡ other = sym ((eq_iff other key).0 same) in
          let fits : (count + 1) + requests_of key requests < range = ground (arith, small, same) in
          let one : get key (consume other now r).0.buckets ≡ some (bucket_of (count + 1) end) =
            subst (λ k. get key (consume k now r).0.buckets ≡ some (bucket_of (count + 1) end)) o
              (consume_step key now count end r h (omega arith) before.0) in
          let (found, kept) =
            consume_all-Left key requests (consume other now r).0 (count + 1) end one fits
              before.1 in
          let sum : (count + 1) + requests_of key requests
              ≡ count + suc (requests_of key requests) =
            omega arith in
          rw same (found ∙ ap (λ c. some (bucket_of c end)) sum, kept ∙ limit)
      | inr ne ↦
          let o : other ≢ key = λ e. cc ((eq_iff other key).1 e, ne) in
          let one = consume_ne key other now r o h (lt→ltb now end before.0) in
          let (found, kept) =
            consume_all-Left key requests (consume other now r).0 count end one (rw ne at small)
              before.1 in
          rw ne (found, kept ∙ limit)
    ]

consume_new_self :
    (key : String) (start : ℕ) (r : FixedWindowRateLimiter)
    → 0 < r.window_ms
    → get key (consume_new key start r).0.buckets ≡ some (bucket_of 1 (start + r.window_ms))
unfolding consume_new
consume_new_self key start r positive =
    let made = bucket_of 1 (start + r.window_ms) in
    get-prune start key (insert key made r.buckets) (get-insert_self key made r.buckets)
      (lt→ltb start (start + r.window_ms) (omega arith))

-- What the request that opens a window leaves.
consume_first :
    (key : String) (start : ℕ) (r : FixedWindowRateLimiter)
    → is_some_and (get key r.buckets) (is_open start) ≡ false
    → 0 < r.window_ms
    → get key (consume key start r).0.buckets ≡ some (bucket_of 1 (start + r.window_ms))
unfolding consume
consume_first key start r closed positive = elim (Option-cases (get key r.buckets)) [
  | inl absent ↦ rw (absent, consume) (consume_new_self key start r positive)
  | inr (bucket, found) ↦
      let shut : is_open start bucket ≡ false = rw found at closed in
      rw (found, shut, consume) (consume_new_self key start r positive)
]

-- Where windows are longer than 0, a request of a key that finds no open window of that key opens
-- one. Then, whatever fewer than
-- 2^32 - 2 requests of it and however many of other keys follow, all before the window's end, a
-- further request of it before that end is allowed exactly if these are at most `max_requests`
-- together, the first and the further one among them.
pub consume_window :
    (key : String) (start now : ℕ) (requests : List (String × ℕ)) (r : FixedWindowRateLimiter)
    → is_some_and (get key r.buckets) (is_open start) ≡ false
    → 0 < r.window_ms
    → requests_of key requests + 2 < range
    → Before (start + r.window_ms) requests
    → now < start + r.window_ms
    → (consume key now (consume_all requests (consume key start r).0)).1.allowed
      ≡ leb (requests_of key requests + 2) r.max_requests
consume_window key start now requests r closed positive small before lt =
    let end = start + r.window_ms in
    let (found, kept) =
      consume_all-Left key requests (consume key start r).0 1 end
        (consume_first key start r closed positive) (omega arith) before in
    let exact : (1 + requests_of key requests + 1) % range ≡ requests_of key requests + 2 =
      omega arith in
    (consume_self key now (consume_all requests (consume key start r).0) found
      (lt→ltb now end lt)).1
    ∙ ap (λ c. leb c (consume_all requests (consume key start r).0).max_requests) exact
    ∙ ap (λ m. leb (requests_of key requests + 2) m) (kept ∙ consume_config key start r)
