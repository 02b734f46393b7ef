-- ===== src/Security.antt =====
-- platform/crates/security/src/lib.rs, what guards the server's door: the fixed window rate limiter
-- and the policy on origins.
pub mod Window
use dragon_shift.Common.{
  ℕ, ◌+◌, ◌-◌, ◌%◌, ◌≡◌, Bool, true, false, not, ◌&&◌, ◌||◌, String, Option, none, some, List, [],
  ◌∷◌, length, any, if◌then◌else◌, ltb, leb, str_eq,
}
use dragon_shift.Common.I32.{range}
use dragon_shift.BTreeMap.{BTreeMap, string_key, get, insert, update, retain}

pub record OriginPolicy : Type 0 where
  pub allow_any_origin : Bool
  pub is_production : Bool
  pub require_origin : Bool
  pub allowed_origins : List String

pub record RateLimitDecision : Type 0 where
  pub allowed : Bool
  pub retry_after_ms : ℕ
  pub remaining : ℕ

pub record RateLimitBucket : Type 0 where
  pub count : ℕ
  pub reset_at : ℕ

pub record FixedWindowRateLimiter : Type 0 where
  pub max_requests : ℕ
  pub window_ms : ℕ
  pub buckets : BTreeMap String RateLimitBucket

abbrev pub new : ℕ → ℕ → FixedWindowRateLimiter
new max_requests window_ms = record {
  max_requests = max_requests;
  window_ms = window_ms;
  buckets = [];
}

-- A bucket whose window is still open.
abbrev pub is_open : ℕ → RateLimitBucket → Bool
is_open now_ms bucket = ltb now_ms bucket.reset_at

unfoldable pub prune : ℕ → BTreeMap String RateLimitBucket → BTreeMap String RateLimitBucket
prune now_ms buckets =
    if leb (length buckets) 500 then buckets else retain (λ _. is_open now_ms) buckets

-- `bucket.count += 1` on a u32 whose overflow wraps.
abbrev pub counted : RateLimitBucket → RateLimitBucket
counted bucket = record bucket { count = (bucket.count + 1) % range }

-- `consume` in a window that is open.
abbrev pub consume_open :
    String
    → ℕ
    → RateLimitBucket
    → FixedWindowRateLimiter
    → FixedWindowRateLimiter × RateLimitDecision
consume_open key now_ms bucket r =
    let count = (counted bucket).count in
    (
      record r { buckets = update key counted r.buckets },
      record {
        allowed = leb count r.max_requests;
        retry_after_ms = bucket.reset_at - now_ms;
        remaining = r.max_requests - count;
      },
    )

-- `consume` that opens a window; its end is reckoned without wrapping.
unfoldable pub consume_new :
    String → ℕ → FixedWindowRateLimiter → FixedWindowRateLimiter × RateLimitDecision
unfolding prune
consume_new key now_ms r =
    let bucket : RateLimitBucket = record { count = 1; reset_at = now_ms + r.window_ms } in
    (
      record r { buckets = prune now_ms (insert key bucket r.buckets) },
      record { allowed = true; retry_after_ms = 0; remaining = r.max_requests - 1 },
    )

unfoldable pub consume :
    String → ℕ → FixedWindowRateLimiter → FixedWindowRateLimiter × RateLimitDecision
consume key now_ms r = elim (get key r.buckets) [
  | none ↦ consume_new key now_ms r
  | some bucket ↦
      if is_open now_ms bucket then consume_open key now_ms bucket r else consume_new key now_ms r
]

-- `normalize_origin` and the host that `Url::parse` reads are the url crate's.
module _ (normalize_origin : String → Option String)
    (host_of : String → Option (Option String)) where
  abbrev pub is_local : Option String → Bool
  is_local none = false
  is_local (some host) = str_eq host "localhost" || (str_eq host "127.0.0.1" || str_eq host "[::1]")

  unfoldable pub is_origin_allowed : Option String → OriginPolicy → Bool
  is_origin_allowed none policy = not policy.require_origin
  is_origin_allowed (some origin) policy = elim (normalize_origin origin) [
    | none ↦ false
    | some normalized ↦
        if policy.allow_any_origin
        then true
        else if any (λ o. str_eq o normalized) policy.allowed_origins
        then true
        else elim (host_of normalized) [
          | none ↦ false
          | some host ↦ not policy.is_production && is_local host
        ]
  ]
