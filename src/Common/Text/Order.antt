-- ===== src/Common/Text/Order.antt =====
-- The order of Rust's `str`, which is that of the bytes, and so of the code points.
use Prim.Native.Char.{code}
use Prim.Native.Nat.{ℕ, Ordering, compare as compare_ℕ}
use Prim.Native.String.{String, compare, then}
use Prim.Native.String.compare.{cons-nil, cons-cons}
use mathlib.Core.Path.{◌≡◌, sym, ap, ◌∙◌}
use mathlib.Core.Bool.{Bool, true, false}
use native.Mathlib.Omega.{arith}
use text.Mathlib.Text.{is_lt}
use text.Mathlib.TextPositions.{compare_refl}

abbrev pub lt : String → String → Bool
lt s t = is_lt (compare s t)

pub lt_irrefl : (s : String) → lt s s ≡ false
lt_irrefl s = ap is_lt (compare_refl s)

step_asym :
    (m n : ℕ) (x y : Ordering)
    → (is_lt x ≡ true → is_lt y ≡ false)
    → is_lt (then (compare_ℕ m n) x) ≡ true
    → is_lt (then (compare_ℕ n m) y) ≡ false
step_asym m n x y h e = ground arith

pub lt_asym : (s t : String) → lt s t ≡ true → lt t s ≡ false
lt_asym String.[] String.[] h = lt_irrefl ""
lt_asym String.[] (String.◌∷◌ d t) h = ap is_lt (cons-nil d t)
lt_asym (String.◌∷◌ c s) String.[] h = absurd (cc (sym (ap is_lt (cons-nil c s)) ∙ h))
lt_asym (String.◌∷◌ c s) (String.◌∷◌ d t) h =
    ap is_lt (cons-cons d c t s)
    ∙ step_asym (code c) (code d) (compare s t) (compare t s) (lt_asym s t)
        (sym (ap is_lt (cons-cons c d s t)) ∙ h)
