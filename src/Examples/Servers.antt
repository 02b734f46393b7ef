-- ===== src/Examples/Servers.antt =====
-- Tests of the parts around the workshops: connections, requests, clocks and the table of phases.
use dragon_shift.Common.{
  ℕ, ◌+◌, ◌-◌, ◌*◌, ◌/◌, ◌≡◌, refl, ◌<◌, ◌≤◌, arith, String, false, none, some, List, [], ◌∷◌, leb,
  is_some_and, if◌then◌else◌,
}
use dragon_shift.Common.I32.{range, half_range}
use dragon_shift.Realtime
use dragon_shift.Security
use dragon_shift.BTreeMap.{string_key, get}
use dragon_shift.Protocol.{Phase}
use dragon_shift.Realtime.{SessionRegistry, attach, detach}
use dragon_shift.Realtime.Links.{IsLinked, new-IsLinked, attach-IsLinked, detach-IsLinked}
use dragon_shift.Security.{FixedWindowRateLimiter, consume, is_open}
use dragon_shift.Security.Window.{Before, requests_of, consume_all, consume_window}
use dragon_shift.Session.{WorkshopSession, new}
use dragon_shift.Session.Clock.{phase_duration_minutes, remaining_phase_seconds}
use dragon_shift.Session.Clock.Remaining.{longest_minutes, remaining_exact}
use dragon_shift.Examples.{fresh}

abbrev one_link : SessionRegistry
one_link = (attach "123456" "ann" "socket-1" Realtime.new).0

one_link-IsLinked : IsLinked one_link
one_link-IsLinked = attach-IsLinked "123456" "ann" "socket-1" Realtime.new new-IsLinked

-- The socket moves to another player.
attach-IsLinked_example : IsLinked (attach "123456" "bob" "socket-1" one_link).0
attach-IsLinked_example = attach-IsLinked "123456" "bob" "socket-1" one_link one_link-IsLinked

detach-IsLinked_example : IsLinked (detach "socket-1" one_link).0
detach-IsLinked_example = detach-IsLinked "socket-1" one_link one_link-IsLinked

abbrev limiter : FixedWindowRateLimiter
limiter = Security.new 2 1000

abbrev requests : List (String × ℕ)
requests = ("ann", 10) ∷ ("bob", 20) ∷ []

no_window : is_some_and (get "ann" limiter.buckets) (is_open 5) ≡ false
unfolding get
no_window = refl

few : requests_of "ann" requests + 2 < range
unfolding requests_of
few = omega arith

in_window : Before (5 + limiter.window_ms) requests
in_window = (omega arith, (omega arith, tt))

consume_window_example :
    (consume "ann" 30 (consume_all requests (consume "ann" 5 limiter).0)).1.allowed
    ≡ leb (requests_of "ann" requests + 2) 2
consume_window_example =
    consume_window "ann" 5 30 requests limiter no_window (omega arith) few in_window (omega arith)

-- A workshop in the middle of Phase 1.
abbrev midway : WorkshopSession
midway = record fresh { phase = Phase.phase1; phase_started_at = 5000000000 }

short : phase_duration_minutes midway.config midway.phase ≤ longest_minutes
unfolding phase_duration_minutes new
short = omega arith

recent : (65000000000 - midway.phase_started_at) / 1000000000 < half_range
unfolding new
recent = omega arith

remaining_exact_example : remaining_phase_seconds 65000000000 midway ≡ (
    if leb (phase_duration_minutes midway.config midway.phase) 0
    then none
    else some (
        phase_duration_minutes midway.config midway.phase * 60
        - (65000000000 - midway.phase_started_at) / 1000000000))
remaining_exact_example = remaining_exact 65000000000 midway short recent
