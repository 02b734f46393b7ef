-- ===== src/Examples/Lists.antt =====
-- Tests of the list of open workshops and of the end of a phase's time.
use dragon_shift.Common.{
  suc, ◌-◌, min, ◌≡◌, ◌↔◌, refl, String, true, false, none, some, List, [], ◌∷◌, ◌++◌, length, take,
  drop, ltb,
}
use dragon_shift.Common.I32.{wrap}
use dragon_shift.Protocol.{Phase}
use dragon_shift.Session.{WorkshopSession, new}
use dragon_shift.Session.Clock.{
  remaining_phase_seconds, elapsed_phase_seconds, phase_duration_minutes, duration_seconds,
}
use dragon_shift.Server.Handler.{saved, lease_lost}
use dragon_shift.Server.Deadlines.{advance_overdue_phase, auto_artifact}
use dragon_shift.Server.Deadlines.Progress.{
  discovery, JudgesFor, AdvancesWhole, advance_overdue_phase_ok, advance_overdue_phase_whole,
}
use dragon_shift.Persistence.Listing.{
  OpenWorkshopRecord, first, after, before, is_older, select_page,
}
use dragon_shift.Persistence.Listing.Pages.{
  cursor_of, Descending, select_page_around, walk, walk-rows,
}
use dragon_shift.Examples.{fresh}

abbrev row : String → String → OpenWorkshopRecord
row code created_at = record {
  session_code = code;
  host_name = "Ann";
  player_count = 2;
  created_at = created_at;
  phase1_minutes = 8;
  phase2_minutes = 5;
  owner_account_id = none;
  has_non_owner_players = true;
  archived = false;
  resumable = false;
  participant_account_ids = [];
}

abbrev newest : List OpenWorkshopRecord
newest = row "111111" "2026-01-03" ∷ row "222222" "2026-01-02" ∷ []

abbrev middle : OpenWorkshopRecord
middle = row "333333" "2026-01-02"

abbrev oldest : List OpenWorkshopRecord
oldest = row "444444" "2026-01-01" ∷ row "555555" "2026-01-01" ∷ []

abbrev as_is : String → String
as_is text = text

in_order : Descending as_is (newest ++ middle ∷ oldest)
unfolding is_older
in_order = (
  (refl, (refl, (refl, (refl, tt)))),
  ((refl, (refl, (refl, tt))), ((refl, (refl, tt)), ((refl, tt), (tt, tt)))),
)

select_page_around_example :
    let next = select_page as_is (after (cursor_of middle)) (newest ++ middle ∷ oldest) in
    let previous = select_page as_is (before (cursor_of middle)) (newest ++ middle ∷ oldest) in
    (next.rows ≡ take 4 oldest)
    × (next.has_more_after ≡ ltb 4 (length oldest))
    × (previous.rows ≡ drop (length newest - min 4 (length newest)) newest)
    × (previous.has_more_before ≡ ltb 4 (length newest))
select_page_around_example = select_page_around as_is newest middle oldest in_order

walk-rows_example :
    walk as_is (suc (length (newest ++ middle ∷ oldest))) first (newest ++ middle ∷ oldest)
    ≡ newest ++ middle ∷ oldest
walk-rows_example = walk-rows as_is (newest ++ middle ∷ oldest) in_order

-- A Phase 1 of eight minutes that began 1000 seconds ago.
abbrev overdue : WorkshopSession
overdue = record fresh { phase = Phase.phase1; phase_started_at = 5000000000 }

time_is_up : remaining_phase_seconds 1005000000000 overdue ≡ some 0
unfolding remaining_phase_seconds elapsed_phase_seconds duration_seconds phase_duration_minutes new
    wrap
time_is_up = refl

advance_overdue_phase_ok_example :
    let e = advance_overdue_phase "artifact_1" "today" 1005000000000 saved overdue in
    (e.is_error ≡ false)
    × (e.cached.phase ≡ Phase.handover)
    × (e.stored ≡ some (e.cached, auto_artifact "artifact_1" "today" Phase.phase1 e.cached))
    × ((by : String) → (e.judge_for ≡ some by) ↔ JudgesFor Phase.phase1 e.cached.host_player_id by)
advance_overdue_phase_ok_example =
    advance_overdue_phase_ok "artifact_1" "today" 1005000000000 overdue Phase.handover time_is_up
      discovery

advance_overdue_phase_whole_example :
    AdvancesWhole overdue
      (advance_overdue_phase "artifact_1" "today" 1005000000000 (lease_lost "expired") overdue)
advance_overdue_phase_whole_example =
    advance_overdue_phase_whole "artifact_1" "today" 1005000000000 (lease_lost "expired") overdue
