-- ===== src/Persistence/Listing.antt =====
-- platform/crates/persistence/src/lib.rs: `list_open_workshops` of the store in memory. How chrono
-- writes a time, and how it rewrites a timestamp in UTC, are arguments.
pub mod Pages
use dragon_shift.Common.{
  ℕ, ◌-◌, min, Bool, true, false, not, ◌&&◌, ◌||◌, String, Option, none, some, List, [], ◌∷◌, map,
  filter_by, any, length, take, drop, ltb, is_some, is_some_and, and_then, if◌then◌else◌, str_eq,
}
use dragon_shift.Common.Text.Order.{lt}
use dragon_shift.BTreeMap.{BTreeMap, string_key, get, values}
use dragon_shift.Protocol.{Phase, phase_eq}
use dragon_shift.Session.{SessionPlayer, WorkshopSession}
use dragon_shift.Server.{SessionArtifactKind, SessionArtifactRecord}

pub record OpenWorkshopRecord : Type 0 where
  pub session_code : String
  pub host_name : String
  pub player_count : ℕ
  pub created_at : String
  pub phase1_minutes : ℕ
  pub phase2_minutes : ℕ
  pub owner_account_id : Option String
  pub has_non_owner_players : Bool
  pub archived : Bool
  pub resumable : Bool
  pub participant_account_ids : List String

pub record OpenWorkshopCursor : Type 0 where
  pub created_at : String
  pub session_code : String

pub data OpenWorkshopsPaging : Type 0 where
  first : OpenWorkshopsPaging
  after before : OpenWorkshopCursor → OpenWorkshopsPaging

pub record OpenWorkshopsPage : Type 0 where
  pub rows : List OpenWorkshopRecord
  pub has_more_after : Bool
  pub has_more_before : Bool

abbrev pub page_size : ℕ
page_size = 4

-- chrono's `to_rfc3339`, and a timestamp rewritten in UTC or left as it is.
pub record Clockwork : Type 0 where
  pub to_rfc3339 : ℕ → String
  pub normalize : String → String

unfoldable pub open_workshop_is_visible_to_account : OpenWorkshopRecord → Option String → Bool
open_workshop_is_visible_to_account row viewer =
    if not row.archived && not row.resumable
    then true
    else is_some_and viewer λ account.
      is_some_and row.owner_account_id (λ owner. str_eq owner account)
      || any (λ participant. str_eq participant account) row.participant_account_ids

-- `Option::or_else`, `==` on options of texts, `filter_map` and `find`
abbrev pub or_else {ℓ} : {A : Type ℓ} → Option A → Option A → Option A
or_else none o = o
or_else (some a) o = some a

abbrev pub option_eq : Option String → Option String → Bool
option_eq none none = true
option_eq (some a) (some b) = str_eq a b
option_eq _ _ = false

abbrev pub push_some {ℓ} : {A : Type ℓ} → Option A → List A → List A
push_some none xs = xs
push_some (some a) xs = a ∷ xs

unfoldable pub filter_map {ℓ κ} : {A : Type ℓ} {B : Type κ} → (A → Option B) → List A → List B
filter_map f [] = []
filter_map f (x ∷ xs) = push_some (f x) (filter_map f xs)

abbrev pub name_of : Option SessionPlayer → Option String
name_of none = none
name_of (some player) = some player.name

unfoldable pub find_owner : String → List SessionPlayer → Option SessionPlayer
find_owner account [] = none
find_owner account (player ∷ players) =
    if is_some_and player.account_id (λ id. str_eq id account)
    then some player
    else find_owner account players

unfoldable pub host_name_of : WorkshopSession → Option String
host_name_of s = or_else (and_then s.host_player_id (λ id. name_of (get id s.players))) (
    or_else s.reserved_host_name
      (and_then s.owner_account_id (λ account. name_of (find_owner account (values s.players)))))

abbrev pub is_over_or_not_begun : Phase → Bool
is_over_or_not_begun Phase.lobby = true
is_over_or_not_begun Phase.end = true
is_over_or_not_begun _ = false

abbrev pub listed_at : Option String → String → String
listed_at none created_at = created_at
listed_at (some archived_at) created_at = archived_at

abbrev pub summary_named :
    Clockwork → WorkshopSession → Bool → Option String → String → OpenWorkshopRecord
summary_named clockwork s archived archive_created_at host_name =
    let owner = or_else s.owner_account_id s.reserved_host_account_id in
    let players = values s.players in
    record {
      session_code = s.code;
      host_name = host_name;
      player_count = length players;
      created_at = listed_at archive_created_at (clockwork.to_rfc3339 s.created_at);
      phase1_minutes = s.config.phase1_minutes;
      phase2_minutes = s.config.phase2_minutes;
      owner_account_id = owner;
      has_non_owner_players =
          any (λ (player : SessionPlayer). not (option_eq player.account_id owner)) players;
      archived = archived;
      resumable = not (is_over_or_not_begun s.phase);
      participant_account_ids = filter_map (λ (player : SessionPlayer). player.account_id) players;
    }

unfoldable pub open_workshop_summary_from_session :
    Clockwork → WorkshopSession → Bool → Option String → Option OpenWorkshopRecord
open_workshop_summary_from_session clockwork s archived archive_created_at =
    and_then (host_name_of s)
      λ host_name. some (summary_named clockwork s archived archive_created_at host_name)

abbrev pub is_judge_bundle : SessionArtifactKind → Bool
is_judge_bundle SessionArtifactKind.judge_bundle_generated = true
is_judge_bundle _ = false

-- `Iterator::max`: of equal ones the last.
abbrev pub later_of : String → Option String → Option String
later_of a none = some a
later_of a (some b) = if lt b a then some a else some b

unfoldable pub latest_archive_artifact_created_at : List SessionArtifactRecord → Option String
latest_archive_artifact_created_at [] = none
latest_archive_artifact_created_at (a ∷ as') =
    let rest = latest_archive_artifact_created_at as' in
    if is_judge_bundle a.kind then later_of a.created_at rest else rest

-- The row of a session, if it has one.
unfoldable pub row_of :
    Clockwork
    → (WorkshopSession → List SessionArtifactRecord)
    → WorkshopSession
    → Option OpenWorkshopRecord
row_of clockwork artifacts s =
    let archived_at = latest_archive_artifact_created_at (artifacts s) in
    let archived = phase_eq s.phase Phase.end && is_some archived_at in
    if phase_eq s.phase Phase.end && not archived
    then none
    else open_workshop_summary_from_session clockwork s archived archived_at

-- Later rows first; of one time, by code.
abbrev pub goes_first : OpenWorkshopRecord → OpenWorkshopRecord → Bool
goes_first left right =
    lt right.created_at left.created_at
    || (str_eq right.created_at left.created_at && lt left.session_code right.session_code)

-- `sort_by` is a stable sort.
unfoldable pub insert_row : OpenWorkshopRecord → List OpenWorkshopRecord → List OpenWorkshopRecord
insert_row row [] = row ∷ []
insert_row row (next ∷ rows) =
    let rest = insert_row row rows in
    if goes_first next row then next ∷ rest else row ∷ (next ∷ rows)

unfoldable pub sort_rows : List OpenWorkshopRecord → List OpenWorkshopRecord
sort_rows [] = []
sort_rows (row ∷ rows) = insert_row row (sort_rows rows)

unfoldable pub is_older : (String → String) → OpenWorkshopCursor → OpenWorkshopRecord → Bool
is_older normalize cursor row =
    let created_at = normalize row.created_at in
    let cursor_created_at = normalize cursor.created_at in
    lt created_at cursor_created_at
    || (str_eq created_at cursor_created_at && lt cursor.session_code row.session_code)

unfoldable pub is_newer : (String → String) → OpenWorkshopCursor → OpenWorkshopRecord → Bool
is_newer normalize cursor row =
    let created_at = normalize row.created_at in
    let cursor_created_at = normalize cursor.created_at in
    lt cursor_created_at created_at
    || (str_eq created_at cursor_created_at && lt row.session_code cursor.session_code)

unfoldable pub select_page :
    (String → String) → OpenWorkshopsPaging → List OpenWorkshopRecord → OpenWorkshopsPage
select_page normalize first rows = record {
  rows = take page_size rows;
  has_more_after = ltb page_size (length rows);
  has_more_before = false;
}
select_page normalize (after cursor) rows =
    let filtered = filter_by (is_older normalize cursor) rows in
    record {
      rows = take page_size filtered;
      has_more_after = ltb page_size (length filtered);
      has_more_before = true;
    }
select_page normalize (before cursor) rows =
    let filtered = filter_by (is_newer normalize cursor) rows in
    let total = length filtered in
    record {
      rows = drop (total - min page_size total) filtered;
      has_more_after = true;
      has_more_before = ltb page_size total;
    }

-- The sessions in the order of the code's map, which the sort removes but for equal rows.
unfoldable pub list_open_workshops :
    Clockwork
    → (WorkshopSession → List SessionArtifactRecord)
    → OpenWorkshopsPaging
    → Option String
    → List WorkshopSession
    → OpenWorkshopsPage
list_open_workshops clockwork artifacts paging viewer sessions =
    let candidates =
      filter_by
        (λ (s : WorkshopSession).
          not (phase_eq s.phase Phase.end) || ltb 0 (length (values s.players)))
        sessions in
    let rows =
      filter_by (λ row. open_workshop_is_visible_to_account row viewer)
        (filter_map (row_of clockwork artifacts) candidates) in
    select_page clockwork.normalize paging (sort_rows rows)
