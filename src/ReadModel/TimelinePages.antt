-- ===== src/ReadModel/TimelinePages.antt =====
-- `timelineRows`, `timeline` and `timelinePage` of
-- packages/kogg-operations/src/node/operations-read-model.ts. The `rowid` of an accepted event is its
-- place among them, since none is deleted; a page cursor is the order that `decodeCursor` gives.
use kogg.Prelude.{
  ℕ, ℕ-Eq, ◌+◌, suc, String, String-Eq, Bool, ◌&&◌, Option, none, some, List, [], ◌∷◌, ◌++◌, ◌==◌,
  take, filter, length, ltb, leb, if◌then◌else◌,
}
use kogg.Text.{is_safe_id}
use kogg.ReadModel.Owners.{OwnerKind}
use kogg.ReadModel.Events.{OwnerEvent}
use kogg.ReadModel.Tables.{TimelineRow, ActivityAggregate, ReadModel}

-- What an entry says of an aggregate.
pub record ActivitySpan : Type 0 where
  pub count : ℕ
  pub first_display_time : String
  pub last_display_time : String

pub record TimelineEntry : Type 0 where
  pub projection_order : ℕ
  pub entry_id : String
  pub run_id : String
  pub owner_kind : OwnerKind
  pub owner_sequence : ℕ
  pub event_kind : String
  pub safe_code : Option String
  pub attempt_id : Option String
  pub process_id : Option String
  pub display_time : String
  pub span : Option ActivitySpan

-- The `rowid` of the accepted event with a digest, behind `n` others.
unfoldable pub order_of : ℕ → String → List OwnerEvent → Option ℕ
order_of n digest [] = none
order_of n digest (e ∷ es) =
    let later = order_of (suc n) digest es in
    if e.event_digest == digest then some (suc n) else later

-- `timelineFromRow`, of a row of the timeline and of an aggregate, whose empty texts are left out.
unfoldable pub timeline_entry : ℕ → TimelineRow → TimelineEntry
timeline_entry order t = record {
  projection_order = order;
  entry_id = t.entry_id;
  run_id = t.run_id;
  owner_kind = t.owner_kind;
  owner_sequence = t.owner_sequence;
  event_kind = t.event_kind;
  safe_code = t.safe_code;
  attempt_id = t.attempt_id;
  process_id = t.process_id;
  display_time = t.display_time;
  span = none;
}

abbrev unless_empty : String → Option String
unless_empty s = if s == "" then none else some s

unfoldable pub aggregate_entry :
    (ActivityAggregate → String) → ℕ → ActivityAggregate → TimelineEntry
aggregate_entry aggregate_id order a = record {
  projection_order = order;
  entry_id = aggregate_id a;
  run_id = a.key.run_id;
  owner_kind = a.owner_kind;
  owner_sequence = a.first_owner_sequence;
  event_kind = a.key.event_kind;
  safe_code = unless_empty a.key.safe_code;
  attempt_id = unless_empty a.key.attempt_id;
  process_id = none;
  display_time = a.last_display_time;
  span = some (record {
    count = a.event_count;
    first_display_time = a.first_display_time;
    last_display_time = a.last_display_time;
  });
}

-- A row of a join is there where its event is.
abbrev pub joined : Option ℕ → (ℕ → TimelineEntry) → List TimelineEntry
joined none entry = []
joined (some order) entry = entry order ∷ []

unfoldable pub timeline_entries : String → List OwnerEvent → List TimelineRow → List TimelineEntry
timeline_entries run_id accepted [] = []
timeline_entries run_id accepted (t ∷ ts) =
    let later = timeline_entries run_id accepted ts in
    if t.run_id == run_id
    then joined (order_of 0 t.event_digest accepted) (λ order. timeline_entry order t) ++ later
    else later

unfoldable pub aggregate_entries :
    (ActivityAggregate → String)
    → String
    → List OwnerEvent
    → List ActivityAggregate
    → List TimelineEntry
aggregate_entries aggregate_id run_id accepted [] = []
aggregate_entries aggregate_id run_id accepted (a ∷ rows) =
    let later = aggregate_entries aggregate_id run_id accepted rows in
    if a.key.run_id == run_id
    then joined (order_of 0 a.first_event_digest accepted)
        (λ order. aggregate_entry aggregate_id order a)
      ++ later
    else later

-- `ORDER BY projection_order`.
unfoldable pub place_entry : TimelineEntry → List TimelineEntry → List TimelineEntry
place_entry t [] = t ∷ []
place_entry t (u ∷ us) =
    let later = place_entry t us in
    if leb t.projection_order u.projection_order then t ∷ u ∷ us else u ∷ later

unfoldable pub order_entries : List TimelineEntry → List TimelineEntry
order_entries [] = []
order_entries (t ∷ ts) = place_entry t (order_entries ts)

-- All entries of a run, in order, with the identifier of each aggregate.
unfoldable pub ordered_entries :
    (ActivityAggregate → String) → ReadModel → String → List TimelineEntry
ordered_entries aggregate_id m run_id = order_entries (
    timeline_entries run_id m.accepted m.derived.timeline
    ++ aggregate_entries aggregate_id run_id m.accepted m.derived.aggregates)

abbrev pub entries_after : ℕ → List TimelineEntry → List TimelineEntry
entries_after after ts = filter (λ (t : TimelineEntry). ltb after t.projection_order) ts

-- `timelineRows`.
unfoldable pub timeline_rows :
    (ActivityAggregate → String) → ReadModel → String → ℕ → ℕ → List TimelineEntry
timeline_rows aggregate_id m run_id after limit =
    take limit (entries_after after (ordered_entries aggregate_id m run_id))

unfoldable pub is_valid_page : String → ℕ → Bool
is_valid_page run_id limit = is_safe_id run_id && (leb 1 limit && leb limit 200)

-- `timeline`, or none where it throws `PROJECTION_QUERY_INVALID`.
unfoldable pub timeline :
    (ActivityAggregate → String) → ReadModel → String → ℕ → Option (List TimelineEntry)
timeline aggregate_id m run_id limit =
    if is_valid_page run_id limit then some (timeline_rows aggregate_id m run_id 0 limit) else none

pub record TimelinePage : Type 0 where
  pub projection_epoch : String
  pub items : List TimelineEntry
  pub next_order : Option ℕ

-- `selected.at(-1)`.
unfoldable pub last_order : ℕ → List TimelineEntry → ℕ
last_order order [] = order
last_order order (t ∷ ts) = last_order t.projection_order ts

unfoldable pub next_order_of : List TimelineEntry → Option ℕ
next_order_of [] = none
next_order_of (t ∷ ts) = some (last_order t.projection_order ts)

unfoldable pub timeline_page_of : String → ℕ → List TimelineEntry → TimelinePage
timeline_page_of epoch limit rows =
    let selected = take limit rows in
    if ltb limit (length rows)
    then record { projection_epoch = epoch; items = selected; next_order = next_order_of selected }
    else record { projection_epoch = epoch; items = rows; next_order = none }

-- `timelinePage`, after the order of a cursor, or 0 where there is none.
unfoldable pub timeline_page :
    (ActivityAggregate → String) → ReadModel → String → ℕ → ℕ → Option TimelinePage
timeline_page aggregate_id m run_id after limit =
    if is_valid_page run_id limit
    then some (
        timeline_page_of m.projection_epoch limit
          (timeline_rows aggregate_id m run_id after (limit + 1)))
    else none
