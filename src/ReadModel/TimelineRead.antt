-- ===== src/ReadModel/TimelineRead.antt =====
-- A client that follows the cursors of `timelinePage` in
-- packages/kogg-operations/src/node/operations-read-model.ts.
use mathlib.Core.Option
use kogg.Prelude.{
  &&-eq-true, ◌∙◌, ltb_refuted, All-filter_of, All-take, arith, ℕ, zero, suc, ◌+◌, ◌≤◌, ◌<◌, String,
  true, false, ◌&&◌, Option, none, some, List, [], ◌∷◌, ◌++◌, ◌≡◌, refl, inl, inr, sym, ap, take,
  drop, take-take, take-drop, take-whole, length-take_full, length-drop, filter-whole,
  filter-filter_wider, filter-All, All, All-mono, length, ltb, ltb_sound, leb, Bool-cases,
}
use kogg.Text.{is_safe_id}
use kogg.ReadModel.Positions.{ordered_entries-IsPositive}
use kogg.ReadModel.Tables.{ActivityAggregate, ReadModel}
use kogg.ReadModel.TimelinePages.{
  TimelineEntry, TimelinePage, entries_after, ordered_entries, timeline_rows, is_valid_page,
  last_order, next_order_of, timeline_page_of, timeline_page,
}

-- The orders rise.
abbrev pub IsAscending : List TimelineEntry → Type 0
IsAscending [] = Unit
IsAscending (t ∷ ts) = All (λ u. t.projection_order < u.projection_order) ts × IsAscending ts

-- The entries of a page and of those behind it.
abbrev join_page :
    List TimelineEntry → Option ℕ → (ℕ → Option (List TimelineEntry)) → Option (List TimelineEntry)
join_page items none later = some items
join_page items (some order) later =
    Option.map (λ (behind : List TimelineEntry). items ++ behind) (later order)

abbrev with_page :
    Option TimelinePage → (ℕ → Option (List TimelineEntry)) → Option (List TimelineEntry)
with_page none later = none
with_page (some got) later = join_page got.items got.next_order later

-- The client's loop: it asks for a page, and for the one behind its cursor while there is one.
abbrev pub read_pages : ℕ → (ℕ → Option TimelinePage) → ℕ → Option (List TimelineEntry)
read_pages zero page after = none
read_pages (suc fuel) page after = with_page (page after) (read_pages fuel page)

ltb_lem : (a b : ℕ) → a < b → ltb a b ≡ true
ltb_lem a b h = ground arith

ltb_irrefl : (a b : ℕ) → b ≤ a → ltb a b ≡ false
ltb_irrefl a b h = ground arith

last_order-le :
    (order : ℕ) (ts : List TimelineEntry)
    → All (λ u. order < u.projection_order) ts
    → IsAscending ts
    → order ≤ last_order order ts
unfolding last_order
last_order-le order [] h k = omega arith
last_order-le order (t ∷ ts) h k = omega (arith, h.0, last_order-le t.projection_order ts k.0 k.1)

IsAscending-take : (n : ℕ) (ts : List TimelineEntry) → IsAscending ts → IsAscending (take n ts)
IsAscending-take zero ts h = tt
IsAscending-take (suc n) [] h = tt
IsAscending-take (suc n) (t ∷ ts) h =
    (All-take (λ u. t.projection_order < u.projection_order) n ts h.0, IsAscending-take n ts h.1)

IsAscending-after :
    (after : ℕ) (ts : List TimelineEntry) → IsAscending ts → IsAscending (entries_after after ts)
IsAscending-after after [] h = tt
IsAscending-after after (t ∷ ts) h = elim (Bool-cases (ltb after t.projection_order)) [
  | inl e ↦ rw e (
    All-filter_of (λ u. t.projection_order < u.projection_order)
        (λ u. t.projection_order < u.projection_order) (λ u. ltb after u.projection_order) ts
        (λ u k _. k) h.0,
    IsAscending-after after ts h.1,
  )
  | inr e ↦ rw e (IsAscending-after after ts h.1)
]

-- What comes behind the last of the entries that were taken is what was left.
cut_lem :
    (k : ℕ) (t : TimelineEntry) (ts : List TimelineEntry)
    → IsAscending (t ∷ ts)
    → entries_after (last_order t.projection_order (take k ts)) (t ∷ ts) ≡ drop k ts
unfolding last_order
cut_lem zero t ts h = rw (ltb_irrefl t.projection_order t.projection_order (omega arith)) (
    filter-whole (λ u. ltb t.projection_order u.projection_order) ts
      (All-mono (λ u. t.projection_order < u.projection_order)
        (λ u. ltb t.projection_order u.projection_order ≡ true) ts
        (λ u l. ltb_lem t.projection_order u.projection_order l) h.0))
cut_lem (suc k) t [] h = rw (ltb_irrefl t.projection_order t.projection_order (omega arith)) refl
cut_lem (suc k) t (u ∷ us) h =
    let last = last_order u.projection_order (take k us) in
    let before : t.projection_order ≤ last = omega (
      arith,
      h.0.0,
      last_order-le u.projection_order (take k us)
          (All-take (λ v. u.projection_order < v.projection_order) k us h.1.0)
          (IsAscending-take k us h.1.1),
    ) in
    rw (ltb_irrefl last t.projection_order before) (cut_lem k u us h.1)

page-last :
    (epoch : String) (n : ℕ) (ts : List TimelineEntry)
    → length ts ≤ n
    → timeline_page_of epoch n (take (suc n) ts)
      ≡ record { projection_epoch = epoch; items = ts; next_order = none }
unfolding timeline_page_of
page-last epoch n ts h = rw (take-whole (suc n) ts (omega arith), ltb_irrefl n (length ts) h) refl

page-more :
    (epoch : String) (n : ℕ) (ts : List TimelineEntry)
    → n < length ts
    → timeline_page_of epoch n (take (suc n) ts) ≡ record {
      projection_epoch = epoch;
      items = take n ts;
      next_order = next_order_of (take n ts);
    }
unfolding timeline_page_of
page-more epoch n ts h =
    rw (length-take_full (suc n) ts (omega arith), ltb_lem n (suc n) (omega arith), take-take n ts)
      refl

-- The cursor of a page that is not the last.
next_order_lem :
    (k : ℕ) (ts : List TimelineEntry)
    → IsAscending ts
    → suc k < length ts
    → (order : ℕ) × (next_order_of (take (suc k) ts) ≡ some order)
      × (entries_after order ts ≡ drop (suc k) ts)
      × ((after : ℕ) → All (λ u. ltb after u.projection_order ≡ true) ts → after ≤ order)
unfolding next_order_of
next_order_lem k [] h more = absurd (omega arith)
next_order_lem k (t ∷ ts) h more = (
  last_order t.projection_order (take k ts),
  refl,
  cut_lem k t ts h,
  λ after later. omega (
    arith,
    ltb_sound after t.projection_order later.0,
    last_order-le t.projection_order (take k ts)
        (All-take (λ u. t.projection_order < u.projection_order) k ts h.0)
        (IsAscending-take k ts h.1),
  ),
)

ltb_trans : (a b c : ℕ) → a ≤ b → ltb b c ≡ true → ltb a c ≡ true
ltb_trans a b c h k = ltb_lem a c (omega (arith, ltb_sound b c k))

module _ (epoch : String) (k : ℕ) (all_entries : List TimelineEntry)
    (page : ℕ → Option TimelinePage)
    (answers : (after : ℕ)
      → page after
        ≡ some
            (timeline_page_of epoch (suc k) (take (suc (suc k)) (entries_after after all_entries))))
    (rises : IsAscending all_entries) where
  read_pages-rest :
      (fuel after : ℕ)
      → length (entries_after after all_entries) < fuel
      → read_pages fuel page after ≡ some (entries_after after all_entries)
  read_pages-rest zero after h = absurd (omega arith)
  read_pages-rest (suc fuel) after h =
      let rest = entries_after after all_entries in
      elim (Bool-cases (ltb (suc k) (length rest))) [
        | inr few ↦
            ap (λ (got : Option TimelinePage). with_page got (read_pages fuel page))
              (answers after
                ∙ ap some (page-last epoch (suc k) rest (ltb_refuted (suc k) (length rest) few)))
        | inl many ↦
            let more = ltb_sound (suc k) (length rest) many in
            let (order, next, cut, behind) =
              next_order_lem k rest (IsAscending-after after all_entries rises) more in
            let onwards =
              behind after (filter-All (λ u. ltb after u.projection_order) all_entries) in
            let left : entries_after order all_entries ≡ drop (suc k) rest =
              sym (
                filter-filter_wider (λ u. ltb order u.projection_order)
                  (λ u. ltb after u.projection_order)
                  (λ u. ltb_trans after order u.projection_order onwards) all_entries)
              ∙ cut in
            let shorter : length (entries_after order all_entries) < fuel =
              rw left (omega (arith, h, length-drop (suc k) rest (omega (arith, more)))) in
            let shown = answers after ∙ ap some (page-more epoch (suc k) rest more) in
            let joined : join_page (take (suc k) rest) (some order) (read_pages fuel page)
                ≡ some rest =
              rw (read_pages-rest fuel order shorter, left, take-drop (suc k) rest) refl in
            ap (λ (got : Option TimelinePage). with_page got (read_pages fuel page)) shown
            ∙ (ap (λ (o : Option ℕ). join_page (take (suc k) rest) o (read_pages fuel page)) next
                ∙ joined)
      ]

more_by_one : (k : ℕ) → suc k + 1 ≡ suc (suc k)
more_by_one k = omega arith

zero-invalid : (run_id : String) → is_valid_page run_id 0 ≡ true → ⊥
unfolding is_valid_page
zero-invalid run_id valid = cc ((&&-eq-true (is_safe_id run_id) (leb 1 0 && leb 0 200) valid).1)

-- A client that asks for the pages of a run one after the other, each from the cursor of the one
-- before, reads every entry of the run's timeline exactly once and in order, on pages of any valid
-- size, with one request more than there are entries at most; the orders of the entries must rise.
pub read_pages-whole :
    (aggregate_id : ActivityAggregate → String) (m : ReadModel) (run_id : String) (limit fuel : ℕ)
    → is_valid_page run_id limit ≡ true
    → IsAscending (ordered_entries aggregate_id m run_id)
    → length (ordered_entries aggregate_id m run_id) < fuel
    → read_pages fuel (λ after. timeline_page aggregate_id m run_id after limit) 0
      ≡ some (ordered_entries aggregate_id m run_id)
unfolding timeline_page timeline_rows
read_pages-whole aggregate_id m run_id zero fuel valid rises enough =
    absurd (zero-invalid run_id valid)
read_pages-whole aggregate_id m run_id (suc k) fuel valid rises enough =
    let entries = ordered_entries aggregate_id m run_id in
    let whole : entries_after 0 entries ≡ entries =
      filter-whole (λ t. ltb 0 t.projection_order) entries
        (All-mono (λ t. 0 < t.projection_order) (λ t. ltb 0 t.projection_order ≡ true) entries
          (λ t h. ltb_lem 0 t.projection_order h)
          (ordered_entries-IsPositive aggregate_id m run_id)) in
    let answers : (after : ℕ)
        → timeline_page aggregate_id m run_id after (suc k)
          ≡ some (
              timeline_page_of m.projection_epoch (suc k)
                (take (suc (suc k)) (entries_after after entries))) =
      λ after. rw (valid, more_by_one k) refl in
    read_pages-rest m.projection_epoch k entries
      (λ after. timeline_page aggregate_id m run_id after (suc k)) answers rises fuel 0
      (rw whole enough)
    ∙ ap some whole
