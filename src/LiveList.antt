-- ===== src/LiveList.antt =====
-- dashboard/lib/use-data.ts, `useLiveList`: the paginated live list of a high-volume log. The
-- state and the refs of the hook are one record. A fetch carries the number of the effect run
-- that started it, so its flag `on` is true while that number is the current one; `loadMore` has
-- no such flag. Milliseconds are natural numbers: time stamps before 1970 are left out.
pub mod Rows
pub mod Invariant
pub mod Hidden
pub mod Gaps
pub mod Cursor
mod Tests
use sentinel_edr.Common.{
  ℕ, ◌+◌, String, Bool, true, false, not, ◌&&◌, ◌||◌, Option, none, some, List, [], ◌∷◌, ◌++◌, map,
  length, take, filter, contains, ltb, leb, if◌then◌else◌, get_or, ◌===◌, nat_same, string_same,
}

pub record Row : Type 0 where
  pub id : String
  pub ts : String

pub record State : Type 0 where
  pub items : List Row
  pub loading : Bool
  pub loading_more : Bool
  pub has_more : Bool
  pub connected : Bool
  pub error : Bool
  pub seen : List String
  pub newest : String
  pub load_run : ℕ
  pub tail_run : ℕ

-- Before the first effect has run.
unfoldable pub initial : State
initial = record {
  items = [];
  loading = true;
  loading_more = false;
  has_more = true;
  connected = false;
  error = false;
  seen = [];
  newest = "";
  load_run = 0;
  tail_run = 0;
}

-- What a fetch settles with: the rows (`j || []`), or a throw of `fetch` or of `json`.
pub data Reply : Type 0 where
  rows : List Row → Reply
  failed : Reply

abbrev pub ids : List Row → List String
ids = map (λ x. x.id)

-- `seen.current.add`, for each row
abbrev pub add : String → List String → List String
add k seen = if contains seen k then seen else k ∷ seen

abbrev pub add_all : List Row → List String → List String
add_all [] seen = seen
add_all (x ∷ xs) seen = add_all xs (add x.id seen)

abbrev pub unseen : List String → List Row → List Row
unseen seen = filter (λ x. not (contains seen x.id))

-- The reset at the front of the first effect: its dependencies changed.
unfoldable pub start_load : State → State
start_load s = record s {
  seen = [];
  newest = "";
  items = [];
  has_more = true;
  loading = true;
  load_run = s.load_run + 1;
}

abbrev pub newest_of : String → List Row → String
newest_of newest [] = newest
newest_of newest (x ∷ xs) = x.ts

-- The first page has arrived.
unfoldable pub loaded : ℕ → Reply → State → State
loaded page_size (rows j) s = record s {
  seen = add_all j s.seen;
  newest = newest_of s.newest j;
  items = j;
  has_more = leb page_size (length j);
  connected = true;
  error = false;
  loading = false;
}
loaded page_size failed s = record s { connected = false; error = true; loading = false }

unfoldable pub finish_load : ℕ → ℕ → Reply → State → State
unfolding loaded
finish_load page_size run reply s = if run === s.load_run then loaded page_size reply s else s

-- The second effect has run anew: the ticks of its earlier runs are void.
unfoldable pub restart_tail : State → State
restart_tail s = record s { tail_run = s.tail_run + 1 }

-- What a tick asks for: the rows since the newest one, unless there is none, or the tab is hidden.
unfoldable pub tick_since : Bool → State → Option String
tick_since hidden s = if s.newest === "" then none else if hidden then none else some s.newest

module _ (date_parse : String → Option ℕ) where
  -- `tsNum`; `none` is NaN.
  unfoldable pub ts_num : String → ℕ
  ts_num s = if s === "" then 0 else get_or (date_parse s) 0

  abbrev pub later : String → String → String
  later newest ts = if ltb (ts_num newest) (ts_num ts) then ts else newest

  -- A tick's rows that are not yet known.
  unfoldable pub prepend : ℕ → List Row → State → State
  prepend cap [] s = s
  prepend cap (x ∷ xs) s = record s {
    seen = add_all (x ∷ xs) s.seen;
    newest = later s.newest x.ts;
    items = take cap ((x ∷ xs) ++ s.items);
  }

  unfoldable pub ticked : ℕ → Reply → State → State
  unfolding prepend
  ticked cap (rows j) s =
      prepend cap (unseen s.seen j) (record s { connected = true; error = false })
  ticked cap failed s = record s { connected = false; error = true }

  unfoldable pub finish_tick : ℕ → ℕ → Reply → State → State
  unfolding ticked
  finish_tick cap run reply s = if run === s.tail_run then ticked cap reply s else s

  -- A pushed row; `none` is a message without data. `keep` is the page's filter.
  unfoldable pub push : ℕ → (Row → Bool) → Option Row → State → State
  push cap keep none s = s
  push cap keep (some x) s =
      if x.id === "" || contains s.seen x.id then s else if not (keep x) then s else record s {
        seen = add x.id s.seen;
        newest = later s.newest x.ts;
        items = take cap (x ∷ s.items);
        connected = true;
      }

-- `loadMore`: when it is called, and when its reply has arrived.
unfoldable pub start_more : State → State
start_more s = record s { loading_more = true }

unfoldable pub finish_more : ℕ → Reply → State → State
finish_more page_size (rows j) s = record s {
  seen = add_all (unseen s.seen j) s.seen;
  items = s.items ++ unseen s.seen j;
  has_more = if ltb (length j) page_size then false else s.has_more;
  loading_more = false;
}
finish_more page_size failed s = record s { error = true; loading_more = false }

-- What can happen to a mounted hook, in the order in which it happens.
pub data Event : Type 0 where
  query_changed : Event
  tail_restarted : Event
  load_reply : (run : ℕ) → Reply → Event
  tick_reply : (run : ℕ) → Reply → Event
  pushed : Option Row → Event
  more_asked : Event
  more_reply : Reply → Event

-- The options of the hook.
pub record Options : Type 0 where
  pub page_size : ℕ
  pub cap : ℕ
  pub push_filter : Row → Bool

module _ (date_parse : String → Option ℕ) (o : Options) where
  unfoldable pub step : Event → State → State
  unfolding start_load restart_tail finish_load finish_tick push start_more finish_more
  step query_changed s = start_load s
  step tail_restarted s = restart_tail s
  step (load_reply run reply) s = finish_load o.page_size run reply s
  step (tick_reply run reply) s = finish_tick date_parse o.cap run reply s
  step (pushed x) s = push date_parse o.cap o.push_filter x s
  step more_asked s = start_more s
  step (more_reply reply) s = finish_more o.page_size reply s

  unfoldable pub run : List Event → State → State
  run [] s = s
  run (e ∷ es) s = run es (step e s)
