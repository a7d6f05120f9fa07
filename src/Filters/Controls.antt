-- ===== src/Filters/Controls.antt =====
-- What the search box and the segmented control of web/src/filters.tsx show.
use sentinel_edr.Common.{
  ℕ, String, Bool, not, Option, none, some, List, map, if◌then◌else◌, ◌===◌, string_same, nat_same,
  nat_same,
}

pub record SearchBox : Type 0 where
  pub min_width : Option ℕ
  pub value : String
  pub placeholder : Option String
  pub has_clear : Bool

-- A width of 0 sets none. The clear button is there while there is something to clear.
abbrev width_of : Option ℕ → Option ℕ
width_of none = none
width_of (some w) = if w === 0 then none else some w

abbrev pub search_input : String → Option String → Option ℕ → SearchBox
search_input value placeholder width = record {
  min_width = width_of width;
  value = value;
  placeholder = placeholder;
  has_clear = not (value === "");
}

pub record SegOption : Type 0 where
  pub value : String
  pub label : String
  pub count : Option ℕ
  pub dot : Option String

pub record SegItem : Type 0 where
  pub key : String
  pub selected : Bool
  pub class_name : String
  pub dot : Option String
  pub label : String
  pub count : Option ℕ

-- An empty class name is no dot; a count of 0 is shown.
abbrev dot_of : Option String → Option String
dot_of none = none
dot_of (some d) = if d === "" then none else some d

abbrev pub seg_item : String → SegOption → SegItem
seg_item value o = record {
  key = o.value;
  selected = value === o.value;
  class_name = if value === o.value then "seg-item on" else "seg-item";
  dot = dot_of o.dot;
  label = o.label;
  count = o.count;
}

abbrev pub segmented : String → List SegOption → List SegItem
segmented value options = map (seg_item value) options
