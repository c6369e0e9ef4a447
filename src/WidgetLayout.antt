-- ===== src/WidgetLayout.antt =====
-- ui-react/src/components/widgets/shared/layoutContract.ts: how much room a widget asks for.
mod Tests
use glanceus.Prelude.{ℕ, String, Bool, Option, none, some, List, [], ◌∷◌, if◌then◌else◌, includes}
use glanceus.Prelude.Dict.{lookup}

pub data WidgetLayoutCategory : Type 0 where
  structural content : WidgetLayoutCategory

pub record WidgetLayoutMeta : Type 0 where
  pub category : WidgetLayoutCategory
  pub min_height_rows : ℕ
  pub weight : ℕ

abbrev pub meta_of : WidgetLayoutCategory → ℕ → ℕ → WidgetLayoutMeta
meta_of category min_height_rows weight = record {
  category = category;
  min_height_rows = min_height_rows;
  weight = weight;
}

abbrev pub default_layout_meta : WidgetLayoutMeta
default_layout_meta = meta_of structural 0 0

abbrev pub widget_layout_meta : List (String × WidgetLayoutMeta)
widget_layout_meta =
    ("TextBlock", meta_of structural 0 0)
    ∷ ("FactSet", meta_of structural 0 0)
    ∷ ("ActionSet", meta_of structural 0 0)
    ∷ ("Badge", meta_of structural 0 0)
    ∷ ("Image", meta_of structural 0 0)
    ∷ ("List", meta_of content 3 1)
    ∷ ("Progress", meta_of content 2 1)
    ∷ ("Chart.Line", meta_of content 4 1)
    ∷ ("Chart.Bar", meta_of content 4 1)
    ∷ ("Chart.Area", meta_of content 4 1)
    ∷ ("Chart.Pie", meta_of content 4 1)
    ∷ ("Chart.Table", meta_of content 4 1)
    ∷ []

-- The names that a plain object inherits.
abbrev pub inherited_names : List String
inherited_names =
    "constructor" ∷ "toString" ∷ "toLocaleString" ∷ "valueOf" ∷ "hasOwnProperty" ∷ "isPrototypeOf"
    ∷ "propertyIsEnumerable" ∷ "__proto__" ∷ "__defineGetter__" ∷ "__defineSetter__"
    ∷ "__lookupGetter__" ∷ "__lookupSetter__" ∷ []

-- What the table gives: an entry, or a property of its prototype.
pub data LayoutEntry : Type 0 where
  layout : WidgetLayoutMeta → LayoutEntry
  inherited_property : String → LayoutEntry

abbrev pub entry_or_default : Option WidgetLayoutMeta → String → LayoutEntry
entry_or_default (some meta) widget_type = layout meta
entry_or_default none widget_type =
    if includes widget_type inherited_names
    then inherited_property widget_type
    else layout default_layout_meta

-- getWidgetLayoutMeta.
unfoldable pub get_widget_layout_meta : String → LayoutEntry
get_widget_layout_meta widget_type =
    entry_or_default (lookup widget_type widget_layout_meta) widget_type
