-- ===== src/Config.antt =====
-- The records of ui-react/src/types/config.ts that the dashboard's modules share.
use glanceus.Prelude.{ℕ, String, List}
use glanceus.Prelude.Value.{Value}

-- ViewItem. `C` is the type of its coordinates: as they come, or sanitised.
pub record ViewItem (C : Type 0) : Type 0 where
  pub id : String
  pub x : C
  pub y : C
  pub w : C
  pub h : C
  pub source_id : String
  pub template_id : String
  pub props : Value

-- StoredView. Names are lists of UTF-16 units, which is what the code that edits them sees.
pub record StoredView : Type 0 where
  pub id : String
  pub name : List ℕ
  pub layout_columns : Value
  pub items : List (ViewItem Value)
