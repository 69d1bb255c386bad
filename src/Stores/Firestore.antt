-- ===== src/Stores/Firestore.antt =====
-- A Firestore client, as the code calls it.
pub mod Documents
use stockic_feed_api.Common.{Bool, List, [], ◌∷◌, Option, none, some, if◌then◌else◌}
use stockic_feed_api.Common.State.{State}
use stockic_feed_api.Go.Text.{Bytes, str_eq}

mutual
  -- A value of a document's field; `other` stands for the types that the code never looks into.
  pub data Value : Type 0 where
    bool : Bool → Value
    text : Bytes → Value
    array : Values → Value
    other : Value

  pub data Values : Type 0 where
    nil : Values
    cons : Value → Values → Values

abbrev pub Document : Type 0
Document = List (Bytes × Value)

-- `data[name]`, the first field of that name
abbrev pub field : Bytes → Document → Option Value
field name [] = none
field name ((k, v) ∷ d) = if str_eq k name then some v else field name d

-- The result of `Doc(id).Get`: an error with the code NotFound, any other error, or a snapshot with
-- its `Exists()` and `Data()`.
pub data Fetched : Type 0 where
  not_found failed : Fetched
  snapshot : Bool → Document → Fetched

pub record Firestore (W : Type 0) : Type 0 where
  pub get_doc : Bytes → Bytes → State W Fetched
  -- `Where(field, "==", text).Documents` and `Next`: `none` is an error or the end, else `Exists()`
  pub query_first : Bytes → Bytes → Bytes → State W (Option Bool)
  pub add : Bytes → Document → State W Bool
  pub set_doc : Bytes → Bytes → Document → State W Bool
  -- `Update` of one field with `ArrayUnion` or `ArrayRemove` of one text
  pub array_union : Bytes → Bytes → Bytes → Bytes → State W Bool
  pub array_remove : Bytes → Bytes → Bytes → Bytes → State W Bool
