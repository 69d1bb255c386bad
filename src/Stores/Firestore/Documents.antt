-- ===== src/Stores/Firestore/Documents.antt =====
-- What the writes to a Firestore document do to its fields, and what the code relies on in a client.
use stockic_feed_api.Common.{
  ◌≡◌, refl, Bool, true, false, List, [], ◌∷◌, Option, none, some, if◌then◌else◌, ◌||◌, arith, ◌++◌,
  ap, Bool-cases, inl, inr,
}
use stockic_feed_api.Go.Text.{Bytes, str_eq}
use stockic_feed_api.Go.Text.Laws.{str_eq_refl, str_eq→eq}
use stockic_feed_api.Stores.Firestore.{
  Value, Values, nil, cons, bool, text, array, other, Document, field, snapshot, Firestore,
}

-- Whether a value is the text `s`.
abbrev pub is_text : Bytes → Value → Bool
is_text s (text t) = str_eq t s
is_text s _ = false

abbrev pub has_text : Bytes → Values → Bool
has_text s nil = false
has_text s (cons v vs) = is_text s v || has_text s vs

-- The texts of an array, in its order.
abbrev pub texts : Values → List Bytes
texts nil = []
texts (cons (text t) vs) = t ∷ texts vs
texts (cons (bool b) vs) = texts vs
texts (cons (array a) vs) = texts vs
texts (cons other vs) = texts vs

-- The array of a field: empty where the field is missing or of another type.
abbrev pub elements : Option Value → Values
elements (some (array vs)) = vs
elements _ = nil

abbrev pub snoc : Values → Value → Values
snoc nil x = cons x nil
snoc (cons v vs) x = cons v (snoc vs x)

-- `ArrayUnion` and `ArrayRemove` of one text
abbrev pub union_text : Bytes → Values → Values
union_text s vs = if has_text s vs then vs else snoc vs (text s)

abbrev pub remove_text : Bytes → Values → Values
remove_text s nil = nil
remove_text s (cons v vs) = let rest = remove_text s vs in if is_text s v then rest else cons v rest

abbrev pub put_field : Bytes → Value → Document → Document
put_field name v [] = (name, v) ∷ []
put_field name v ((k, old) ∷ d) =
    let rest = put_field name v d in if str_eq k name then (k, v) ∷ d else (k, old) ∷ rest

abbrev pub union_field : Bytes → Bytes → Document → Document
union_field name s d = put_field name (array (union_text s (elements (field name d)))) d

abbrev pub remove_field : Bytes → Bytes → Document → Document
remove_field name s d = put_field name (array (remove_text s (elements (field name d)))) d

abbrev pub map_document : (Document → Document) → Option Document → Option Document
map_document f none = none
map_document f (some d) = some (f d)

abbrev pub is_present : Option Document → Bool
is_present none = false
is_present (some d) = true

-- What the code relies on in a client. `documents w c id` is the document `id` of the collection `c`.
-- `Update` fails on a document that does not exist; `Set` replaces the whole document. Nothing is
-- said of a write that reports an error.
pub record IsDocumentStore {W : Type 0} (db : Firestore W)
    (documents : W → Bytes → Bytes → Option Document) : Type 0 where
  pub get_reads :
      (c id : Bytes) (w : W) (d : Document)
      → (db.get_doc c id w).0 ≡ snapshot true d
      → documents w c id ≡ some d
  pub get_keeps : (c id : Bytes) (w : W) → documents (db.get_doc c id w).1 ≡ documents w
  pub set_replaces :
      (c id : Bytes) (d : Document) (w : W)
      → (db.set_doc c id d w).0 ≡ true
      → documents (db.set_doc c id d w).1 c id ≡ some d
  pub union_updates :
      (c id name s : Bytes) (w : W)
      → (db.array_union c id name s w).0 ≡ true
      → (d : Document) × (documents w c id ≡ some d)
        × (documents (db.array_union c id name s w).1 c id ≡ some (union_field name s d))
  pub remove_updates :
      (c id name s : Bytes) (w : W)
      → (db.array_remove c id name s w).0 ≡ true
      → (d : Document) × (documents w c id ≡ some d)
        × (documents (db.array_remove c id name s w).1 c id ≡ some (remove_field name s d))

pub field-put_field :
    (name : Bytes) (v : Value) (d : Document) → field name (put_field name v d) ≡ some v
field-put_field name v [] = rw str_eq_refl refl
field-put_field name v ((k, old) ∷ d) = ground (arith, field-put_field name v d)

pub field-put_field_other :
    (name f : Bytes) (v : Value) (d : Document)
    → str_eq name f ≡ false
    → field f (put_field name v d) ≡ field f d
field-put_field_other name f v [] h = rw h refl
field-put_field_other name f v ((k, old) ∷ d) h = elim (Bool-cases (str_eq k name)) [
  | inl same ↦ rw (same, str_eq→eq k name same, h) refl
  | inr differs ↦ elim (Bool-cases (str_eq k f)) [
    | inl here ↦ rw (differs, here) refl
    | inr there ↦ rw (differs, there) (field-put_field_other name f v d h)
  ]
]

-- Lists of texts as the arrays hold them.
abbrev pub contains : Bytes → List Bytes → Bool
contains s [] = false
contains s (t ∷ ts) = str_eq t s || contains s ts

abbrev pub insert : Bytes → List Bytes → List Bytes
insert s ts = if contains s ts then ts else ts ++ s ∷ []

abbrev pub delete : Bytes → List Bytes → List Bytes
delete s [] = []
delete s (t ∷ ts) = let rest = delete s ts in if str_eq t s then rest else t ∷ rest

has_text-contains : (s : Bytes) (vs : Values) → has_text s vs ≡ contains s (texts vs)
has_text-contains s nil = refl
has_text-contains s (cons (text t) vs) = ap (λ b. str_eq t s || b) (has_text-contains s vs)
has_text-contains s (cons (bool b) vs) = has_text-contains s vs
has_text-contains s (cons (array a) vs) = has_text-contains s vs
has_text-contains s (cons other vs) = has_text-contains s vs

texts-snoc : (s : Bytes) (vs : Values) → texts (snoc vs (text s)) ≡ texts vs ++ s ∷ []
texts-snoc s nil = refl
texts-snoc s (cons (text t) vs) = ap (λ r. t ∷ r) (texts-snoc s vs)
texts-snoc s (cons (bool b) vs) = texts-snoc s vs
texts-snoc s (cons (array a) vs) = texts-snoc s vs
texts-snoc s (cons other vs) = texts-snoc s vs

-- On the texts of an array, `ArrayUnion` is `insert` and `ArrayRemove` is `delete`.
pub texts-union_text : (s : Bytes) (vs : Values) → texts (union_text s vs) ≡ insert s (texts vs)
texts-union_text s vs = rw (← has_text-contains s vs) (elim (Bool-cases (has_text s vs)) [
  | inl present ↦ rw present refl
  | inr absent ↦ rw absent (texts-snoc s vs)
])

pub texts-remove_text : (s : Bytes) (vs : Values) → texts (remove_text s vs) ≡ delete s (texts vs)
texts-remove_text s nil = refl
texts-remove_text s (cons (text t) vs) = elim (Bool-cases (str_eq t s)) [
  | inl same ↦ rw same (texts-remove_text s vs)
  | inr differs ↦ rw differs (ap (λ r. t ∷ r) (texts-remove_text s vs))
]
texts-remove_text s (cons (bool b) vs) = texts-remove_text s vs
texts-remove_text s (cons (array a) vs) = texts-remove_text s vs
texts-remove_text s (cons other vs) = texts-remove_text s vs

contains_last : (s : Bytes) (ts : List Bytes) → contains s (ts ++ s ∷ []) ≡ true
contains_last s [] = rw str_eq_refl refl
contains_last s (t ∷ ts) = ground (arith, contains_last s ts)

pub contains-insert : (s : Bytes) (ts : List Bytes) → contains s (insert s ts) ≡ true
contains-insert s ts = elim (Bool-cases (contains s ts)) [
  | inl present ↦ rw (present, present) refl
  | inr absent ↦ rw absent (contains_last s ts)
]

pub contains-delete : (s : Bytes) (ts : List Bytes) → contains s (delete s ts) ≡ false
contains-delete s [] = refl
contains-delete s (t ∷ ts) = ground (arith, contains-delete s ts)
