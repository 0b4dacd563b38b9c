-- ===== src/Compiler/Types.antt =====
-- pkg/compiler/validators/typing.go: the types of literals, as the checkers look at them, and the
-- tests that do not go into a type. A type carries the tag of its structure, "" where it has none;
-- the other annotations are never compared. No type inside another one is nil.
use flytepropeller.Prelude.{
  String, Bool, true, false, ◌&&◌, ◌||◌, Option, some, List, [], ◌∷◌, str_eq, is_empty,
  if◌then◌else◌,
}

pub data SimpleType : Type 0 where
  none integer float string boolean datetime duration binary error struct : SimpleType

pub data SchemaColumnType : Type 0 where
  integer float string boolean datetime duration : SchemaColumnType

abbrev pub SchemaColumns : Type 0
SchemaColumns = List (String × SchemaColumnType)

mutual
  pub data LiteralType : Type 0 where
    unset : String → LiteralType
    simple : String → SimpleType → LiteralType
    enum_type : String → List String → LiteralType
    blob : String → String → LiteralType
    collection_type : String → LiteralType → LiteralType
    map_value_type : String → LiteralType → LiteralType
    schema : String → SchemaColumns → LiteralType
    structured_dataset_type : String → String → Columns → LiteralType
    union_type : String → Variants → LiteralType

  pub data Columns : Type 0 where
    no_columns : Columns
    column : String → LiteralType → Columns → Columns

  pub data Variants : Type 0 where
    no_variants : Variants
    variant : LiteralType → Variants → Variants

-- The text that the types are compared by (`String()`), and `strings.EqualFold`.
pub record Texts : Type 0 where
  pub render : LiteralType → String
  pub equal_fold : String → String → Bool

-- `GetTagForType`.
abbrev pub get_tag_for_type : LiteralType → String
get_tag_for_type (LiteralType.unset t) = t
get_tag_for_type (LiteralType.simple t _) = t
get_tag_for_type (LiteralType.enum_type t _) = t
get_tag_for_type (LiteralType.blob t _) = t
get_tag_for_type (LiteralType.collection_type t _) = t
get_tag_for_type (LiteralType.map_value_type t _) = t
get_tag_for_type (LiteralType.schema t _) = t
get_tag_for_type (LiteralType.structured_dataset_type t _ _) = t
get_tag_for_type (LiteralType.union_type t _) = t

-- The copy of a type with an empty structure.
abbrev pub without_tag : LiteralType → LiteralType
without_tag (LiteralType.unset _) = LiteralType.unset ""
without_tag (LiteralType.simple _ s) = LiteralType.simple "" s
without_tag (LiteralType.enum_type _ e) = LiteralType.enum_type "" e
without_tag (LiteralType.blob _ b) = LiteralType.blob "" b
without_tag (LiteralType.collection_type _ e) = LiteralType.collection_type "" e
without_tag (LiteralType.map_value_type _ e) = LiteralType.map_value_type "" e
without_tag (LiteralType.schema _ cs) = LiteralType.schema "" cs
without_tag (LiteralType.structured_dataset_type _ f cs) =
    LiteralType.structured_dataset_type "" f cs
without_tag (LiteralType.union_type _ vs) = LiteralType.union_type "" vs

-- `GetSimple`: of a type that is not simple it is the zero value.
abbrev pub get_simple : LiteralType → SimpleType
get_simple (LiteralType.simple _ s) = s
get_simple _ = SimpleType.none

abbrev pub is_string : SimpleType → Bool
is_string SimpleType.string = true
is_string _ = false

abbrev pub is_enum : LiteralType → Bool
is_enum (LiteralType.enum_type _ _) = true
is_enum _ = false

-- `isVoid`.
abbrev pub is_void : LiteralType → Bool
is_void (LiteralType.simple _ SimpleType.none) = true
is_void _ = false

abbrev same_column_type : SchemaColumnType → SchemaColumnType → Bool
same_column_type SchemaColumnType.integer SchemaColumnType.integer = true
same_column_type SchemaColumnType.float SchemaColumnType.float = true
same_column_type SchemaColumnType.string SchemaColumnType.string = true
same_column_type SchemaColumnType.boolean SchemaColumnType.boolean = true
same_column_type SchemaColumnType.datetime SchemaColumnType.datetime = true
same_column_type SchemaColumnType.duration SchemaColumnType.duration = true
same_column_type _ _ = false

-- `schemaTypeIsMatchStructuredDatasetType`.
abbrev pub schema_type_is_match_structured_dataset_type : SchemaColumnType → SimpleType → Bool
schema_type_is_match_structured_dataset_type SchemaColumnType.integer SimpleType.integer = true
schema_type_is_match_structured_dataset_type SchemaColumnType.float SimpleType.float = true
schema_type_is_match_structured_dataset_type SchemaColumnType.string SimpleType.string = true
schema_type_is_match_structured_dataset_type SchemaColumnType.boolean SimpleType.boolean = true
schema_type_is_match_structured_dataset_type SchemaColumnType.datetime SimpleType.datetime = true
schema_type_is_match_structured_dataset_type SchemaColumnType.duration SimpleType.duration = true
schema_type_is_match_structured_dataset_type _ _ = false

-- The map from the names of columns to their types: the last column of a name counts.
unfoldable pub schema_lookup : String → SchemaColumns → Option SchemaColumnType
schema_lookup k [] = Option.none
schema_lookup k ((j, t) ∷ cs) = elim (schema_lookup k cs) [
  | some u ↦ some u
  | Option.none ↦ if str_eq j k then some t else Option.none
]

unfoldable pub column_lookup : String → Columns → Option LiteralType
column_lookup k Columns.no_columns = Option.none
column_lookup k (Columns.column j t cs) = elim (column_lookup k cs) [
  | some u ↦ some u
  | Option.none ↦ if str_eq j k then some t else Option.none
]

abbrev pub has_no_columns : Columns → Bool
has_no_columns Columns.no_columns = true
has_no_columns (Columns.column _ _ _) = false

abbrev pub same_as : SchemaColumnType → Option SchemaColumnType → Bool
same_as t Option.none = false
same_as t (some u) = same_column_type u t

-- The loop of `schemaCastFromSchema` over the columns downstream.
unfoldable pub schema_columns_cast : SchemaColumns → SchemaColumns → Bool
unfolding schema_lookup
schema_columns_cast up [] = true
schema_columns_cast up ((k, t) ∷ cs) = same_as t (schema_lookup k up) && schema_columns_cast up cs

-- `schemaCastFromSchema`.
unfoldable pub schema_cast_from_schema : SchemaColumns → SchemaColumns → Bool
unfolding schema_columns_cast
schema_cast_from_schema up down =
    if is_empty up || is_empty down then true else schema_columns_cast up down

abbrev matches_schema : LiteralType → Option SchemaColumnType → Bool
matches_schema t Option.none = false
matches_schema t (some u) = schema_type_is_match_structured_dataset_type u (get_simple t)

unfoldable pub dataset_columns_cast : SchemaColumns → Columns → Bool
unfolding schema_lookup
dataset_columns_cast up Columns.no_columns = true
dataset_columns_cast up (Columns.column k t cs) =
    matches_schema t (schema_lookup k up) && dataset_columns_cast up cs

-- `structuredDatasetCastFromSchema`.
unfoldable pub structured_dataset_cast_from_schema : SchemaColumns → Columns → Bool
unfolding dataset_columns_cast
structured_dataset_cast_from_schema up down =
    if is_empty up || has_no_columns down then true else dataset_columns_cast up down

abbrev matches_dataset : SchemaColumnType → Option LiteralType → Bool
matches_dataset t Option.none = false
matches_dataset t (some u) = schema_type_is_match_structured_dataset_type t (get_simple u)

unfoldable pub schema_columns_cast_from_dataset : Columns → SchemaColumns → Bool
unfolding column_lookup
schema_columns_cast_from_dataset up [] = true
schema_columns_cast_from_dataset up ((k, t) ∷ cs) =
    matches_dataset t (column_lookup k up) && schema_columns_cast_from_dataset up cs

-- `schemaCastFromStructuredDataset`.
unfoldable pub schema_cast_from_structured_dataset : Columns → SchemaColumns → Bool
unfolding schema_columns_cast_from_dataset
schema_cast_from_structured_dataset up down =
    if has_no_columns up || is_empty down then true else schema_columns_cast_from_dataset up down
