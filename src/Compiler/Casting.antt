-- ===== src/Compiler/Casting.antt =====
-- pkg/compiler/validators/typing.go: the checkers, and `AreTypesCastable`. The type downstream comes
-- first: it is the one that a checker is made for, and that the checkers go into.
pub mod Laws
use flytepropeller.Prelude.{
  String, Bool, true, false, not, ◌&&◌, ◌||◌, Option, none, some, List, str_eq, if◌then◌else◌,
}
use flytepropeller.Compiler.Types.{
  SimpleType, LiteralType, Columns, Variants, SchemaColumns, Texts, get_tag_for_type, without_tag,
  get_simple, is_string, is_enum, is_void, column_lookup, has_no_columns, schema_cast_from_schema,
  structured_dataset_cast_from_schema, schema_cast_from_structured_dataset,
}

-- Whether a test holds of every variant.
unfoldable pub every_variant : (LiteralType → Bool) → Variants → Bool
every_variant f Variants.no_variants = true
every_variant f (Variants.variant v vs) = f v && every_variant f vs

-- `GetCollectionType`, `GetMapValueType` and `GetUnionType`: nil for another type.
abbrev pub get_collection_type : LiteralType → Option LiteralType
get_collection_type (LiteralType.collection_type _ u) = some u
get_collection_type _ = none

abbrev pub get_map_value_type : LiteralType → Option LiteralType
get_map_value_type (LiteralType.map_value_type _ u) = some u
get_map_value_type _ = none

abbrev pub get_union_type : LiteralType → Option Variants
get_union_type (LiteralType.union_type _ us) = some us
get_union_type _ = none

-- Whether there is a type, and a test holds of it.
abbrev pub holds_of : (LiteralType → Bool) → Option LiteralType → Bool
holds_of f none = false
holds_of f (some u) = f u

module _ (x : Texts) where
  -- `trivialChecker.CastsFrom`.
  unfoldable pub trivial_casts_from : LiteralType → LiteralType → Bool
  trivial_casts_from down up =
      if is_enum up && is_string (get_simple down)
      then true
      else if is_enum down && is_string (get_simple up)
      then true
      else if not (str_eq (get_tag_for_type up) "")
          && not (str_eq (get_tag_for_type down) (get_tag_for_type up))
      then false
      else str_eq (x.render (without_tag up)) (x.render (without_tag down))

  -- `schemaTypeChecker.CastsFrom`.
  unfoldable pub schema_casts_from : SchemaColumns → LiteralType → Bool
  unfolding schema_cast_from_schema schema_cast_from_structured_dataset
  schema_casts_from down (LiteralType.schema _ cs) = schema_cast_from_schema cs down
  schema_casts_from down (LiteralType.structured_dataset_type _ f cs) =
      if x.equal_fold f "parquet" then schema_cast_from_structured_dataset cs down else false
  schema_casts_from down _ = false

  -- `structuredDatasetChecker.CastsFrom`, given the loop over the columns of another dataset.
  unfoldable pub dataset_casts_from : String → Columns → (Columns → Bool) → LiteralType → Bool
  unfolding structured_dataset_cast_from_schema
  dataset_casts_from f cs each (LiteralType.structured_dataset_type _ g us) =
      if x.equal_fold g f
      then if has_no_columns us || has_no_columns cs then true else each us
      else false
  dataset_casts_from f cs each (LiteralType.schema _ us) =
      if x.equal_fold f "parquet" then structured_dataset_cast_from_schema us cs else false
  dataset_casts_from f cs each up = is_void up

  unfoldable mutual
    unfolding trivial_casts_from schema_casts_from dataset_casts_from column_lookup every_variant

    -- `getTypeChecker` and `CastsFrom`, by the type downstream.
    pub casts_from : LiteralType → LiteralType → Bool
    casts_from (LiteralType.collection_type _ d) up =
        holds_of (λ u. casts_from d u) (get_collection_type up)
    casts_from (LiteralType.map_value_type _ d) up =
        holds_of (λ u. casts_from d u) (get_map_value_type up)
    casts_from (LiteralType.schema _ cs) up = schema_casts_from cs up
    casts_from (LiteralType.union_type _ ds) up = elim (get_union_type up) [
      | some us ↦ every_variant (λ u. some_casts_from ds u) us
      | none ↦ one_casts_from ds false up
    ]
    casts_from (LiteralType.structured_dataset_type _ f cs) up =
        dataset_casts_from f cs (λ us. each_column_casts_from cs us) up
    casts_from (LiteralType.simple t SimpleType.none) up = is_void up
    casts_from down up = trivial_casts_from down up

    -- The search for a variant downstream that a variant upstream can be cast to.
    pub some_casts_from : Variants → LiteralType → Bool
    some_casts_from Variants.no_variants u = false
    some_casts_from (Variants.variant d ds) u = casts_from d u || some_casts_from ds u

    -- The loop that wants one variant and no more; the flag is `foundOne`.
    pub one_casts_from : Variants → Bool → LiteralType → Bool
    one_casts_from Variants.no_variants found up = found
    one_casts_from (Variants.variant d ds) found up =
        let rest = one_casts_from ds (found || casts_from d up) up in
        if casts_from d up && found then false else rest

    -- The loop of `structuredDatasetCastFromStructuredDataset`.
    pub each_column_casts_from : Columns → Columns → Bool
    each_column_casts_from Columns.no_columns us = true
    each_column_casts_from (Columns.column k d cs) us =
        holds_of (λ u. casts_from d u) (column_lookup k us) && each_column_casts_from cs us

  -- `AreTypesCastable`.
  unfoldable pub are_types_castable : LiteralType → LiteralType → Bool
  unfolding casts_from
  are_types_castable up down = casts_from down up
