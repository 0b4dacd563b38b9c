-- ===== src/Examples/Types.antt =====
-- A map of datasets and a union.
use flytepropeller.Prelude.{true, ◌≡◌, refl, [], ◌∷◌, str_eq, str_eq_refl, ◌==◌}
use flytepropeller.Compiler.Types.{SimpleType, LiteralType, Columns, Variants, Texts, column_lookup}
use flytepropeller.Compiler.Casting.{are_types_castable}
use flytepropeller.Compiler.Casting.Laws.{
  IsWellFormed, are_types_castable_refl, acceptors, are_types_castable-union,
}

-- A text for a type, and formats compared as they are written.
abbrev texts : Texts
texts = record { render = λ _. "type"; equal_fold = str_eq }

abbrev dataset : LiteralType
dataset = LiteralType.map_value_type "" (
    LiteralType.structured_dataset_type "" "parquet" (
      Columns.column "id" (LiteralType.simple "" SimpleType.integer)
        (Columns.column "at" (LiteralType.simple "" SimpleType.datetime) Columns.no_columns)))

are_types_castable-refl_example : are_types_castable texts dataset dataset ≡ true
unfolding IsWellFormed column_lookup
are_types_castable-refl_example =
    are_types_castable_refl texts str_eq_refl dataset ((refl, (refl, tt)), (tt, (tt, tt)))

abbrev text_type : LiteralType
text_type = LiteralType.simple "" SimpleType.string

abbrev two : Variants
two =
    Variants.variant text_type
      (Variants.variant (LiteralType.enum_type "" ("a" ∷ [])) Variants.no_variants)

-- A text can be cast to both variants, and so to neither.
are_types_castable-union_example :
    are_types_castable texts text_type (LiteralType.union_type "" two)
    ≡ (acceptors texts two text_type == 1)
are_types_castable-union_example = are_types_castable-union texts text_type "" two refl
