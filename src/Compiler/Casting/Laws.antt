-- ===== src/Compiler/Casting/Laws.antt =====
-- Which types can be cast to themselves, and what a union accepts.
use flytepropeller.Prelude.{
  ℕ, ◌+◌, String, Bool, true, false, not, ◌&&◌, ◌||◌, ◌==◌, ◌≡◌, refl, sym, none, some, [], ◌∷◌,
  str_eq, str_eq_refl, if-both, and-cases, subst, arith, is_empty, if◌then◌else◌,
}
use flytepropeller.Compiler.Types.{
  SimpleType, SchemaColumnType, LiteralType, Columns, Variants, SchemaColumns, Texts,
  get_tag_for_type, without_tag, get_simple, is_string, is_enum, schema_lookup, column_lookup,
  has_no_columns, schema_columns_cast, schema_cast_from_schema, same_as,
}
use flytepropeller.Compiler.Casting.{
  every_variant, trivial_casts_from, schema_casts_from, dataset_casts_from, casts_from,
  get_union_type, are_types_castable, some_casts_from, one_casts_from, each_column_casts_from,
}

-- Every column of the first list is the one that its name finds in the second.
abbrev pub SchemaFinds : SchemaColumns → SchemaColumns → Type 0
SchemaFinds [] whole = Unit {0}
SchemaFinds ((k, t) ∷ cs) whole = (schema_lookup k whole ≡ some t) × SchemaFinds cs whole

abbrev pub Finds : Columns → Columns → Type 0
Finds Columns.no_columns whole = Unit {0}
Finds (Columns.column k d cs) whole = (column_lookup k whole ≡ some d) × Finds cs whole

-- No name of a column stands for two types, at any depth.
unfoldable mutual
  pub IsWellFormed : LiteralType → Type 0
  IsWellFormed (LiteralType.collection_type _ d) = IsWellFormed d
  IsWellFormed (LiteralType.map_value_type _ d) = IsWellFormed d
  IsWellFormed (LiteralType.schema _ cs) = SchemaFinds cs cs
  IsWellFormed (LiteralType.structured_dataset_type _ _ cs) = Finds cs cs × ColumnsAreWellFormed cs
  IsWellFormed (LiteralType.union_type _ vs) = VariantsAreWellFormed vs
  IsWellFormed _ = Unit {0}

  pub ColumnsAreWellFormed : Columns → Type 0
  ColumnsAreWellFormed Columns.no_columns = Unit {0}
  ColumnsAreWellFormed (Columns.column _ d cs) = IsWellFormed d × ColumnsAreWellFormed cs

  pub VariantsAreWellFormed : Variants → Type 0
  VariantsAreWellFormed Variants.no_variants = Unit {0}
  VariantsAreWellFormed (Variants.variant v vs) = IsWellFormed v × VariantsAreWellFormed vs

every_variant_mono :
    (f g : LiteralType → Bool) (us : Variants)
    → ((u : LiteralType) → f u ≡ true → g u ≡ true)
    → every_variant f us ≡ true
    → every_variant g us ≡ true
unfolding every_variant
every_variant_mono f g Variants.no_variants k h = refl
every_variant_mono f g (Variants.variant u us) k h =
    let (a, b) = and-cases (f u) (every_variant f us) h in
    rw (k u a, every_variant_mono f g us k b) refl

or-true : (a b : Bool) → b ≡ true → (a || b) ≡ true
or-true true b h = refl
or-true false b h = h

same_as_refl : (t : SchemaColumnType) → same_as t (some t) ≡ true
same_as_refl t = ground arith

schema_columns_refl :
    (cs whole : SchemaColumns) → SchemaFinds cs whole → schema_columns_cast whole cs ≡ true
unfolding schema_columns_cast
schema_columns_refl [] whole h = refl
schema_columns_refl ((k, t) ∷ cs) whole (e, h) =
    rw (e, same_as_refl t, schema_columns_refl cs whole h) refl

module _ (x : Texts) where
  trivial_refl : (d : LiteralType) → trivial_casts_from x d d ≡ true
  unfolding trivial_casts_from
  trivial_refl d =
      if-both (λ b. b ≡ true) (is_enum d && is_string (get_simple d)) refl
        (if-both (λ b. b ≡ true) (is_enum d && is_string (get_simple d)) refl
          (tagged (not (str_eq (get_tag_for_type d) ""))))
    where
      tagged :
          (b : Bool)
          → (if b && not (str_eq (get_tag_for_type d) (get_tag_for_type d))
              then false
              else str_eq (x.render (without_tag d)) (x.render (without_tag d)))
            ≡ true
      tagged true =
          rw (str_eq_refl (get_tag_for_type d), str_eq_refl (x.render (without_tag d))) refl
      tagged false = str_eq_refl (x.render (without_tag d))

  simple_refl :
      (t : String) (s : SimpleType)
      → casts_from x (LiteralType.simple t s) (LiteralType.simple t s) ≡ true
  unfolding casts_from
  simple_refl t SimpleType.none = refl
  simple_refl t SimpleType.integer = trivial_refl (LiteralType.simple t SimpleType.integer)
  simple_refl t SimpleType.float = trivial_refl (LiteralType.simple t SimpleType.float)
  simple_refl t SimpleType.string = trivial_refl (LiteralType.simple t SimpleType.string)
  simple_refl t SimpleType.boolean = trivial_refl (LiteralType.simple t SimpleType.boolean)
  simple_refl t SimpleType.datetime = trivial_refl (LiteralType.simple t SimpleType.datetime)
  simple_refl t SimpleType.duration = trivial_refl (LiteralType.simple t SimpleType.duration)
  simple_refl t SimpleType.binary = trivial_refl (LiteralType.simple t SimpleType.binary)
  simple_refl t SimpleType.error = trivial_refl (LiteralType.simple t SimpleType.error)
  simple_refl t SimpleType.struct = trivial_refl (LiteralType.simple t SimpleType.struct)

  module _ (folds : (f : String) → x.equal_fold f f ≡ true) where
    mutual
      unfolding casts_from IsWellFormed schema_casts_from dataset_casts_from schema_cast_from_schema
          every_variant

      casts_from_refl : (d : LiteralType) → IsWellFormed d → casts_from x d d ≡ true
      casts_from_refl (LiteralType.unset t) h = trivial_refl (LiteralType.unset t)
      casts_from_refl (LiteralType.simple t s) h = simple_refl t s
      casts_from_refl (LiteralType.enum_type t vs) h = trivial_refl (LiteralType.enum_type t vs)
      casts_from_refl (LiteralType.blob t b) h = trivial_refl (LiteralType.blob t b)
      casts_from_refl (LiteralType.collection_type t d) h = casts_from_refl d h
      casts_from_refl (LiteralType.map_value_type t d) h = casts_from_refl d h
      casts_from_refl (LiteralType.schema t cs) h =
          if-both (λ b. b ≡ true) (is_empty cs || is_empty cs) refl (schema_columns_refl cs cs h)
      casts_from_refl (LiteralType.union_type t vs) h = variants_refl vs h
      casts_from_refl (LiteralType.structured_dataset_type t f cs) (h, k) = rw (folds f) (
          if-both (λ b. b ≡ true) (has_no_columns cs || has_no_columns cs) refl
            (columns_refl cs cs h k))

      variants_refl :
          (vs : Variants)
          → VariantsAreWellFormed vs
          → every_variant (λ u. some_casts_from x vs u) vs ≡ true
      variants_refl Variants.no_variants h = refl
      variants_refl (Variants.variant v vs) (h, k) =
          rw
            (
              casts_from_refl v h,
              every_variant_mono (λ u. some_casts_from x vs u)
                  (λ u. casts_from x v u || some_casts_from x vs u) vs
                  (λ u e. or-true (casts_from x v u) (some_casts_from x vs u) e)
                  (variants_refl vs k),
            )
            refl

      columns_refl :
          (cs whole : Columns)
          → Finds cs whole
          → ColumnsAreWellFormed cs
          → each_column_casts_from x cs whole ≡ true
      columns_refl Columns.no_columns whole f h = refl
      columns_refl (Columns.column k d cs) whole (e, f) (h, hs) =
          rw (e, casts_from_refl d h, columns_refl cs whole f hs) refl

    -- Every type whose columns have names of their own can be cast to itself, where the comparison
    -- of formats holds of a text and itself.
    pub are_types_castable_refl :
        (d : LiteralType) → IsWellFormed d → are_types_castable x d d ≡ true
    unfolding are_types_castable
    are_types_castable_refl d h = casts_from_refl d h

  -- How many variants a type can be cast to.
  unfoldable pub acceptors : Variants → LiteralType → ℕ
  acceptors Variants.no_variants up = 0
  acceptors (Variants.variant d ds) up =
      let rest = acceptors ds up in if are_types_castable x up d then rest + 1 else rest

  none-step :
      (b r : Bool) (n : ℕ)
      → r ≡ (n == 0)
      → (if b && true then false else r) ≡ ((if b then n + 1 else n) == 0)
  none-step true r n h = ground arith
  none-step false r n h = h

  one-step :
      (b : Bool) (f : Bool → Bool) (n : ℕ)
      → f true ≡ (n == 0)
      → f false ≡ (n == 1)
      → (if b && false then false else f b) ≡ ((if b then n + 1 else n) == 1)
  one-step true f n h k = rw h (ground arith)
  one-step false f n h k = k

  one-none :
      (ds : Variants) (up : LiteralType) → one_casts_from x ds true up ≡ (acceptors ds up == 0)
  unfolding casts_from acceptors are_types_castable
  one-none Variants.no_variants up = refl
  one-none (Variants.variant d ds) up =
      none-step (casts_from x d up) (one_casts_from x ds true up) (acceptors ds up) (one-none ds up)

  one-one :
      (ds : Variants) (up : LiteralType) → one_casts_from x ds false up ≡ (acceptors ds up == 1)
  unfolding casts_from acceptors are_types_castable
  one-one Variants.no_variants up = refl
  one-one (Variants.variant d ds) up =
      one-step (casts_from x d up) (λ b. one_casts_from x ds b up) (acceptors ds up)
        (one-none ds up) (one-one ds up)

  -- A type that is not a union can be cast to a union exactly if it can be cast to one of its
  -- variants and to no other.
  pub are_types_castable-union :
      (up : LiteralType) (tag : String) (ds : Variants)
      → get_union_type up ≡ none
      → are_types_castable x up (LiteralType.union_type tag ds) ≡ (acceptors ds up == 1)
  unfolding are_types_castable casts_from
  are_types_castable-union up tag ds h =
      subst
        (λ o.
          (elim o as (λ _. Bool) [
            | some us ↦ every_variant (λ u. some_casts_from x ds u) us
            | none ↦ one_casts_from x ds false up
          ])
          ≡ (acceptors ds up == 1))
        (sym h) (one-one ds up)
