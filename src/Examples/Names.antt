-- ===== src/Examples/Names.antt =====
-- Names of outputs, printed and parsed.
use flytepropeller.Prelude.{◌≡◌, refl, some, none, List, [], ◌∷◌, bytes, All, ℕ_discrete, arith}
use flytepropeller.Api.Error.{Message, Message-discrete, ok}
use flytepropeller.Nodes.Bindings.{
  VarMap, lookup_var, Literal, Literals, BindingData, Sources, Binding, extract_output,
  resolve_binding_data, resolve_from, resolve,
}
use flytepropeller.Nodes.Bindings.Resolving.{value_or, last_binding, IsResolved, resolve_value}
use flytepropeller.Examples.Fixtures.{task_node}
use flytepropeller.Nodes.Bindings.VarName.{match_at, bad_matches, parse_var_name}
use flytepropeller.Nodes.Bindings.VarName.Laws.{print_var_name, parse_var_name-print_var_name}

indexed_name :
    parse_var_name (bytes "[12].out_1") ≡ record { idx = some 12; name = bytes "out_1"; err = none }
unfolding parse_var_name match_at
indexed_name = refl

two_names : parse_var_name (bytes "a-b") ≡ bad_matches
unfolding parse_var_name match_at
two_names = refl

no_dot : parse_var_name (bytes "[12]out") ≡ bad_matches
unfolding parse_var_name match_at
no_dot = refl

parse_var_name-print_var_name_example :
    parse_var_name (print_var_name (some 12) (bytes "out_1"))
    ≡ record { idx = some 12; name = bytes "out_1"; err = none }
parse_var_name-print_var_name_example =
    parse_var_name-print_var_name (some 12) (bytes "out_1")
      ((refl, (refl, (refl, (refl, (refl, tt))))), refl) (omega arith)

-- The outputs of `a`: a list under `array`.
abbrev outputs : VarMap Literal
outputs =
    (
      bytes "array",
      Literal.collection (
          Literals.and_then (Literal.scalar 5)
            (Literals.and_then (Literal.scalar 6) Literals.none_left)),
    )
    ∷ []

abbrev sources : Sources
sources = record {
  node = λ id. some (task_node id);
  output_alias = λ n. record { var = bytes "array"; alias = bytes "out" } ∷ [];
  output_dir = λ id. id;
  outputs_file = λ d. d;
  read_outputs = λ f. ok (some outputs);
}

abbrev bindings : List Binding
bindings =
    record { var = bytes "x"; binding = BindingData.scalar 1 }
    ∷ record { var = bytes "x"; binding = BindingData.promise "a" (bytes "[1].out") }
    ∷ []

abbrev inputs : VarMap Literal
inputs = (bytes "x", Literal.scalar 6) ∷ []

resolve_value_example :
    All (IsResolved (some sources) "n") bindings
    × ((v : Message) → lookup_var v inputs ≡ value_or (some sources) none (last_binding v bindings))
unfolding resolve resolve_from resolve_binding_data extract_output match_at Message-discrete
    ℕ_discrete
resolve_value_example = resolve_value (some sources) "n" bindings inputs refl
