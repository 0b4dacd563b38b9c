-- ===== src/Tasks/Registry.antt =====
-- pkg/controller/nodes/task/handler.go, `ResolvePlugin`: the plugin that runs a type of task.
use flytepropeller.Prelude.{
  String, false, Option, none, some, List, [], ◌∷◌, Assoc, lookup, is_empty, if◌then◌else◌,
}
use flytepropeller.Api.Error.{GoError, Result, ok, err}
use flytepropeller.Tasks.Session.{Plugin, Override, TaskHandler}

abbrev no_override : Override
no_override = record { plugin_ids = []; fail_if_missing = false }

abbrev override_or_none : Option Override → Override
override_or_none none = no_override
override_or_none (some o) = o

module _ {S : Type 0} where
  -- The first of the identifiers that is registered.
  unfoldable pub first_registered : Assoc (Plugin S) → List String → Option (Plugin S)
  unfolding lookup
  first_registered m [] = none
  first_registered m (i ∷ is) = elim (lookup i m) [ some p ↦ some p | none ↦ first_registered m is ]

  abbrev registered : Option (Assoc (Plugin S)) → Assoc (Plugin S)
  registered none = []
  registered (some m) = m

  module _ (h : TaskHandler S) where
    -- The plugin for a type that no override settles.
    unfoldable pub resolve_default : String → Result (Plugin S)
    unfolding lookup
    resolve_default ttype = elim (lookup ttype h.default_plugins) [
      | some p ↦ ok p
      | none ↦ elim h.default_plugin [
        | some p ↦ ok p
        | none ↦ err (GoError.coded "no plugin defined" ttype)
      ]
    ]

    unfoldable pub resolve_override : String → Override → Result (Plugin S)
    unfolding first_registered resolve_default lookup
    resolve_override ttype o =
        if is_empty o.plugin_ids
        then resolve_default ttype
        else elim (first_registered (registered (lookup ttype h.plugins_for_type)) o.plugin_ids) [
          | some p ↦ ok p
          | none ↦
              if o.fail_if_missing
              then err (GoError.coded "no matching plugin overrides" ttype)
              else resolve_default ttype
        ]

    -- `ResolvePlugin`.
    unfoldable pub resolve_plugin : Assoc Override → String → Result (Plugin S)
    unfolding resolve_override lookup
    resolve_plugin overrides ttype =
        resolve_override ttype (override_or_none (lookup ttype overrides))
