-- ===== src/Propeller/Caching.antt =====
-- What the cache of resource versions keeps from the loop.
use flytepropeller.Prelude.{
  List, [], ◌∷◌, All, Option, ap, ◌∙◌, inl, inr, Bool-cases, lookup-delete, String, false, ◌≡◌,
  refl, none, some, Assoc, lookup, lookup-insert, str_eq, str_eq_refl,
}
use flytepropeller.Api.Error.{Result, ok, err}
use flytepropeller.Nodes.Engine.{World}
use flytepropeller.Propeller.Resource.{FlyteWorkflow, is_terminated}
use flytepropeller.Propeller.Store.{
  Store, Caching, err_stale_workflow_error, caused_by, resource_version_key, remember,
  update_revision_cache, is_resource_version_same_as_previous, caching_get, caching_update,
  caching_store, trim_managed_fields,
}
use flytepropeller.Propeller.Handler.{Propeller, Outside, Outcome, handle, handle_found}

module _ {K : Type 0} (inner : Store K) where
  -- The key of a resource.
  abbrev pub key_of : FlyteWorkflow → String
  key_of f = resource_version_key f.namespace f.name

  remember-lookup :
      (f new : FlyteWorkflow) (m : Assoc String)
      → str_eq new.resource_version f.resource_version ≡ false
      → is_terminated f ≡ false
      → lookup (key_of f) (remember inner f (ok (some new)) m) ≡ some f.resource_version
  unfolding remember update_revision_cache
  remember-lookup f new m h t =
      rw (h, t, lookup-insert (key_of f) (key_of f) f.resource_version m, str_eq_refl (key_of f))
        refl

  -- The updates of other resources, one after the other.
  unfoldable pub update_all : List FlyteWorkflow → Caching K → Caching K
  unfolding caching_update
  update_all [] s = s
  update_all (g ∷ gs) s = update_all gs (caching_update inner g s).0

  remember-other :
      (g : FlyteWorkflow) (r : Result (Option FlyteWorkflow)) (key : String) (m : Assoc String)
      → str_eq (key_of g) key ≡ false
      → lookup key (remember inner g r m) ≡ lookup key m
  unfolding remember update_revision_cache
  remember-other g (err e) key m h = refl
  remember-other g (ok none) key m h = refl
  remember-other g (ok (some new)) key m h =
      elim (Bool-cases (str_eq new.resource_version g.resource_version)) [
        | inl e ↦ rw (e, remember) refl
        | inr e ↦ elim (Bool-cases (is_terminated g)) [
          | inl t ↦ rw (e, t, lookup-delete (key_of g) key m, h) refl
          | inr t ↦ rw (e, t, lookup-insert (key_of g) key g.resource_version m, h) refl
        ]
      ]

  update_all-other :
      (gs : List FlyteWorkflow) (key : String) (s : Caching K)
      → All (λ g. str_eq (key_of g) key ≡ false) gs
      → lookup key (update_all gs s).last_updated ≡ lookup key s.last_updated
  unfolding update_all caching_update
  update_all-other [] key s h = refl
  update_all-other (g ∷ gs) key s (h, hs) =
      update_all-other gs key (caching_update inner g s).0 hs
      ∙ remember-other g (inner.update (trim_managed_fields g) s.w).1 key s.last_updated h

  stale_get :
      (f g : FlyteWorkflow) (m : Assoc String) (k : K)
      → lookup (key_of f) m ≡ some f.resource_version
      → inner.get f.namespace f.name k ≡ ok g
      → g.resource_version ≡ f.resource_version
      → caching_get inner f.namespace f.name (record { w = k; last_updated = m })
        ≡ err err_stale_workflow_error
  unfolding caching_get is_resource_version_same_as_previous
  stale_get f g m k l e v = rw (e, caching_get) (rw (l, v, str_eq_refl f.resource_version) refl)

  -- After an update that gave an unfinished resource a new version, and any updates of other
  -- resources: a call of `Handle` whose look-up still finds the version that was replaced, in
  -- whatever state the store below is, returns without an error and changes nothing. A second update
  -- of the resource itself is not covered: the cache keeps the last replaced version alone.
  pub handle-stale :
      (p : Propeller (Caching K)) (f new g : FlyteWorkflow) (gs : List FlyteWorkflow)
      (s : Caching K) (k : K) (v : World)
      → (inner.update (trim_managed_fields f) s.w).1 ≡ ok (some new)
      → str_eq new.resource_version f.resource_version ≡ false
      → is_terminated f ≡ false
      → All (λ h. str_eq (key_of h) (key_of f) ≡ false) gs
      → inner.get f.namespace f.name k ≡ ok g
      → g.resource_version ≡ f.resource_version
      → let o : Outside (Caching K) = record {
        store = record {
          w = k;
          last_updated = (update_all gs (caching_update inner f s).0).last_updated;
        };
        world = v;
      } in
        handle (record p { store = caching_store inner }) f.namespace f.name o
        ≡ (o, Outcome.returned none)
  unfolding handle handle_found caching_store caching_update caused_by
  handle-stale p f new g gs s k v u h t others e x =
      let known =
        update_all-other gs (key_of f) (caching_update inner f s).0 others
        ∙ ap (λ r. lookup (key_of f) (remember inner f r s.last_updated)) u
        ∙ remember-lookup f new s.last_updated h t in
      rw (stale_get f g (update_all gs (caching_update inner f s).0).last_updated k known e x) refl
