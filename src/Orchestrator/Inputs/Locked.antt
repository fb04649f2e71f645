-- ===== src/Orchestrator/Inputs/Locked.antt =====
-- What the binder locks it has resolved.
use workfllow_execution.Prelude.{String, Bool, true, false, ◌≡◌, ◌≢◌, inl, inr, ◌∈◌, ◌⊎◌}
use workfllow_execution.Prelude.{none, List, [], ◌∷◌, lookup, insert}
use workfllow_execution.Prelude.{lookup-insert, if◌then◌else◌, arith, eq_iff}
use workfllow_execution.Errors.{ok, bind-eq-ok, ok-injective}
use mathlib.Core.Path.{subst}
use workfllow_execution.Json.{Json, Dict}
use workfllow_execution.Graph.{GraphNode, GraphInputBinding}
use workfllow_execution.Tables.{Tables}
use workfllow_execution.Orchestrator.Inputs.{
  ResolvedNodeInputs, add_binding, resolve_binding, resolve_bindings, resolve,
}

locked_now :
    (locked : Bool) (k j : String) (ks : List String)
    → k ∈ (if locked then j ∷ ks else ks)
    → (k ≡ j) ⊎ (k ∈ ks)
locked_now true k j ks m = m
locked_now false k j ks m = inr m

module _ {F : Type 0} where
  abbrev Covers : ResolvedNodeInputs F → Type 0
  Covers r = (k : String) → k ∈ r.locked_keys → lookup k r.values ≢ none

  still-there :
      (k j : String) (v : Json F) (d : Dict F) → lookup k d ≢ none → lookup k (insert j v d) ≢ none
  still-there k j v d h e = ground (arith, lookup-insert j k v d, h, e)

  now-there : (k j : String) (v : Json F) (d : Dict F) → k ≡ j → lookup k (insert j v d) ≢ none
  now-there k j v d h e = ground (arith, lookup-insert j k v d, eq_iff j k, eq_iff k j, h, e)

  Covers-add :
      (b : GraphInputBinding) (v : Json F) (r : ResolvedNodeInputs F)
      → Covers r
      → Covers (add_binding b v r)
  Covers-add b v r c k m = elim (locked_now b.locked k b.input_key r.locked_keys m) [
    | inl same ↦ now-there k b.input_key v r.values same
    | inr before ↦ still-there k b.input_key v r.values (c k before)
  ]

  resolve_bindings-Covers :
      (db : Tables F) (metadata : Dict F) (bs : List GraphInputBinding)
      (r out : ResolvedNodeInputs F)
      → resolve_bindings db metadata bs r ≡ ok out
      → Covers r
      → Covers out
  unfolding resolve_bindings
  resolve_bindings-Covers db metadata [] r out h c = subst Covers (ok-injective h) c
  resolve_bindings-Covers db metadata (b ∷ bs) r out h c =
      let (v, here, later) = bind-eq-ok (resolve_binding db metadata b) _ h in
      resolve_bindings-Covers db metadata bs (add_binding b v r) out later (Covers-add b v r c)

  -- Every key that the binder locks has a value among those that it resolved.
  pub resolve-locked :
      (db : Tables F) (node : GraphNode) (metadata : Dict F) (out : ResolvedNodeInputs F)
      (key : String)
      → resolve db node metadata ≡ ok out
      → key ∈ out.locked_keys
      → lookup key out.values ≢ none
  unfolding resolve
  resolve-locked db node metadata out key h m =
      resolve_bindings-Covers db metadata node.inputs (record { values = []; locked_keys = [] }) out
        h (λ k n. absurd n) key m
