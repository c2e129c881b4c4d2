-- ===== src/Plan/Layers/Tracking.antt =====
-- The invariant of the main loop of `Layers`: `indegree` holds, for each node, how many of its
-- requirements are not done.
use sibyl.Prelude.{
  ◌≡◌, refl, ◌∙◌, String, true, false, ◌||◌, some, List, [], ◌∷◌, arith, contains, count, IsNodup,
  contains-eq-count_pos, length, eq_iff, eq_refl,
}
use sibyl.Prelude.Int.{pos}
use sibyl.Prelude.Maps.{GoMap, get, get_or, keys}
use sibyl.Plan.Graph.{Node, Index, Progress, ids, find_node, index_nodes, finish_node, finish}
use sibyl.Plan.Layers.Counts.{pending, length-pending-cons, length-pending-nil}
use sibyl.Plan.Layers.Degrees.{
  requests, requests_of_absent, requests_of_found, count-dependents, get-decrement, keys-decrement,
  indegree_of_found, keys-index_nodes,
}

abbrev pub no_index : Index
no_index = record { indegree = []; dependents = [] }

abbrev pub dependents_of : List Node → GoMap (List String)
dependents_of nodes = (index_nodes nodes no_index).dependents

pub record Tracks (nodes : List Node) (s : Progress) : Type 0 where
  pub same_keys : keys s.indegree ≡ ids nodes
  pub degrees :
      (k : String) (n : Node)
      → find_node nodes k ≡ some n
      → get s.indegree k ≡ some (pos (length (pending s.done n.requires)))

module _ (nodes : List Node) (nodup : IsNodup (ids nodes)) where
  count-dependents_of :
      (k r : String) → count k (get_or (dependents_of nodes) r []) ≡ requests k r nodes
  unfolding get
  count-dependents_of k r = omega (arith, count-dependents k r nodes no_index)

  -- The dependents of any ID are nodes.
  dependents_known :
      (r k : String)
      → contains (get_or (dependents_of nodes) r []) k ≡ true
      → contains (ids nodes) k ≡ true
  dependents_known r k h = ground (
    arith,
    contains-eq-count_pos (get_or (dependents_of nodes) r []) k,
    count-dependents_of k r,
    requests_of_absent k r nodes,
  )

  pub start-Tracks :
      Tracks nodes (record { indegree = (index_nodes nodes no_index).indegree; done = [] })
  unfolding keys
  start-Tracks = record {
    same_keys = keys-index_nodes nodes no_index nodup (λ k m. refl);
    degrees = λ k n f.
        ground (arith, indegree_of_found k nodes no_index n nodup f, length-pending-nil n.requires);
  }

  finish_one-Tracks :
      (id : String) (s : Progress)
      → Tracks nodes s
      → contains s.done id ≡ false
      → Tracks nodes (finish_node (dependents_of nodes) id s)
  finish_one-Tracks id s t fresh = record {
    same_keys =
        keys-decrement (get_or (dependents_of nodes) id []) s.indegree
          (λ k c. rw t.same_keys (dependents_known id k c))
        ∙ t.same_keys;
    degrees = λ k n f.
        get-decrement (get_or (dependents_of nodes) id []) s.indegree k
          (length (pending (id ∷ s.done) n.requires)) (length (pending s.done n.requires))
          (t.degrees k n f)
          (omega (
            arith,
            length-pending-cons s.done id n.requires fresh,
            count-dependents_of k id,
            requests_of_found k id nodes n nodup f,
          ));
  }

  pub finish-Tracks :
      (layer : List String) (s : Progress)
      → Tracks nodes s
      → IsNodup layer
      → ((k : String) → contains layer k ≡ true → contains s.done k ≡ false)
      → Tracks nodes (finish (dependents_of nodes) layer s)
  unfolding finish
  finish-Tracks [] s t u fresh = t
  finish-Tracks (id ∷ layer) s t u fresh =
      finish-Tracks layer (finish_node (dependents_of nodes) id s)
        (finish_one-Tracks id s t (fresh id (ground (arith, eq_refl id)))) u.1
        (λ k m. ground (arith, fresh k, u.0, eq_iff id k))

pub contains-done-finish :
    (deps : GoMap (List String)) (layer : List String) (s : Progress) (k : String)
    → contains (finish deps layer s).done k ≡ (contains layer k || contains s.done k)
unfolding finish
contains-done-finish deps [] s k = refl
contains-done-finish deps (id ∷ layer) s k =
    ground (arith, contains-done-finish deps layer (finish_node deps id s) k)
