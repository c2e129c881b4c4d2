-- ===== src/Plan/Layers/Round.antt =====
-- One round of the main loop of `Layers`: which nodes are runnable, and what is left after them.
use sibyl.Prelude.{
  ◌+◌, ◌≡◌, ap, ◌∙◌, String, Bool, true, false, not, ◌&&◌, some, List, [], ◌∷◌, arith, contains,
  count, IsNodup, keep, IsNodup-keep, contains-keep, length, All, All-of_contains, ◌==◌, Bool-cases,
  inl, inr,
}
use sibyl.Prelude.Int.{pos, is_zero}
use sibyl.Prelude.Maps.{get_or}
use sibyl.Prelude.Sorting.{sort, contains-sort, count-sort, length-sort, IsNodup-sort}
use sibyl.Plan.Graph.{Node, Progress, ids, find_node, runnable, finish}
use sibyl.Plan.Layers.Counts.{
  pending-eq-nil, pending_of_done, length-keep_split, count-keep_split, Splits,
}
use sibyl.Plan.Layers.Tracking.{Tracks, dependents_of, finish-Tracks, contains-done-finish}

pub find_node_total :
    (ns : List Node) (k : String)
    → contains (ids ns) k ≡ true
    → (n : Node) × (find_node ns k ≡ some n)
unfolding find_node
find_node_total [] k h = cc
find_node_total (n ∷ ns) k h = elim (Bool-cases (n.id == k)) [
  | inl here ↦ (n, rw here)
  | inr other ↦ let (m, f) = find_node_total ns k (ground arith) in (m, rw other f)
]

-- The nodes that no layer holds yet.
abbrev pub unfinished : List Node → Progress → List String
unfinished nodes s = keep (λ k. not (contains s.done k)) (ids nodes)

abbrev pub layer_of : Progress → List String
layer_of s = sort (runnable s)

module _ (nodes : List Node) (nodup : IsNodup (ids nodes)) (s : Progress) (t : Tracks nodes s) where
  abbrev next : Progress
  next = finish (dependents_of nodes) (layer_of s) s

  is_runnable : (k : String) → Bool
  is_runnable k = is_zero (get_or s.indegree k (pos 0)) && not (contains s.done k)

  runnable-eq : runnable s ≡ keep is_runnable (ids nodes)
  unfolding runnable is_runnable
  runnable-eq = ap (keep is_runnable) t.same_keys

  contains-layer :
      (k : String) → contains (layer_of s) k ≡ (contains (ids nodes) k && is_runnable k)
  contains-layer k =
      contains-sort (runnable s) k
      ∙ ap (λ xs. contains xs k) runnable-eq
      ∙ contains-keep is_runnable (ids nodes) k

  pub layer-fresh : (k : String) → contains (layer_of s) k ≡ true → contains s.done k ≡ false
  unfolding is_runnable
  layer-fresh k h = ground (arith, contains-layer k)

  pub layer-ids : (k : String) → contains (layer_of s) k ≡ true → contains (ids nodes) k ≡ true
  layer-ids k h = ground (arith, contains-layer k)

  -- The requirements of a node of the layer are done.
  pub layer-ready :
      (k : String) (n : Node)
      → contains (layer_of s) k ≡ true
      → find_node nodes k ≡ some n
      → All (λ r. contains s.done r ≡ true) n.requires
  unfolding is_runnable
  layer-ready k n h f =
      pending-eq-nil s.done n.requires (ground (arith, contains-layer k, t.degrees k n f))

  -- A node that is not done, whose requirements are, is in the layer.
  pub mem-layer_of_ready :
      (k : String) (n : Node)
      → find_node nodes k ≡ some n
      → contains (ids nodes) k ≡ true
      → contains s.done k ≡ false
      → All (λ r. contains s.done r ≡ true) n.requires
      → contains (layer_of s) k ≡ true
  unfolding is_runnable
  mem-layer_of_ready k n f m fresh ready =
      ground (arith, contains-layer k, t.degrees k n f, pending_of_done s.done n.requires ready)

  pub next-Tracks : Tracks nodes next
  next-Tracks =
      finish-Tracks nodes nodup (layer_of s) s t
        (IsNodup-sort (runnable s) (rw runnable-eq (IsNodup-keep is_runnable (ids nodes) nodup)))
        layer-fresh

  splits :
      (k : String)
      → contains (ids nodes) k ≡ true
      → Splits (λ k. not (contains s.done k)) is_runnable (λ k. not (contains next.done k)) k
  unfolding is_runnable
  splits k m =
      ground (arith, contains-layer k, contains-done-finish (dependents_of nodes) (layer_of s) s k)

  All-split :
      All
        (Splits (λ k. not (contains s.done k)) is_runnable (λ k. not (contains next.done k)))
        (ids nodes)
  All-split = All-of_contains _ (ids nodes) splits

  pub length-unfinished-next :
      length (unfinished nodes s) ≡ length (layer_of s) + length (unfinished nodes next)
  length-unfinished-next = omega (
    arith,
    length-keep_split (λ k. not (contains s.done k)) is_runnable (λ k. not (contains next.done k))
        (ids nodes) All-split,
    length-sort (runnable s),
    ap length runnable-eq,
  )

  pub count-unfinished-next :
      (k : String)
      → count k (unfinished nodes s) ≡ count k (layer_of s) + count k (unfinished nodes next)
  count-unfinished-next k = omega (
    arith,
    count-keep_split (λ k. not (contains s.done k)) is_runnable (λ k. not (contains next.done k)) k
        (ids nodes) All-split,
    count-sort k (runnable s),
    ap (count k) runnable-eq,
  )
