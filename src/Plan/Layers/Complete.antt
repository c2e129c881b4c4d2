-- ===== src/Plan/Layers/Complete.antt =====
-- `Layers` fails on cyclic plans only.
use sibyl.Prelude.{
  ℕ, zero, suc, ◌-◌, ◌<◌, ◌≤◌, ◌≡◌, ◌⊎◌, sym, ap, subst, ◌∙◌, String, true, false, some, List, [],
  ◌∷◌, ◌++◌, arith, contains, contains-append, IsNodup, keep-eq-nil, length, All, All-mono,
  All-of_contains, All-get, Bool-cases, ok, inl, inr, if◌then◌else◌, leb, flatten,
}
use mathlib.Core.Bool.{false≢true}
use sibyl.Plan.Options.{Options}
use sibyl.Plan.Graph.{Node, Progress, ids, find_node, layers_from, layers}
use sibyl.Plan.Layers.Tracking.{Tracks, start-Tracks, dependents_of}
use sibyl.Plan.Layers.Round.{
  unfinished, layer_of, next-Tracks, mem-layer_of_ready, find_node_total, length-unfinished-next,
}
use sibyl.Plan.Layers.Sound.{layers_from_cases, keep_all, length-ids, IsReady, IsLayered}

-- The requirements of every node are nodes, and `rank` puts them below it: there is no cycle.
pub record IsRanked (rank : String → ℕ) (nodes : List Node) : Type 0 where
  pub known :
      (k : String) (n : Node)
      → find_node nodes k ≡ some n
      → All (λ r. contains (ids nodes) r ≡ true) n.requires
  pub below :
      (k : String) (n : Node) → find_node nodes k ≡ some n → All (λ r. rank r < rank k) n.requires

-- Requirements below `bound` are done if those that are not have a rank of `b` or more.
done_of_low :
    (nodes : List Node) (rank : String → ℕ) (done : List String) (b bound : ℕ) (rs : List String)
    → bound ≤ b
    → ((r : String) → contains (ids nodes) r ≡ true → contains done r ≡ false → b ≤ rank r)
    → All (λ r. contains (ids nodes) r ≡ true) rs
    → All (λ r. rank r < bound) rs
    → All (λ r. contains done r ≡ true) rs
done_of_low nodes rank done b bound [] le low known below = tt
done_of_low nodes rank done b bound (r ∷ rs) le low known below =
    (ground (arith, low r known.0), done_of_low nodes rank done b bound rs le low known.1 below.1)

module _ (nodes : List Node) (nodup : IsNodup (ids nodes)) (rank : String → ℕ)
    (ranked : IsRanked rank nodes) where
  module _ (s : Progress) (t : Tracks nodes s) (idle : layer_of s ≡ []) where
    -- If no node is runnable, none that is unfinished has a least rank.
    descent :
        (b : ℕ) (k : String)
        → contains (ids nodes) k ≡ true
        → contains s.done k ≡ false
        → b ≤ rank k
    descent zero k m fresh = omega arith
    descent (suc b) k m fresh =
        let (n, f) = find_node_total nodes k m in
        elim (Bool-cases (leb (suc b) (rank k))) [
          | inl far ↦ ground arith
          | inr near ↦
              let ready : All (λ r. contains s.done r ≡ true) n.requires =
                done_of_low nodes rank s.done b (rank k) n.requires (ground arith) (descent b)
                  (ranked.known k n f) (ranked.below k n f) in
              absurd (
                false≢true (
                  sym (ap (λ xs. contains xs k) idle)
                  ∙ mem-layer_of_ready nodes nodup s t k n f m fresh ready))
        ]

    unfinished_idle : unfinished nodes s ≡ []
    unfinished_idle = keep-eq-nil _ (ids nodes) (
        All-of_contains _ (ids nodes) λ k m. elim (Bool-cases (contains s.done k)) [
          | inl is_done ↦ rw is_done
          | inr fresh ↦ absurd (omega (arith, descent (suc (rank k)) k m fresh))
        ])

  -- With enough fuel the loop succeeds.
  layers_from_ok :
      (fuel remaining : ℕ) (s : Progress)
      → Tracks nodes s
      → remaining ≡ length (unfinished nodes s)
      → remaining ≤ fuel
      → (ls : List (List String)) × (layers_from (dependents_of nodes) fuel remaining s ≡ ok ls)
  unfolding layers_from
  layers_from_ok zero remaining s t e h = ([], ground arith)
  layers_from_ok (suc fuel) remaining s t e h = elim (layers_from_cases nodes fuel remaining s) [
    | inl (z, r) ↦ ([], r)
    | inr (inl (some_left, idle, r)) ↦ absurd (omega (arith, ap length (unfinished_idle s t idle)))
    | inr (inr (some_left, progress, r)) ↦
        let (later, ran) =
          layers_from_ok fuel (remaining - length (layer_of s)) _ (next-Tracks nodes nodup s t)
            (omega (arith, length-unfinished-next nodes nodup s t)) (omega arith) in
        (layer_of s ∷ later, rw (r, ran))
  ]

  pub layers_ok :
      (defaults : Options)
      → (ls : List (List String)) × (layers (record { nodes = nodes; defaults = defaults }) ≡ ok ls)
  unfolding layers
  layers_ok defaults =
      layers_from_ok (length nodes) (length nodes) _ (start-Tracks nodes nodup)
        (rw (keep_all (ids nodes)) (sym (length-ids nodes))) (omega arith)

-- The number of the layer that holds `k`.
abbrev pub layer_index : List (List String) → String → ℕ
layer_index [] k = 0
layer_index (layer ∷ later) k =
    let deeper = suc (layer_index later k) in if contains layer k then 0 else deeper

-- In a layering, a requirement has a lower layer than the node.
pub layer_index-lt :
    (nodes : List Node) (seen : List String) (ls : List (List String)) (k : String) (n : Node)
    → IsLayered nodes seen ls
    → contains (flatten ls) k ≡ true
    → find_node nodes k ≡ some n
    → All (λ r. (contains seen r ≡ true) ⊎ (layer_index ls r < layer_index ls k)) n.requires
layer_index-lt nodes seen [] k n h m f = cc
layer_index-lt nodes seen (l ∷ ls) k n h m f = elim (Bool-cases (contains l k)) [
  | inl here ↦
      let (n', f', ready) = All-get (IsReady nodes seen) l k here h.0 in
      let same : n' ≡ n = cc in
      All-mono _ _ n.requires (λ r s. inl s)
        (subst (λ (o : Node). All (λ r. contains seen r ≡ true) o.requires) same ready)
  | inr there ↦
      All-mono _ _ n.requires (λ r c. ground (arith, c, contains-append l seen r))
        (layer_index-lt nodes (l ++ seen) ls k n h.1
          (ground (arith, contains-append l (flatten ls) k)) f)
]
