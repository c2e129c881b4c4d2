-- ===== src/Plan/Layers/Sound.antt =====
-- `Layers` returns a layering of the plan: each node once, behind its requirements.
use sibyl.Prelude.{
  ℕ, zero, suc, ◌-◌, ◌<◌, ◌≤◌, ◌≡◌, ◌≢◌, ◌⊎◌, refl, sym, ap, ◌∙◌, String, true, not, some, List, [],
  ◌∷◌, ◌++◌, arith, contains, count, count-append, contains-append, IsNodup, keep, length, All,
  flatten, All-of_contains, All-mono, Result, Result-cases, ok, err, inl, inr, ◌>>=◌,
}
use sibyl.Plan.Graph.{
  Node, Plan, PlanError, out_of_fuel, cycle_detected, Progress, ids, find_node, finish, layers_from,
  layers,
}
use sibyl.Plan.Layers.Tracking.{Tracks, start-Tracks, dependents_of, contains-done-finish}
use sibyl.Plan.Layers.Round.{
  unfinished, layer_of, next-Tracks, layer-ids, layer-ready, find_node_total,
  length-unfinished-next, count-unfinished-next,
}

-- The node with this ID has all of its requirements in `seen`.
abbrev pub IsReady : List Node → List String → String → Type 0
IsReady nodes seen id =
    (n : Node) × (find_node nodes id ≡ some n) × All (λ r. contains seen r ≡ true) n.requires

-- The nodes of a layer require only what is in `seen` and in the layers before it.
abbrev pub IsLayered : List Node → List String → List (List String) → Type 0
IsLayered nodes seen [] = Unit
IsLayered nodes seen (layer ∷ later) =
    All (IsReady nodes seen) layer × IsLayered nodes (layer ++ seen) later

-- What a run of the loop ends in: three cases.
pub layers_from_cases :
    (nodes : List Node) (fuel remaining : ℕ) (s : Progress)
    → let next = finish (dependents_of nodes) (layer_of s) s in
      let rest = layers_from (dependents_of nodes) fuel (remaining - length (layer_of s)) next in
      let result = layers_from (dependents_of nodes) (suc fuel) remaining s in
      (remaining ≡ 0) × (result ≡ ok [])
      ⊎ (0 < remaining) × (layer_of s ≡ []) × (result ≡ err (cycle_detected remaining))
      ⊎ (0 < remaining)
        × (0 < length (layer_of s))
        × (result ≡ (do later ← rest; ok (layer_of s ∷ later)))
unfolding layers_from
layers_from_cases nodes fuel remaining s = ground arith

-- The loop ends before its fuel, on any plan.
layers_from-ne-out_of_fuel :
    (nodes : List Node) (fuel remaining : ℕ) (s : Progress)
    → remaining ≤ fuel
    → layers_from (dependents_of nodes) fuel remaining s ≢ err out_of_fuel
unfolding layers_from
layers_from-ne-out_of_fuel nodes zero remaining s h = ground arith
layers_from-ne-out_of_fuel nodes (suc fuel) remaining s h =
    let next = finish (dependents_of nodes) (layer_of s) s in
    ground (
      arith,
      layers_from_cases nodes fuel remaining s,
      layers_from-ne-out_of_fuel nodes fuel (remaining - length (layer_of s)) next,
    )

-- The layering loop ends within as many rounds as the plan has nodes, on any plan.
pub layers-ne-out_of_fuel : (p : Plan) → layers p ≢ err out_of_fuel
unfolding layers
layers-ne-out_of_fuel p =
    layers_from-ne-out_of_fuel p.nodes (length p.nodes) (length p.nodes) _ (omega arith)

-- A run that succeeds stops with nothing left, or adds a layer to those of the other rounds.
pub layers_from-eq-ok :
    (nodes : List Node) (fuel remaining : ℕ) (s : Progress) {ls : List (List String)}
    → layers_from (dependents_of nodes) (suc fuel) remaining s ≡ ok ls
    → (remaining ≡ 0) × (ls ≡ [])
      ⊎ ((later : List (List String)) × (layers_from
              (dependents_of nodes)
              fuel
              (remaining - length (layer_of s))
              (finish (dependents_of nodes) (layer_of s) s)
            ≡ ok later)
          × (ls ≡ layer_of s ∷ later))
layers_from-eq-ok nodes fuel remaining s {ls} r = elim (Result-cases rest) [
  | inl (e, failed) ↦ inl (ground (arith, layers_from_cases nodes fuel remaining s))
  | inr (later, done) ↦ elim (layers_from_cases nodes fuel remaining s) [
    | inl (z, e) ↦ inl (z, ground arith)
    | inr (inl (_, _, e)) ↦ absurd (ground arith)
    | inr (inr (_, _, e)) ↦ inr (later, done, ground arith)
  ]
]
  where
    rest : Result PlanError (List (List String))
    rest =
        layers_from (dependents_of nodes) fuel (remaining - length (layer_of s))
          (finish (dependents_of nodes) (layer_of s) s)

layers_from_zero :
    (nodes : List Node) (remaining : ℕ) (s : Progress) (ls : List (List String))
    → layers_from (dependents_of nodes) 0 remaining s ≡ ok ls
    → (remaining ≡ 0) × (ls ≡ [])
unfolding layers_from
layers_from_zero nodes remaining s ls r = ground arith

count_of_empty : (k : String) (xs : List String) → 0 ≡ length xs → count k xs ≡ 0
count_of_empty k [] e = refl
count_of_empty k (x ∷ xs) e = absurd (omega arith)

module _ (nodes : List Node) (nodup : IsNodup (ids nodes)) where
  -- The layers hold what was unfinished, each ID as often.
  layers_from-count :
      (fuel remaining : ℕ) (s : Progress) (ls : List (List String))
      → Tracks nodes s
      → remaining ≡ length (unfinished nodes s)
      → layers_from (dependents_of nodes) fuel remaining s ≡ ok ls
      → (k : String) → count k (flatten ls) ≡ count k (unfinished nodes s)
  unfolding layers_from
  layers_from-count zero remaining s ls t e r k =
      let (z, nil) = layers_from_zero nodes remaining s ls r in
      rw nil (sym (count_of_empty k (unfinished nodes s) (omega arith)))
  layers_from-count (suc fuel) remaining s ls t e r k =
      elim (layers_from-eq-ok nodes fuel remaining s r) [
        | inl (z, nil) ↦ rw nil (sym (count_of_empty k (unfinished nodes s) (omega arith)))
        | inr (later, ran, cons) ↦
            rw (cons, count-append k (layer_of s) (flatten later))
              (omega (
                arith,
                count-unfinished-next nodes nodup s t k,
                layers_from-count fuel (remaining - length (layer_of s)) _ later
                    (next-Tracks nodes nodup s t)
                    (omega (arith, length-unfinished-next nodes nodup s t)) ran k,
              ))
      ]

  layer-IsReady :
      (s : Progress) (seen : List String)
      → Tracks nodes s
      → ((k : String) → contains s.done k ≡ true → contains seen k ≡ true)
      → All (IsReady nodes seen) (layer_of s)
  layer-IsReady s seen t e = All-of_contains _ (layer_of s) λ k m.
      let (n, f) = find_node_total nodes k (layer-ids nodes nodup s t k m) in
      (n, f, All-mono _ _ n.requires e (layer-ready nodes nodup s t k n m f))

  layers_from-IsLayered :
      (fuel remaining : ℕ) (s : Progress) (seen : List String) (ls : List (List String))
      → Tracks nodes s
      → ((k : String) → contains s.done k ≡ true → contains seen k ≡ true)
      → layers_from (dependents_of nodes) fuel remaining s ≡ ok ls
      → IsLayered nodes seen ls
  layers_from-IsLayered zero remaining s seen ls t e r =
      rw (layers_from_zero nodes remaining s ls r).1 tt
  layers_from-IsLayered (suc fuel) remaining s seen ls t e r =
      elim (layers_from-eq-ok nodes fuel remaining s r) [
        | inl (z, nil) ↦ rw nil tt
        | inr (later, ran, cons) ↦ rw cons (
          layer-IsReady s seen t e,
          layers_from-IsLayered fuel (remaining - length (layer_of s)) _ (layer_of s ++ seen) later
              (next-Tracks nodes nodup s t)
              (λ k d. ground (
                arith,
                e k,
                contains-append (layer_of s) seen k,
                contains-done-finish (dependents_of nodes) (layer_of s) s k,
              ))
              ran,
        )
      ]

pub keep_all : (xs : List String) → keep (λ k. not (contains [] k)) xs ≡ xs
keep_all [] = refl
keep_all (x ∷ xs) = ap (◌∷◌ x) (keep_all xs)

pub length-ids : (ns : List Node) → length (ids ns) ≡ length ns
length-ids [] = refl
length-ids (n ∷ ns) = omega (arith, length-ids ns)

-- With distinct IDs, the layers hold each node of the plan exactly once and nothing else.
pub count-layers :
    (p : Plan) (ls : List (List String)) (k : String)
    → IsNodup (ids p.nodes)
    → layers p ≡ ok ls
    → count k (flatten ls) ≡ count k (ids p.nodes)
unfolding layers
count-layers p ls k u r =
    layers_from-count p.nodes u (length p.nodes) (length p.nodes) _ ls (start-Tracks p.nodes u)
      (rw (keep_all (ids p.nodes)) (sym (length-ids p.nodes))) r k
    ∙ ap (count k) (keep_all (ids p.nodes))

-- With distinct IDs, a node stands in a later layer than all that it requires.
pub layers-IsLayered :
    (p : Plan) (ls : List (List String))
    → IsNodup (ids p.nodes)
    → layers p ≡ ok ls
    → IsLayered p.nodes [] ls
unfolding layers
layers-IsLayered p ls u r =
    layers_from-IsLayered p.nodes u (length p.nodes) (length p.nodes) _ [] ls
      (start-Tracks p.nodes u) (λ k d. d) r
