-- ===== src/Plan/Layers/Degrees.antt =====
-- The maps `indegree` and `dependents` of `Layers`: what the first loop builds, and what the loop
-- over a layer keeps true of them.
use sibyl.Prelude.{
  ℕ, suc, ◌+◌, ◌≡◌, refl, sym, ◌∙◌, String, true, false, none, some, List, [], ◌∷◌, ◌++◌, arith,
  contains, count, count-append, IsNodup, contains-append, length, eq_iff, eq_refl, ◌==◌,
  if◌then◌else◌,
}
use sibyl.Prelude.Int.{ℤ, pos, dec_ℤ}
use sibyl.Prelude.Maps.{GoMap, get, put, get_or, keys, get-put, keys-put}
use sibyl.Plan.Graph.{
  Node, Index, ids, index_node, find_node, add_dependents, index_nodes, decrement,
}
use mathlib.Core.List.{append_assoc, append-nil}

-- How often the nodes with ID `k` require `r`.
abbrev pub requests : String → String → List Node → ℕ
requests k r [] = 0
requests k r (n ∷ ns) = (if n.id == k then count r n.requires else 0) + requests k r ns

count-add_dependents :
    (k id r : String) (reqs : List String) (deps : GoMap (List String))
    → count k (get_or (add_dependents id reqs deps) r [])
      ≡ count k (get_or deps r []) + (if id == k then count r reqs else 0)
unfolding add_dependents
count-add_dependents k id r [] deps = ground arith
count-add_dependents k id r (q ∷ reqs) deps = ground (
  arith,
  count-add_dependents k id r reqs (put deps q (get_or deps q [] ++ id ∷ [])),
  get-put deps q r (get_or deps q [] ++ id ∷ []),
  count-append k (get_or deps q []) (id ∷ []),
  eq_iff q r,
)

pub count-dependents :
    (k r : String) (ns : List Node) (s : Index)
    → count k (get_or (index_nodes ns s).dependents r [])
      ≡ count k (get_or s.dependents r []) + requests k r ns
unfolding index_nodes
count-dependents k r [] s = omega arith
count-dependents k r (n ∷ ns) s = ground (
  arith,
  count-dependents k r ns (index_node n s),
  count-add_dependents k n.id r n.requires s.dependents,
)

pub find_node-eq-none :
    (ns : List Node) (k : String) → contains (ids ns) k ≡ false → find_node ns k ≡ none
unfolding find_node
find_node-eq-none [] k h = refl
find_node-eq-none (m ∷ ns) k h = ground (arith, find_node-eq-none ns k)

pub requests_of_absent :
    (k r : String) (ns : List Node) → contains (ids ns) k ≡ false → requests k r ns ≡ 0
requests_of_absent k r [] h = refl
requests_of_absent k r (n ∷ ns) h = ground (arith, requests_of_absent k r ns)

pub requests_of_found :
    (k r : String) (ns : List Node) (n : Node)
    → IsNodup (ids ns)
    → find_node ns k ≡ some n
    → requests k r ns ≡ count r n.requires
unfolding find_node
requests_of_found k r [] n u f = cc
requests_of_found k r (m ∷ ns) n u f = ground (
  arith,
  requests_of_found k r ns n u.1,
  find_node-eq-none ns k,
  requests_of_absent k r ns,
  eq_iff m.id k,
)

indegree_of_absent :
    (k : String) (ns : List Node) (s : Index)
    → contains (ids ns) k ≡ false
    → get (index_nodes ns s).indegree k ≡ get s.indegree k
unfolding index_nodes
indegree_of_absent k [] s h = refl
indegree_of_absent k (n ∷ ns) s h = ground (
  arith,
  indegree_of_absent k ns (index_node n s),
  get-put s.indegree n.id k (pos (length n.requires)),
)

pub indegree_of_found :
    (k : String) (ns : List Node) (s : Index) (n : Node)
    → IsNodup (ids ns)
    → find_node ns k ≡ some n
    → get (index_nodes ns s).indegree k ≡ some (pos (length n.requires))
unfolding index_nodes find_node
indegree_of_found k [] s n u f = cc
indegree_of_found k (m ∷ ns) s n u f = ground (
  arith,
  indegree_of_found k ns (index_node m s) n u.1,
  indegree_of_absent k ns (index_node m s),
  get-put s.indegree m.id k (pos (length m.requires)),
  eq_iff m.id k,
)

-- New keys go to the end.
pub keys-index_nodes :
    (ns : List Node) (s : Index)
    → IsNodup (ids ns)
    → ((k : String) → contains (ids ns) k ≡ true → contains (keys s.indegree) k ≡ false)
    → keys (index_nodes ns s).indegree ≡ keys s.indegree ++ ids ns
unfolding index_nodes
keys-index_nodes [] s u h = sym (append-nil (keys s.indegree))
keys-index_nodes (n ∷ ns) s u h =
    rw (keys-index_nodes ns (index_node n s) u.1 fresh, added) (append_assoc (keys s.indegree) _ _)
  where
    added : keys (index_node n s).indegree ≡ keys s.indegree ++ n.id ∷ []
    added = ground (arith, keys-put s.indegree n.id (pos (length n.requires)), h n.id, eq_refl n.id)

    fresh :
        (k : String)
        → contains (ids ns) k ≡ true
        → contains (keys (index_node n s).indegree) k ≡ false
    fresh k m =
        rw added
          (ground (arith, contains-append (keys s.indegree) (n.id ∷ []) k, h k, u.0, eq_iff n.id k))

-- One visit of the body of the loop over the dependents.
abbrev lower : String → GoMap ℤ → GoMap ℤ
lower d m = put m d (dec_ℤ (get_or m d (pos 0)))

get-lower :
    (d : String) (m : GoMap ℤ) (k : String) (a b : ℕ)
    → get m k ≡ some (pos b)
    → b ≡ (if d == k then suc a else a)
    → get (lower d m) k ≡ some (pos a)
get-lower d m k a b h e = ground (arith, get-put m d k (dec_ℤ (get_or m d (pos 0))), eq_iff d k)

pub get-decrement :
    (ds : List String) (m : GoMap ℤ) (k : String) (a b : ℕ)
    → get m k ≡ some (pos b)
    → b ≡ a + count k ds
    → get (decrement ds m) k ≡ some (pos a)
unfolding decrement
get-decrement [] m k a b h e = ground arith
get-decrement (d ∷ ds) m k a b h e =
    get-decrement ds (lower d m) k a (a + count k ds)
      (get-lower d m k (a + count k ds) b h (ground arith)) refl

keys-lower : (d : String) (m : GoMap ℤ) → contains (keys m) d ≡ true → keys (lower d m) ≡ keys m
keys-lower d m h = rw (keys-put, h)

pub keys-decrement :
    (ds : List String) (m : GoMap ℤ)
    → ((k : String) → contains ds k ≡ true → contains (keys m) k ≡ true)
    → keys (decrement ds m) ≡ keys m
unfolding decrement
keys-decrement [] m h = refl
keys-decrement (d ∷ ds) m h =
    let step : keys (lower d m) ≡ keys m = keys-lower d m (h d (ground (arith, eq_refl d))) in
    keys-decrement ds (lower d m) (λ k c. rw step (h k (ground arith))) ∙ step
