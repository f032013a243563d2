-- ===== src/Cluster/Gather/Arrived.antt =====
-- What the client has received from all nodes together (client.go, `ClusterClient.Run`).
use loaderbot.Prelude.{
  ℕ, ◌+◌, ◌≡◌, refl, sym, ap, ◌∙◌, Bool, List, [], ◌∷◌, ◌++◌, map, length, select, arith,
}
use loaderbot.Prelude.Maps.{ℕ_eq}
use loaderbot.Cluster.Gather.{
  Node, finished, Gathering, fresh_node, gathering, Step, receive_batch, end_stream, hand_over,
  see_no_one, Reach, here, next,
}
use loaderbot.Cluster.Gather
use loaderbot.Cluster.Gather.Whole.{all_batches_taken}

module _ {B : Type 0} (p : B → Bool) where
  abbrev pub count : List B → ℕ
  count bs = length (select p bs)

  -- In all streams together.
  abbrev pub total : List (List B) → ℕ
  total [] = 0
  total (bs ∷ rest) = count bs + total rest

  abbrev taken_by : List (Node B) → ℕ
  taken_by ns = total (map (λ n. n.taken) ns)

  pub count-append : (xs ys : List B) → count (xs ++ ys) ≡ count xs + count ys
  count-append [] ys = omega arith
  count-append (x ∷ xs) ys = ground (arith, count-append xs ys)

  -- One node goes on.
  taken_move :
      (xs ys : List (Node B)) (n m : Node B)
      → taken_by (xs ++ n ∷ ys) + count m.taken ≡ taken_by (xs ++ m ∷ ys) + count n.taken
  taken_move [] ys n m = omega arith
  taken_move (x ∷ xs) ys n m = omega (arith, taken_move xs ys n m)

  moved :
      (s : Gathering B) (xs ys : List (Node B)) (n m : Node B) (b : B)
      → s.nodes ≡ xs ++ n ∷ ys
      → m.taken ≡ n.taken ++ b ∷ []
      → count s.arrived ≡ taken_by s.nodes
      → count (s.arrived ++ b ∷ []) ≡ taken_by (xs ++ m ∷ ys)
  moved s xs ys n m b e f h = omega (
    arith,
    h,
    ap taken_by e,
    ap count f,
    count-append s.arrived (b ∷ []),
    count-append n.taken (b ∷ []),
    taken_move xs ys n m,
  )

  Step-arrived :
      {s u : Gathering B}
      → Step s u
      → count s.arrived ≡ taken_by s.nodes
      → count u.arrived ≡ taken_by u.nodes
  Step-arrived {s = s} (receive_batch xs ys n b rest e _ _) h = omega (
    arith,
    h,
    ap taken_by e,
    taken_move xs ys n (record n { place = Gather.offering b; coming = rest }),
  )
  Step-arrived {s = s} (end_stream xs ys n e _ _) h =
      omega (arith, h, ap taken_by e, taken_move xs ys n (record n { place = Gather.gone }))
  Step-arrived {s = s} (hand_over xs ys n b stop e _ _) h =
      moved s xs ys n (record n { taken = n.taken ++ b ∷ []; place = Gather.receiving }) b e refl h
  Step-arrived (see_no_one _ _) h = h

  taken_by_fresh : (streams : List (List B)) → taken_by (map fresh_node streams) ≡ 0
  taken_by_fresh [] = refl
  taken_by_fresh (x ∷ xs) = omega (arith, taken_by_fresh xs)

  Reach-arrived :
      (streams : List (List B)) {s : Gathering B}
      → Reach (gathering streams) s
      → count s.arrived ≡ taken_by s.nodes
  unfolding gathering
  Reach-arrived streams here = sym (taken_by_fresh streams)
  Reach-arrived streams (next r st) = Step-arrived st (Reach-arrived streams r)

  -- At the end, what has arrived is what was streamed.
  pub all_arrived :
      (streams : List (List B)) {s : Gathering B}
      → Reach (gathering streams) s
      → s.client ≡ finished
      → count s.arrived ≡ total streams
  all_arrived streams r e = Reach-arrived streams r ∙ ap total (all_batches_taken streams r e)
