-- ===== src/Cluster/Gather/Whole.antt =====
-- The batches of each node (client.go, `ClusterClient.Run`).
use mathlib.Core.List.{append-nil, append_assoc}
use mathlib.Core.Path.{subst, ap₂}
use loaderbot.Prelude.{
  ℕ, ◌+◌, ◌≡◌, ◌≢◌, refl, sym, ap, ◌∙◌, ◌⊎◌, inl, inr, List, [], ◌∷◌, ◌++◌, map, length, arith, All,
}
use loaderbot.Cluster.Gather.{
  Place, receiving, offering, gone, Node, finished, Gathering, fresh_node, gathering, Step,
  receive_batch, end_stream, hand_over, see_no_one, Reach, here, next,
}

All-middle :
    {A : Type 0} (P : A → Type 0) (xs : List A) (n m : A) (ys : List A)
    → (P n → P m)
    → All P (xs ++ n ∷ ys)
    → All P (xs ++ m ∷ ys)
All-middle P [] n m ys f h = (f h.0, h.1)
All-middle P (x ∷ xs) n m ys f h = (h.0, All-middle P xs n m ys f h.1)

All-at :
    {A : Type 0} (P : A → Type 0) (xs : List A) (n : A) (ys : List A) → All P (xs ++ n ∷ ys) → P n
All-at P [] n ys h = h.0
All-at P (x ∷ xs) n ys h = All-at P xs n ys h.1

map-middle :
    {A C : Type 0} (f : A → C) (xs : List A) (n m : A) (ys : List A)
    → f n ≡ f m
    → map f (xs ++ n ∷ ys) ≡ map f (xs ++ m ∷ ys)
map-middle f [] n m ys e = ap (λ c. c ∷ map f ys) e
map-middle f (x ∷ xs) n m ys e = ap (◌∷◌ (f x)) (map-middle f xs n m ys e)

module _ {B : Type 0} where
  abbrev offered : Place B → List B
  offered (offering b) = b ∷ []
  offered _ = []

  -- All of the node's stream.
  abbrev whole : Node B → List B
  whole n = n.taken ++ (offered n.place ++ n.coming)

  abbrev counts : Place B → ℕ
  counts gone = 0
  counts _ = 1

  abbrev active : List (Node B) → ℕ
  active [] = 0
  active (n ∷ ns) = counts n.place + active ns

  -- A node that has left has nothing to come.
  abbrev IsDone : Place B → List B → Type 0
  IsDone gone coming = coming ≡ []
  IsDone _ coming = Unit

  abbrev IsSettled : Node B → Type 0
  IsSettled n = IsDone n.place n.coming

  record Inv (streams : List (List B)) (s : Gathering B) : Type 0 where
    kept : map whole s.nodes ≡ streams
    counted : s.active_clients ≡ active s.nodes
    settled : All IsSettled s.nodes
    ended : (s.client ≢ finished) ⊎ (s.active_clients ≡ 0)

  active-append : (xs ys : List (Node B)) → active (xs ++ ys) ≡ active xs + active ys
  active-append [] ys = omega arith
  active-append (x ∷ xs) ys = omega (arith, active-append xs ys)

  map-whole-fresh : (streams : List (List B)) → map whole (map fresh_node streams) ≡ streams
  map-whole-fresh [] = refl
  map-whole-fresh (x ∷ xs) = ap (◌∷◌ x) (map-whole-fresh xs)

  active-fresh : (streams : List (List B)) → active (map fresh_node streams) ≡ length streams
  active-fresh [] = refl
  active-fresh (x ∷ xs) = omega (arith, active-fresh xs)

  fresh-IsSettled : (streams : List (List B)) → All IsSettled (map fresh_node streams)
  fresh-IsSettled [] = tt
  fresh-IsSettled (x ∷ xs) = (tt, fresh-IsSettled xs)

  gathering-Inv : (streams : List (List B)) → Inv streams (gathering streams)
  unfolding gathering
  gathering-Inv streams = record {
    kept = map-whole-fresh streams;
    counted = sym (active-fresh streams);
    settled = fresh-IsSettled streams;
    ended = inl λ e. cc;
  }

  -- Node `n` becomes `m`, with the same stream.
  record Changes (s : Gathering B) (xs ys : List (Node B)) (n m : Node B) : Type 0 where
    at : s.nodes ≡ xs ++ n ∷ ys
    same : whole n ≡ whole m
    left : IsSettled m

  module _ {streams : List (List B)} {s : Gathering B} (h : Inv streams s) {xs ys : List (Node B)}
      {n m : Node B} (c : Changes s xs ys n m) where
    changed_kept : map whole (xs ++ m ∷ ys) ≡ streams
    changed_kept = sym (map-middle whole xs n m ys c.same) ∙ sym (ap (map whole) c.at) ∙ h.kept

    changed-IsSettled : All IsSettled (xs ++ m ∷ ys)
    changed-IsSettled =
        All-middle IsSettled xs n m ys (λ _. c.left) (subst (All IsSettled) c.at h.settled)

    changed_count : active (xs ++ m ∷ ys) + counts n.place ≡ s.active_clients + counts m.place
    changed_count =
        omega
          (arith, h.counted, ap active c.at, active-append xs (n ∷ ys), active-append xs (m ∷ ys))

  whole-received :
      (n : Node B) (b : B) (rest : List B)
      → n.place ≡ receiving
      → n.coming ≡ b ∷ rest
      → whole n ≡ whole (record n { place = offering b; coming = rest })
  whole-received n b rest p e = ap (λ q. n.taken ++ (offered q ++ n.coming)) p ∙ ap (◌++◌ n.taken) e

  whole-handed :
      (n : Node B) (b : B)
      → n.place ≡ offering b
      → whole n ≡ whole (record n { taken = n.taken ++ b ∷ []; place = receiving })
  whole-handed n b p =
      ap (λ q. n.taken ++ (offered q ++ n.coming)) p ∙ sym (append_assoc n.taken (b ∷ []) n.coming)

  whole-ended : (n : Node B) → n.place ≡ receiving → whole n ≡ whole (record n { place = gone })
  whole-ended n p = ap (λ q. n.taken ++ (offered q ++ n.coming)) p

  Step-Inv :
      {streams : List (List B)} {s u : Gathering B} → Step s u → Inv streams s → Inv streams u
  Step-Inv {s = s} (receive_batch xs ys n b rest e p q) h =
      let c : Changes s xs ys n (record n { place = offering b; coming = rest }) = record {
        at = e;
        same = whole-received n b rest p q;
        left = tt;
      } in
      record {
        kept = changed_kept h c;
        counted = let count = changed_count h c in ground (arith, count, p);
        settled = changed-IsSettled h c;
        ended = h.ended;
      }
  Step-Inv {s = s} (end_stream xs ys n e p q) h =
      let c : Changes s xs ys n (record n { place = gone }) = record {
        at = e;
        same = whole-ended n p;
        left = q;
      } in
      record {
        kept = changed_kept h c;
        counted = let count = changed_count h c in ground (arith, count, p);
        settled = changed-IsSettled h c;
        ended = ground (arith, h.ended);
      }
  Step-Inv {s = s} (hand_over xs ys n b stop e p g) h =
      let c : Changes s xs ys n (record n { taken = n.taken ++ b ∷ []; place = receiving }) =
        record { at = e; same = whole-handed n b p; left = tt } in
      record {
        kept = changed_kept h c;
        counted = let count = changed_count h c in ground (arith, count, p);
        settled = changed-IsSettled h c;
        ended = ground arith;
      }
  Step-Inv {s = s} (see_no_one g z) h = record {
    kept = h.kept;
    counted = h.counted;
    settled = h.settled;
    ended = inr z;
  }

  Reach-Inv :
      (streams : List (List B)) {s : Gathering B} → Reach (gathering streams) s → Inv streams s
  Reach-Inv streams here = gathering-Inv streams
  Reach-Inv streams (next r st) = Step-Inv st (Reach-Inv streams r)

  all_taken :
      (taken : List B) (p : Place B) (coming : List B)
      → counts p ≡ 0
      → IsDone p coming
      → taken ≡ taken ++ (offered p ++ coming)
  all_taken taken gone coming z h = sym (append-nil taken) ∙ ap (◌++◌ taken) (sym h)
  all_taken taken receiving coming z h = absurd (omega arith)
  all_taken taken (offering b) coming z h = absurd (omega arith)

  none_active :
      (ns : List (Node B)) → active ns ≡ 0 → All IsSettled ns → map (λ n. n.taken) ns ≡ map whole ns
  none_active [] z h = refl
  none_active (n ∷ ns) z h =
      let rest = none_active ns (omega arith) h.1 in
      ap₂ ◌∷◌ (all_taken n.taken n.place n.coming (omega arith) h.0) rest

  -- For any streams of the nodes and any interleaving: when `collectResults` returns as no node is active,
  -- it has taken every batch of every node, each node's in the order of its stream.
  pub all_batches_taken :
      (streams : List (List B)) {s : Gathering B}
      → Reach (gathering streams) s
      → s.client ≡ finished
      → map (λ n. n.taken) s.nodes ≡ streams
  all_batches_taken streams {s = s} r e =
      let h = Reach-Inv streams r in
      none_active s.nodes (ground (arith, h.ended, h.counted, e)) h.settled ∙ h.kept
