-- ===== src/Cluster/Gather.antt =====
-- client.go, `ClusterClient.Run`: the goroutines of `StartRunner`, each in `receive` on its node's stream,
-- and `collectResults`, over the unbuffered channel `Results` and the counter `activeClients`. Streams end
-- without an error other than `io.EOF`, and all batches decode; `B` is the type of a batch.
pub mod Sent
pub mod Whole
pub mod Arrived
pub mod Once
pub mod Batches
pub mod Nodes
use loaderbot.Prelude.{ℕ, ◌-◌, ◌≡◌, Bool, List, [], ◌∷◌, ◌++◌, map, length, if◌then◌else◌}

-- Where a node's goroutine stands: at `Recv`, at `cluster.Results <- results`, returned.
pub data Place (B : Type 0) : Type 0 where
  receiving gone : Place B
  offering : B → Place B

-- `taken` are the batches that the client has had from this node, `coming` those still on the stream.
pub record Node (B : Type 0) : Type 0 where
  pub taken : List B
  pub place : Place B
  pub coming : List B

-- `collectResults` runs, has returned as no node is active, or has returned on a tick with too many
-- errors.
pub data Client : Type 0 where
  collecting finished stopped : Client

pub record Gathering (B : Type 0) : Type 0 where
  pub active_clients : ℕ
  pub nodes : List (Node B)
  pub client : Client
  -- What the client has received from all nodes, in order.
  pub arrived : List B

module _ {B : Type 0} where
  abbrev pub fresh_node : List B → Node B
  fresh_node stream = record { taken = []; place = receiving; coming = stream }

  -- After the loop that counts and starts the nodes.
  unfoldable pub gathering : List (List B) → Gathering B
  gathering streams = record {
    active_clients = length streams;
    nodes = map fresh_node streams;
    client = collecting;
    arrived = [];
  }

-- `stop`: with this batch a tick is full and has too many errors.
pub data Step {B : Type 0} (s : Gathering B) : Gathering B → Type 0 where
  receive_batch :
      (xs ys : List (Node B)) (n : Node B) (b : B) (rest : List B)
      → s.nodes ≡ xs ++ n ∷ ys
      → n.place ≡ receiving
      → n.coming ≡ b ∷ rest
      → Step s (record s { nodes = xs ++ record n { place = offering b; coming = rest } ∷ ys })
  end_stream :
      (xs ys : List (Node B)) (n : Node B)
      → s.nodes ≡ xs ++ n ∷ ys
      → n.place ≡ receiving
      → n.coming ≡ []
      → Step s (record s {
        active_clients = s.active_clients - 1;
        nodes = xs ++ record n { place = gone } ∷ ys;
      })
  hand_over :
      (xs ys : List (Node B)) (n : Node B) (b : B) (stop : Bool)
      → s.nodes ≡ xs ++ n ∷ ys
      → n.place ≡ offering b
      → s.client ≡ collecting
      → Step s (record s {
        nodes = xs ++ record n { taken = n.taken ++ b ∷ []; place = receiving } ∷ ys;
        client = if stop then stopped else collecting;
        arrived = s.arrived ++ b ∷ [];
      })
  see_no_one :
      s.client ≡ collecting → s.active_clients ≡ 0 → Step s (record s { client = finished })

pub data Reach {B : Type 0} (s : Gathering B) : Gathering B → Type 0 where
  here : Reach s s
  next : {u v : Gathering B} → Reach s u → Step u v → Reach s v
