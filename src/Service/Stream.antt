-- ===== src/Service/Stream.antt =====
-- From a node's runner to the cluster client: `streamResults` of service.go, and `receive` of client.go.
use mathlib.Core.List.{append-nil, append_assoc}
use loaderbot.Prelude.{
  ◌≡◌, refl, sym, ◌∙◌, Bool, true, false, Option, none, some, List, [], ◌∷◌, ◌++◌, map,
}
use loaderbot.Prelude.Int.{pos, ◌-ℤ◌}
use loaderbot.Result.{AttackResult}
use loaderbot.Outcome.{returned}
use loaderbot.Cluster.{no_error, eof, Received, Receiver, leave, receive}

-- What `range r.OutResults` yields: a batch, and whether `Failed` is 1 when it has been sent. (The
-- collector adds to `Failed`, which passes 1 when a second tick fails.)
pub record Chunk : Type 0 where
  pub samples : List AttackResult
  pub failed_once : Bool

-- What the loop does: a message, or `CancelFunc()`. Errors of the encoder and of `Send` are only logged.
pub data Effect (Bytes : Type 0) : Type 0 where
  send : Bytes → Effect Bytes
  cancel : Effect Bytes

abbrev pub cancel_if : {Bytes : Type 0} → Bool → List (Effect Bytes)
cancel_if true = cancel ∷ []
cancel_if false = []

module _ {Bytes : Type 0} (encode : List AttackResult → Bytes) where
  unfoldable pub stream_results : List Chunk → List (Effect Bytes)
  stream_results [] = []
  stream_results (c ∷ cs) = send (encode c.samples) ∷ (cancel_if c.failed_once ++ stream_results cs)

module _ {Bytes : Type 0} where
  -- The messages as the client receives them, if none is lost, until the stream ends.
  unfoldable pub delivered : List (Effect Bytes) → List (Received Bytes)
  delivered [] = record { chunk = none; err = eof } ∷ []
  delivered (send b ∷ es) = record { chunk = some b; err = no_error } ∷ delivered es
  delivered (cancel ∷ es) = delivered es

module _ {Bytes : Type 0} (encode : List AttackResult → Bytes)
    (decode : Bytes → Option (List AttackResult))
    (round_trip : (b : List AttackResult) → decode (encode b) ≡ some b) where
  delivered-cancel_if :
      (b : Bool) (es : List (Effect Bytes)) → delivered (cancel_if b ++ es) ≡ delivered es
  unfolding delivered
  delivered-cancel_if true es = refl
  delivered-cancel_if false es = refl

  -- If the decoder reads back what the encoder writes, and the stream delivers each message and then
  -- its end, the client's `receive` returns: it has passed on every batch that the node's runner sent
  -- out, whole and in order, after those that were there, and has counted the node as gone, once.
  pub receive-stream_results :
      (r : Receiver) (cs : List Chunk)
      → receive decode r (delivered (stream_results encode cs))
        ≡ returned (record {
          active_clients = r.active_clients -ℤ pos 1;
          batches = r.batches ++ map (λ c. c.samples) cs;
        })
  unfolding receive stream_results delivered leave
  receive-stream_results r [] = λ i. returned (record {
    active_clients = r.active_clients -ℤ pos 1;
    batches = sym (append-nil r.batches) i;
  })
  receive-stream_results r (c ∷ cs) =
      rw (delivered-cancel_if c.failed_once (stream_results encode cs), round_trip c.samples)
        (receive-stream_results (record r { batches = r.batches ++ c.samples ∷ [] }) cs ∙ λ i.
          returned (record {
            active_clients = r.active_clients -ℤ pos 1;
            batches = append_assoc r.batches (c.samples ∷ []) (map (λ c. c.samples) cs) i;
          }))
