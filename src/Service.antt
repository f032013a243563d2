-- ===== src/Service.antt =====
-- service.go: a node's server. Calls of `Run` are threads, which interleave between the operations on
-- the policy's mutex; `TestPolicy` is the field `busy`.
pub mod Busy
pub mod Stream
use loaderbot.Prelude.{
  ℕ, zero, suc, ◌+◌, ◌≡◌, Bool, true, false, Option, none, some, List, [], ◌∷◌, ◌++◌, length,
  if◌then◌else◌,
}

-- Where a call of `Run` stands: before `isBusy`, between `isBusy` and `setBusy(true)`, between
-- `setBusy(true)` and the assignment of `runnerCancelFunc`, in `streamResults`, returned after
-- `setBusy(false)`, or returned at once.
pub data Call : Type 0 where
  arrived admitted marked streaming finished turned_away : Call

-- `runnerCancelFunc` is the number of the call whose runner it cancels.
pub record Server : Type 0 where
  pub busy : Bool
  pub runner_cancel_func : Option ℕ
  pub calls : List Call

unfoldable pub is_busy : Server → Bool
is_busy s = s.busy

unfoldable pub set_busy : Bool → Server → Server
set_busy b s = record s { busy = b }

-- `Status`: the field `Busy` of its response.
unfoldable pub status : Server → Bool
unfolding is_busy
status s = is_busy s

-- The next operation of call number i: the server, and where the call then stands.
unfoldable pub run_step : ℕ → Call → Server → Server × Call
unfolding is_busy set_busy
run_step i arrived s = (s, if is_busy s then turned_away else admitted)
run_step i admitted s = (set_busy true s, marked)
run_step i marked s = (record s { runner_cancel_func = some i }, streaming)
run_step i streaming s = (set_busy false s, finished)
run_step i finished s = (s, finished)
run_step i turned_away s = (s, turned_away)

-- `ShutdownNode`: the runner that it cancels, if any.
unfoldable pub shutdown_node : Server → Option ℕ
shutdown_node s = s.runner_cancel_func

-- One call moves, or a new one arrives.
pub data Step (s u : Server) : Type 0 where
  move :
      (xs ys : List Call) (c : Call)
      → s.calls ≡ xs ++ c ∷ ys
      → u ≡ record (run_step (length xs) c s).0 { calls = xs ++ (run_step (length xs) c s).1 ∷ ys }
      → Step s u
  arrive : u ≡ record s { calls = s.calls ++ arrived ∷ [] } → Step s u

pub data Reach (s : Server) : Server → Type 0 where
  here : Reach s s
  next : {u v : Server} → Reach s u → Step u v → Reach s v

-- `RunService`
unfoldable pub fresh_server : Server
fresh_server = record { busy = false; runner_cancel_func = none; calls = [] }
