-- ===== src/Rpc/Dispatch.antt =====
-- crates/vdsm-rpc/src/dispatch.rs: handlers by name. A handler is an action on the state `W` of the
-- host, which is all that it reads and changes outside its parameters.
use vdsm_rs.Base.{ℕ, Option, none, some, [], Text, Result, err, length}
use vdsm_rs.Encoding.TextMap
use vdsm_rs.Encoding.TextMap.{TextMap}
use vdsm_rs.Rpc.Protocol.{JsonRpcError, method_not_found}

-- `DispatchFn`
abbrev pub Handler : Type 0 → Type 0 → Type 0
Handler V W = V → W → Result (JsonRpcError V) V × W

-- `Dispatcher` and `DispatcherBuilder`, which `build` turns into it, hold the same map.
pub record Dispatcher (V W : Type 0) : Type 0 where
  pub handlers : TextMap (Handler V W)

module _ {V W : Type 0} where
  -- `Dispatcher::builder`
  unfoldable pub builder : Dispatcher V W
  builder = record { handlers = [] }

  -- `DispatcherBuilder::register`: the last registration of a name counts.
  unfoldable pub register : Text → Handler V W → Dispatcher V W → Dispatcher V W
  register method f d = record { handlers = TextMap.insert method f d.handlers }

  unfoldable pub handler_count : Dispatcher V W → ℕ
  handler_count d = length d.handlers

  run_handler : Text → V → W → Option (Handler V W) → Result (JsonRpcError V) V × W
  run_handler method params w none = (err (method_not_found method), w)
  run_handler method params w (some h) = h params w

  -- `Dispatcher::invoke`
  unfoldable pub invoke : Dispatcher V W → Text → V → W → Result (JsonRpcError V) V × W
  unfolding run_handler
  invoke d method params w = run_handler method params w (TextMap.get method d.handlers)
