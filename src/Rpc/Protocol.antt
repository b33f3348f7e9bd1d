-- ===== src/Rpc/Protocol.antt =====
-- crates/vdsm-rpc/src/protocol.rs: JSON-RPC 2.0 envelopes, over any type `V` of JSON values.
use vdsm_rs.Base.{Option, none, some, Text, codes, ◌++◌, ℤ, negsuc}

pub record Request (V : Type 0) : Type 0 where
  pub jsonrpc : Text
  pub method : Text
  pub params : V
  pub id : Option V

-- An error code -n is `negsuc (n - 1)`.
pub record JsonRpcError (V : Type 0) : Type 0 where
  pub code : ℤ
  pub message : Text
  pub details : Option V

pub record Response (V : Type 0) : Type 0 where
  pub jsonrpc : Text
  pub id : Option V
  pub result : Option V
  pub error : Option (JsonRpcError V)

module _ {V : Type 0} where
  -- `Response::ok`
  unfoldable pub response_ok : Option V → V → Response V
  response_ok id result = record {
    jsonrpc = codes "2.0";
    id = id;
    result = some result;
    error = none;
  }

  -- `Response::err`
  unfoldable pub response_err : Option V → JsonRpcError V → Response V
  response_err id error = record {
    jsonrpc = codes "2.0";
    id = id;
    result = none;
    error = some error;
  }

  unfoldable pub parse_error : Text → JsonRpcError V
  parse_error msg = record { code = negsuc 32699; message = msg; details = none }

  unfoldable pub invalid_request : Text → JsonRpcError V
  invalid_request msg = record { code = negsuc 32599; message = msg; details = none }

  unfoldable pub method_not_found : Text → JsonRpcError V
  method_not_found method = record {
    code = negsuc 32600;
    message = codes "Method not found: " ++ method;
    details = none;
  }

  unfoldable pub invalid_params : Text → JsonRpcError V
  invalid_params msg = record { code = negsuc 32601; message = msg; details = none }

  unfoldable pub internal : Text → JsonRpcError V
  internal msg = record { code = negsuc 32602; message = msg; details = none }
