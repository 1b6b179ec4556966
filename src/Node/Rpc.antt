-- ===== src/Node/Rpc.antt =====
-- The RPC extensions of the node (blockchain/node/src/rpc.rs).
pub mod Laws
use guillotine.Base.{Result, ok, ◌>>=◌}

-- What rpc.rs takes from jsonrpsee and from the two extensions: `RpcModule` with `merge`, and the
-- methods that `System` and `TransactionPayment` turn `into_rpc`.
pub record Extensions : Type 1 where
  pub Client : Type 0
  pub Pool : Type 0
  pub DenyUnsafe : Type 0
  pub RpcModule : Type 0
  pub Methods : Type 0
  pub RegisterError : Type 0
  pub new : RpcModule
  pub merge : RpcModule → Methods → Result RegisterError RpcModule
  pub system : Client → Pool → DenyUnsafe → Methods
  pub transaction_payment : Client → Methods

-- `FullDeps`
pub record FullDeps (X : Extensions) : Type 0 where
  pub client : X.Client
  pub pool : X.Pool
  pub deny_unsafe : X.DenyUnsafe

unfoldable pub create_full : (X : Extensions) → FullDeps X → Result X.RegisterError X.RpcModule
create_full X deps = do
  with_system ← X.merge X.new (X.system deps.client deps.pool deps.deny_unsafe)
  module' ← X.merge with_system (X.transaction_payment deps.client)
  ok module'
