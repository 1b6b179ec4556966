-- ===== src/Pallet/Benchmarking.antt =====
-- The benchmark of `claim` (blockchain/pallets/probabilistic-payments/src/benchmarking.rs).
use guillotine.Base.{◌≡◌, some, [], Result, err}
use guillotine.Pallet.Config.{Config, State, DispatchError, module_error, invalid_voucher}
use guillotine.Pallet.Voucher.{parse}
use guillotine.Pallet.Claim.{claim, check_claim}

-- `claim` with an empty voucher, from the account that the benchmark signs with.
unfoldable pub benchmark_claim :
    (C : Config) → C.Origin → State C → Result DispatchError (Unit {0}) × State C
benchmark_claim C caller s = let token = [] in claim C caller token s

-- The benchmark of claim is refused with error 0 of the parser, in every state and for every
-- signed caller, and changes nothing.
pub benchmark_claim-err :
    (C : Config) (caller : C.Origin) (s : State C) {who : C.AccountId}
    → C.ensure_signed caller ≡ some who
    → benchmark_claim C caller s ≡ (err (module_error (invalid_voucher 0)), s)
unfolding benchmark_claim claim check_claim parse
benchmark_claim-err C caller s e = rw e
