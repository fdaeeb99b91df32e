-- ===== src/Msg/Governance.antt =====
-- msg_update_params.go of chain/x/agntcoin/keeper.
use ag3nt_coin.Base.{String, some, not, str_eq}
use ag3nt_coin.Exec.{
  Exec, bad_address, invalid_request, invalid_signer, or_raise, raise_if, modify, ◌>>=◌, ◌>>◌,
}
use ag3nt_coin.Types.{ModuleParams}
use ag3nt_coin.Types.Params.{validate_params}
use ag3nt_coin.Keeper.{State, Env}

unfoldable pub put_params : ModuleParams → State → State
put_params params s = record s { params = some params }

unfoldable pub update_params : Env → String → ModuleParams → Exec State (Unit {0})
update_params env authority params = do
  bytes ← or_raise (env.string_to_bytes authority) bad_address
  raise_if (not (str_eq env.authority bytes)) invalid_signer
  raise_if (not (validate_params params.anchors)) invalid_request
  modify (put_params params)
