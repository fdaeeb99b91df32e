-- ===== src/Supply/Accounts.antt =====
-- The coins under the handlers of Msg/Accounts.antt.
use ag3nt_coin.Base.{refl, ◌<◌, ltb→le}
use ag3nt_coin.Base.Words.{word}
use ag3nt_coin.Exec.Returns.{Returns, Returns-or_raise, Returns-raise_if, Returns-modify}
use ag3nt_coin.Keeper.{State, Env, Returns-read}
use ag3nt_coin.Msg.Accounts.{MsgTransfer, transfer}
use ag3nt_coin.Invariant.{IsWellFormed}
use ag3nt_coin.Supply.{supply}
use ag3nt_coin.Supply.Payments.{Returns-check, Returns-credit}
use ag3nt_coin.Supply.Steps.{credit-Conserves, Conserves, put_account-IsWellFormed, supply-debit}

-- Transfer, when it succeeds in a well-formed store whose coins fit a uint64, keeps the store well
-- formed, keeps the sum of all balances, escrows, bonds and vouch stakes, and leaves the emission
-- state alone.
pub transfer-Conserves :
    (env : Env) (msg : MsgTransfer) (s : State)
    → IsWellFormed s
    → supply s < word
    → Returns (λ _ s'. Conserves s s') (transfer env msg s)
unfolding transfer
transfer-Conserves env msg s wf small = Returns-or_raise _ _ _ s λ _ _.
    Returns-or_raise _ _ _ s λ bytes _. Returns-raise_if _ _ _ s λ positive.
      Returns-raise_if _ _ _ s λ other. Returns-read _ _ _ s λ from found.
        Returns-raise_if _ _ _ s λ registered. Returns-raise_if _ _ _ s λ enough.
          Returns-check s _ _ _ λ not_dust. Returns-modify _ _ s (
            Returns-credit _ env _ _ _ (
              let paid =
                supply-debit s small msg.creator from msg.amount found (ltb→le _ _ enough) in
              credit-Conserves s _ env msg.to_addr bytes msg.amount
                (put_account-IsWellFormed s wf _ _) small paid refl))
