-- ===== src/Life/Edges.antt =====
-- The edges of the life cycle, from the tests by which the handlers choose them.
use ag3nt_coin.Base.{◌≡◌, true, false, not, ◌&&◌, ◌||◌, arith}
use ag3nt_coin.Types.{
  EscrowStatus, is_locked, is_submitted, is_fail_attested, is_in_jury, is_challenged,
}
use ag3nt_coin.Msg.Escrows.{is_releasable}
use ag3nt_coin.Life.{Moves}

pub releases_from : (a : EscrowStatus) → is_releasable a ≡ true → Moves a EscrowStatus.released
unfolding is_releasable
releases_from EscrowStatus.locked h = Moves.releases_locked
releases_from EscrowStatus.submitted h = Moves.releases_submitted
releases_from EscrowStatus.disputed h = Moves.releases_disputed
releases_from EscrowStatus.fail_attested h = Moves.releases_failed
releases_from _ h = ground arith

pub refunds_from :
    (a : EscrowStatus) → (is_locked a || is_fail_attested a) ≡ true → Moves a EscrowStatus.refunded
refunds_from EscrowStatus.locked h = Moves.refunds_locked
refunds_from EscrowStatus.fail_attested h = Moves.refunds_failed
refunds_from _ h = ground arith

pub submits_from : (a : EscrowStatus) → is_locked a ≡ true → Moves a EscrowStatus.submitted
submits_from EscrowStatus.locked h = Moves.submits
submits_from _ h = ground arith

pub disputes_from : (a : EscrowStatus) → is_submitted a ≡ true → Moves a EscrowStatus.disputed
disputes_from EscrowStatus.submitted h = Moves.disputes
disputes_from _ h = ground arith

pub fails_from : (a : EscrowStatus) → is_submitted a ≡ true → Moves a EscrowStatus.fail_attested
fails_from EscrowStatus.submitted h = Moves.fails
fails_from _ h = ground arith

pub pays_from : (a : EscrowStatus) → is_submitted a ≡ true → Moves a EscrowStatus.released
pays_from EscrowStatus.submitted h = Moves.releases_submitted
pays_from _ h = ground arith

pub accepts_from :
    (a : EscrowStatus)
    → (not (is_in_jury a) && not (is_challenged a)) ≡ false
    → Moves a EscrowStatus.released
accepts_from EscrowStatus.in_jury h = Moves.accepts
accepts_from EscrowStatus.challenged h = Moves.upholds
accepts_from _ h = ground arith

pub rejects_from :
    (a : EscrowStatus)
    → (not (is_in_jury a) && not (is_challenged a)) ≡ false
    → is_challenged a ≡ false
    → Moves a EscrowStatus.refunded
rejects_from EscrowStatus.in_jury h k = Moves.rejects
rejects_from _ h k = ground arith
