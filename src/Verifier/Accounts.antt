-- ===== src/Verifier/Accounts.antt =====
-- The accounts in a proof of pallet-fuso-verifier/src/lib.rs: what is authorized on chain, and the
-- two leaves of the taker.
use fusotao_protocol.Base.{ℕ, ◌-◌, Bool, leb, if◌then◌else◌}
use fusotao_protocol.Verifier.Types.{Reserves}

abbrev pub reserve_for_authorizing : ℕ
reserve_for_authorizing = 1

-- The off-chain matchers lose precision: a difference of this much is accepted.
abbrev pub tolerance : ℕ
tolerance = 100_000_000_000

module _ (reserves : Reserves) (who token amount dominator : ℕ) where
  unfoldable pub has_authorized_morethan : Bool
  has_authorized_morethan = leb amount (reserves reserve_for_authorizing who token dominator)

  unfoldable pub has_authorized_exactly_on : Bool
  has_authorized_exactly_on =
      let confirmed = reserves reserve_for_authorizing who token dominator in
      if leb amount confirmed
      then leb (confirmed - amount) tolerance
      else leb (amount - confirmed) tolerance
