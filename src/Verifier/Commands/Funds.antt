-- ===== src/Verifier/Commands/Funds.antt =====
-- What the deposits and the withdrawals make of the reserves of their owner.
use fusotao_protocol.Base.{ℕ, ◌+◌, ◌≡◌, none, arith}
use fusotao_protocol.Base.Result.{ok}
use fusotao_protocol.Verifier.Accounts.{reserve_for_authorizing}
use fusotao_protocol.Verifier.State.{State, Config, Proof, Receipt, reserve_for_authorizing_stash}
use fusotao_protocol.Verifier.Reserving.Laws.{unreserve-subtracts}
use fusotao_protocol.Verifier.Hosting.{authorize_to}
use fusotao_protocol.Verifier.Hosting.Laws.{authorize_to-stash}
use fusotao_protocol.Verifier.Commands.{accept_transfer_in, release}

-- What an owner has authorized with a dominator, and what waits to be.
module _ {N : Type 0} (owner token dominator : ℕ) where
  abbrev pub authorized : State N → ℕ
  authorized s = s.reserves reserve_for_authorizing owner token dominator

  abbrev pub stashed : State N → ℕ
  stashed s = s.reserves reserve_for_authorizing_stash owner token dominator

module _ {N : Type 0} (cf : Config N) where
  accept_transfer_in-moves :
      (dex token amount : ℕ) (proof : Proof) (s s' : State N)
      → accept_transfer_in cf dex proof token amount s ≡ (ok tt, s')
      → (authorized proof.user_id token dex s' ≡ authorized proof.user_id token dex s + amount)
        × (stashed proof.user_id token dex s' ≡ 0)
        × (s'.receipts dex proof.user_id ≡ none)
  unfolding accept_transfer_in
  accept_transfer_in-moves dex token amount proof s s' h = ground arith

  -- A deposit that is hosted adds its amount to the stash of its owner, and a proof that then
  -- accepts it, with both reserves as they were, adds exactly the amount to what is authorized,
  -- empties the whole stash and closes the receipt.
  pub deposit-moves :
      (dex token amount : ℕ) (proof : Proof) (s s1 t t' : State N)
      → authorize_to cf proof.user_id dex token amount s ≡ (ok tt, s1)
      → stashed proof.user_id token dex t ≡ stashed proof.user_id token dex s1
      → authorized proof.user_id token dex t ≡ authorized proof.user_id token dex s1
      → accept_transfer_in cf dex proof token amount t ≡ (ok tt, t')
      → (authorized proof.user_id token dex t' ≡ authorized proof.user_id token dex s + amount)
        × (stashed proof.user_id token dex t' ≡ 0)
        × (stashed proof.user_id token dex s1 ≡ stashed proof.user_id token dex s + amount)
        × (t'.receipts dex proof.user_id ≡ none)
  deposit-moves dex token amount proof s s1 t t' h stash auth h' = ground (
    arith,
    authorize_to-stash cf proof.user_id dex token amount s s1 h,
    accept_transfer_in-moves dex token amount proof t t' h',
  )

  release-moves :
      (dex token amount : ℕ) (proof : Proof) (s s' : State N) (r : Receipt)
      → release cf dex proof token amount s ≡ (ok r, s')
      → (authorized proof.user_id token dex s' + amount ≡ authorized proof.user_id token dex s)
        × (s'.receipts dex proof.user_id ≡ none)
  unfolding release
  release-moves dex token amount proof s s' r h =
      grind (arith, unreserve-subtracts cf reserve_for_authorizing proof.user_id token amount dex)
