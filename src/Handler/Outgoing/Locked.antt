-- ===== src/Handler/Outgoing/Locked.antt =====
-- What an accepted lock did, with the balances of the tokens.
use fusotao_protocol.Base.{
  ℕ, ◌+◌, ◌-◌, ◌<◌, ◌≡◌, ◌≢◌, sym, ap, true, List, ◌∷◌, [], ◌++◌, inl, inr, arith,
}
use fusotao_protocol.Base.Words.{add_in}
use fusotao_protocol.Base.Result.{ok, Result-cases}
use fusotao_protocol.Bridge.Types as Bridge
use fusotao_protocol.Bridge.Types.{Event, fungible_transfer}
use fusotao_protocol.Bridge.Transfers.{transfer_fungible, bump_nonce, or_zero, u64_mod}
use fusotao_protocol.Handler.Types.{Rest, Chain, Config}
use fusotao_protocol.Handler.Outgoing.{
  calculate_bridging_fee, charge, check_limit, announce, do_lock,
}

module _ {N : Type 0} (cf : Config N) where
  abbrev pub native_token : ℕ
  native_token = cf.fungibles.native_token_id

  -- The native balance of an account.
  abbrev pub free_of : ℕ → Chain N → ℕ
  free_of who s = cf.fungibles.free_balance native_token who s.rest.verifier.native

  -- The storage with other tokens.
  abbrev with_tokens : N → Chain N → Chain N
  with_tokens n s = record s {
    rest = record s.rest { verifier = record s.rest.verifier { native = n } };
  }

  -- What an accepted lock went through.
  do_lock-steps :
      (sender amount : ℕ) (r_id recipient : List ℕ) (dest_id : ℕ) (s s' : Chain N)
      → do_lock cf sender amount r_id recipient dest_id s ≡ (ok tt, s')
      → (fee paid locked : ℕ) × (n1 n2 : N) × (charge cf native_token amount s.rest ≡ ok fee)
        × (cf.fungibles.transfer_token sender native_token fee cf.treasury_account
              s.rest.verifier.native
            ≡ (ok paid, n1))
        × (cf.fungibles.transfer_token sender native_token (amount - fee) cf.bridge_account n1
            ≡ (ok locked, n2))
        × (announce cf dest_id r_id recipient (amount - fee) (with_tokens n2 s) ≡ (ok tt, s'))
  unfolding do_lock
  do_lock-steps sender amount r_id recipient dest_id s s' h =
      elim (Result-cases (check_limit cf amount s.rest)) [
        | inr failed ↦ absurd (let h' = h in let f = failed in ground arith)
        | inl (u, e) ↦ elim (Result-cases (charge cf native_token amount s.rest)) [
          | inr failed ↦ absurd (let h' = h in let f = failed in let e' = e in ground arith)
          | inl (fee, e1) ↦
              let first =
                cf.fungibles.transfer_token sender native_token fee cf.treasury_account
                  s.rest.verifier.native in
              elim (Result-cases first.0) [
                | inr failed ↦
                    absurd
                      (let h' = h in let f = failed in let e' = e in let e1' = e1 in ground arith)
                | inl (paid, e2) ↦
                    let second =
                      cf.fungibles.transfer_token sender native_token (amount - fee)
                        cf.bridge_account first.1 in
                    elim (Result-cases second.0) [
                      | inr failed ↦ absurd (
                          let h' = h in
                          let f = failed in
                          let e' = e in let e1' = e1 in let e2' = e2 in ground arith)
                      | inl (locked, e3) ↦ (
                        fee,
                        paid,
                        locked,
                        first.1,
                        second.1,
                        e1,
                        ground (arith, e2),
                        ground (arith, e3),
                        ground (arith, h, e, e1, e2, e3),
                      )
                    ]
              ]
        ]
      ]

  -- What is announced to another chain, as the bridge does it.
  announce-event :
      (dest_id : ℕ) (r_id recipient : List ℕ) (amount : ℕ) (s s' : Chain N)
      → announce cf dest_id r_id recipient amount s ≡ (ok tt, s')
      → (nonce : ℕ) × (s'.events
          ≡ s.events ++ fungible_transfer dest_id nonce r_id amount recipient ∷ [])
        × (s'.rest ≡ s.rest)
  unfolding transfer_fungible bump_nonce
  announce-event dest_id r_id recipient amount s s' h =
      let nonce = add_in u64_mod cf.bridge.overflow_checks (or_zero (s.chain_nonces dest_id)) 1 in
      elim (Result-cases {E = Bridge.Error} nonce) [
        | inr failed ↦ absurd (let h' = h in let f = failed in ground arith)
        | inl (n, e) ↦ (n, ground (arith, h, e), ground (arith, h, e))
      ]

  module _ (checks : cf.bridge.overflow_checks ≡ true)
      (moves : (who to token amount v : ℕ) (n n' : N)
        → who ≢ to
        → cf.fungibles.transfer_token who token amount to n ≡ (ok v, n')
        → (cf.fungibles.free_balance token who n' + amount ≡ cf.fungibles.free_balance token who n)
          × (cf.fungibles.free_balance token to n' ≡ cf.fungibles.free_balance token to n + amount)
          × ((other : ℕ)
              → other ≢ who
              → other ≢ to
              → cf.fungibles.free_balance token other n'
                ≡ cf.fungibles.free_balance token other n)) where
    charge_below :
        (token amount fee : ℕ) (s : Rest N) → charge cf token amount s ≡ ok fee → fee + fee < amount
    unfolding charge
    charge_below token amount fee s h = elim (Result-cases (calculate_bridging_fee cf token s)) [
      | inl (f, e) ↦ ground (arith, checks, h, e)
      | inr failed ↦ absurd (let h' = h in let f = failed in ground arith)
    ]

    -- In a build with overflow checks, over tokens whose transfers move what they say, an accepted
    -- lock by an account that is neither the treasury nor the bridge, which differ, takes the
    -- amount from the account, more than twice the fee, gives the treasury the fee and the bridge
    -- the rest, and announces exactly that rest to the other chain.
    pub do_lock-locks :
        (sender amount : ℕ) (r_id recipient : List ℕ) (dest_id : ℕ) (s s' : Chain N)
        → sender ≢ cf.treasury_account
        → sender ≢ cf.bridge_account
        → cf.treasury_account ≢ cf.bridge_account
        → do_lock cf sender amount r_id recipient dest_id s ≡ (ok tt, s')
        → (fee nonce : ℕ) × (charge cf native_token amount s.rest ≡ ok fee)
          × (fee + fee < amount)
          × (free_of sender s' + amount ≡ free_of sender s)
          × (free_of cf.treasury_account s' ≡ free_of cf.treasury_account s + fee)
          × (free_of cf.bridge_account s' ≡ free_of cf.bridge_account s + (amount - fee))
          × (s'.events
              ≡ s.events ++ fungible_transfer dest_id nonce r_id (amount - fee) recipient ∷ [])
    do_lock-locks sender amount r_id recipient dest_id s s' a b c h =
        let (fee, paid, locked, n1, n2, e, e1, e2, e3) =
          do_lock-steps sender amount r_id recipient dest_id s s' h in
        let below = charge_below native_token amount fee s.rest e in
        let (nonce, e4, e5) =
          announce-event dest_id r_id recipient (amount - fee) (with_tokens n2 s) s' e3 in
        let (from1, to1, rest1) =
          moves sender cf.treasury_account native_token fee paid s.rest.verifier.native n1 a e1 in
        let (from2, to2, rest2) =
          moves sender cf.bridge_account native_token (amount - fee) locked n1 n2 b e2 in
        let treasury2 = rest2 cf.treasury_account (λ x. a (sym x)) c in
        let bridge1 = rest1 cf.bridge_account (λ x. b (sym x)) (λ x. c (sym x)) in
        let free : (who : ℕ) → free_of who s' ≡ cf.fungibles.free_balance native_token who n2 =
          λ who.
            ap (λ (r : Rest N). cf.fungibles.free_balance native_token who r.verifier.native) e5 in
        (
          fee,
          nonce,
          e,
          below,
          omega (arith, free sender, from1, from2, below),
          omega (arith, free cf.treasury_account, to1, treasury2),
          omega (arith, free cf.bridge_account, to2, bridge1),
          e4,
        )
