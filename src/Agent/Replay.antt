-- ===== src/Agent/Replay.antt =====
-- Transactions that were validated once.
use fusotao_protocol.Base.{
  ℕ, ◌≢◌, ◌+◌, ◌≤◌, ◌<◌, ◌≡◌, some, Bool-cases, ◌⊎◌, inl, inr, List, [], ◌∷◌, ◌==◌, ltb,
  Option-cases, arith,
}
use fusotao_protocol.Base.Result.{ok, err, Result-cases}
use fusotao_protocol.Token.Types.{Origin}
use fusotao_protocol.Agent.{
  ExternalVerifiable, Call, submits, another, bad_proof, ValidTransaction, State, Config, nonce_of,
  extract, submit_external_tx, withdraw_fee, compute_fee, check_size, charge_tx, validate_tx,
  validate_unsigned, dispatch_info_of,
}

-- What happens to a transaction: it is validated, which takes its nonce, or it is executed.
pub data Step : Type 0 where
  validates : Call → Step
  executes : Origin → ExternalVerifiable → Step

module _ {N : Type 0} (cf : Config N) where
  unfoldable pub step : Step → State N → State N
  step (validates call) s = (validate_unsigned cf call s).1
  step (executes origin sig) s = (submit_external_tx cf origin sig s).1

  unfoldable pub run : List Step → State N → State N
  run [] s = s
  run (next ∷ steps) s = run steps (step next s)

  abbrev pub nonce_in : ℕ → State N → ℕ
  nonce_in who s = cf.account_nonce who s.native

  -- An executed call takes the nonce of an account back, or a validation meets the last index.
  abbrev pub GoesBack : ℕ → ℕ → List Step → State N → Type 0
  GoesBack indices who [] s = ⊥
  GoesBack indices who (executes origin sig ∷ steps) s =
      (nonce_in who (step (executes origin sig) s) < nonce_in who s)
      ⊎ GoesBack indices who steps (step (executes origin sig) s)
  GoesBack indices who (validates call ∷ steps) s =
      (indices ≤ nonce_in who s + 1) ⊎ GoesBack indices who steps (step (validates call) s)

  -- An increment counts one up, short of the last index, and fees never take a nonce back.
  module _ (indices : ℕ)
      (counts : (who : ℕ) (n : N)
        → cf.account_nonce who n + 1 < indices
        → cf.account_nonce who (cf.inc_account_nonce who n) ≡ cf.account_nonce who n + 1)
      (others_stay : (who other : ℕ) (n : N)
        → other ≢ who
        → cf.account_nonce other (cf.inc_account_nonce who n) ≡ cf.account_nonce other n)
      (withdrawn : (who fee other : ℕ) (n n' : N)
        → cf.withdraw who fee n ≡ some n'
        → cf.account_nonce other n ≤ cf.account_nonce other n') where
    withdraw_fee-nonces :
        (who fee other : ℕ) (s : State N)
        → nonce_in other s ≤ nonce_in other (withdraw_fee cf who fee s).1
    unfolding withdraw_fee
    withdraw_fee-nonces who fee other s = elim (Option-cases (cf.withdraw who fee s.native)) [
      | inl e ↦ ground (arith, e)
      | inr (n, e) ↦ ground (arith, e, withdrawn who fee other s.native n e)
    ]

    -- What the calls after the nonce do.
    charging-nonces :
        (account other : ℕ) (sig : ExternalVerifiable) (s : State N)
        → nonce_in other s ≤ nonce_in other (charge_tx cf account sig s).1
    unfolding charge_tx
    charging-nonces account other sig s = elim (Result-cases (check_size cf sig)) [
      | inr (inl (x, e)) ↦ rw e (omega arith)
      | inr (inr e) ↦ rw e (omega arith)
      | inl (len, e) ↦
          let fee =
            compute_fee cf len (dispatch_info_of cf sig).weight (dispatch_info_of cf sig).class in
          let paid = withdraw_fee-nonces account fee other s in
          elim (Result-cases (withdraw_fee cf account fee s).0) [
            | inr (inl (x, e1)) ↦ ground (arith, e, e1, paid)
            | inr (inr e1) ↦ ground (arith, e, e1, paid)
            | inl (u, e1) ↦ ground (arith, e, e1, paid)
          ]
    ]

    validate_tx-nonces :
        (account other : ℕ) (sig : ExternalVerifiable) (s : State N)
        → nonce_in other s + 1 < indices
        → nonce_in other s ≤ nonce_in other (validate_tx cf account sig s).1
    unfolding validate_tx
    validate_tx-nonces account other sig s short =
        let counted = counts other s.native short in
        let same = others_stay account other s.native in
        let charged =
          charging-nonces account other sig
            (record s { native = cf.inc_account_nonce account s.native }) in
        elim (Bool-cases (other == account)) [
          | inl own ↦
              let is_own : other ≡ account = ground (arith, own) in
              let counted' = rw is_own at counted in ground (arith, is_own, counted', charged)
          | inr apart ↦ ground (arith, same (ground (arith, apart)), charged)
        ]

    -- A validated transaction has taken its nonce.
    validate_tx-taken :
        (account : ℕ) (sig : ExternalVerifiable) (s s' : State N) (v : ValidTransaction)
        → nonce_of sig + 1 < indices
        → validate_tx cf account sig s ≡ (ok v, s')
        → nonce_of sig < nonce_in account s'
    unfolding validate_tx
    validate_tx-taken account sig s s' v short h =
        let counted = counts account s.native in
        let charged =
          charging-nonces account account sig
            (record s { native = cf.inc_account_nonce account s.native }) in
        ground (arith, short, counted, charged, h)

    validate_unsigned-nonces :
        (call : Call) (who : ℕ) (s : State N)
        → nonce_in who s + 1 < indices
        → nonce_in who s ≤ nonce_in who (validate_unsigned cf call s).1
    unfolding validate_unsigned
    validate_unsigned-nonces another who s short = omega arith
    validate_unsigned-nonces (submits sig) who s short = elim (Result-cases (extract cf sig)) [
      | inl (account, e) ↦ rw e (validate_tx-nonces account who sig s short)
      | inr (inl (x, e)) ↦ rw e (omega arith)
      | inr (inr e) ↦ rw e (omega arith)
    ]

    run-GoesBack :
        (steps : List Step) (who : ℕ) (s : State N)
        → nonce_in who (run steps s) < nonce_in who s
        → GoesBack indices who steps s
    unfolding run step
    run-GoesBack [] who s falls = absurd (omega (arith, falls))
    run-GoesBack (executes origin sig ∷ steps) who s falls =
        let t = step (executes origin sig) s in
        elim (Bool-cases (ltb (nonce_in who t) (nonce_in who s))) [
          | inl here ↦ inl (ground (arith, here))
          | inr kept ↦ inr (run-GoesBack steps who t (ground (arith, kept, falls)))
        ]
    run-GoesBack (validates call ∷ steps) who s falls =
        let t = step (validates call) s in
        elim (Bool-cases (ltb (nonce_in who s + 1) indices)) [
          | inr last ↦ inl (ground (arith, last))
          | inl short ↦
              let kept = validate_unsigned-nonces call who s (ground (arith, short)) in
              inr (run-GoesBack steps who t (omega (arith, kept, falls)))
        ]

    -- Where an increment of a nonce that is short of the last index counts one up and leaves the
    -- other nonces, and fees never take a nonce back, a transaction that was validated, with a
    -- nonce short of the last index, is refused with `BadProof` and changes nothing, whatever was
    -- validated and executed since, unless on the way the execution of a transaction took the
    -- nonce of the account back, as the removal of the account does, or a validation met its nonce
    -- at the last index.
    pub validate_unsigned-once :
        (sig : ExternalVerifiable) (account : ℕ) (steps : List Step) (s s' : State N)
        (v : ValidTransaction)
        → extract cf sig ≡ ok account
        → nonce_of sig + 1 < indices
        → validate_unsigned cf (submits sig) s ≡ (ok v, s')
        → (validate_unsigned cf (submits sig) (run steps s') ≡ (err bad_proof, run steps s'))
          ⊎ GoesBack indices account steps s'
    unfolding validate_unsigned validate_tx
    validate_unsigned-once sig account steps s s' v e short h =
        let h1 : validate_tx cf account sig s ≡ (ok v, s') = ground (arith, h, e) in
        let taken = validate_tx-taken account sig s s' v short h1 in
        elim (Bool-cases (nonce_in account (run steps s') == nonce_of sig)) [
          | inr apart ↦ inl (ground (arith, e, apart))
          | inl same ↦ inr (run-GoesBack steps account s' (ground (arith, taken, same)))
        ]
