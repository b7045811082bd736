-- ===== src/Agent/Payload.antt =====
-- The message that an Ethereum wallet signs, with its length in decimal digits.
-- Source: pallet-fuso-agent/src/lib.rs, `EthPersonalSignWrapper`.
use fusotao_protocol.Base.{
  ℕ, zero, suc, ◌+◌, ◌-◌, ◌*◌, ◌/◌, ◌%◌, ◌<◌, ◌≡◌, refl, inl, inr, List, [], ◌∷◌, ◌++◌, ltb, length,
  if◌then◌else◌, Bool-cases, arith,
}

-- The decimal digits of a number, in ASCII, at most as many as there is fuel.
pub digits : ℕ → ℕ → List ℕ
digits zero n = []
digits (suc fuel) n =
    let rest = digits fuel (n / 10) in
    if ltb n 10 then (48 + n) ∷ [] else rest ++ (48 + n % 10) ∷ []

pub decimal : ℕ → List ℕ
decimal n = digits (suc n) n

-- `"Ethereum Signed Message:\n"`, after the byte 0x19.
abbrev pub eth_prefix : List ℕ
eth_prefix =
    25 ∷ 69 ∷ 116 ∷ 104 ∷ 101 ∷ 114 ∷ 101 ∷ 117 ∷ 109 ∷ 32 ∷ 83 ∷ 105 ∷ 103 ∷ 110 ∷ 101 ∷ 100 ∷ 32
    ∷ 77 ∷ 101 ∷ 115 ∷ 115 ∷ 97 ∷ 103 ∷ 101 ∷ 58 ∷ 10 ∷ []

-- `EthPersonalSignWrapper::extend_payload`, from the codec and the `hex` crate.
module _ (encode : ℕ → ℕ → List ℕ) (hex_encode : List ℕ → List ℕ) where
  pub extend_payload : ℕ → ℕ → List ℕ
  extend_payload nonce tx =
      let encoded_payload = encode nonce tx in
      eth_prefix ++ decimal (length encoded_payload * 2) ++ hex_encode encoded_payload

-- The number that digits write, after the digits before.
pub value_after : ℕ → List ℕ → ℕ
value_after acc [] = acc
value_after acc (d ∷ ds) = value_after (10 * acc + (d - 48)) ds

value_after-snoc :
    (ds : List ℕ) (acc d : ℕ) → value_after acc (ds ++ d ∷ []) ≡ 10 * value_after acc ds + (d - 48)
unfolding value_after
value_after-snoc [] acc d = refl
value_after-snoc (e ∷ ds) acc d = value_after-snoc ds (10 * acc + (e - 48)) d

digits-value : (fuel n : ℕ) → n < fuel → value_after 0 (digits fuel n) ≡ n
unfolding digits value_after
digits-value zero n h = absurd (omega (arith, h))
digits-value (suc fuel) n h = elim (Bool-cases (ltb n 10)) [
  | inl e ↦ rw e (omega arith)
  | inr e ↦
      let rest = digits-value fuel (n / 10) (ground (arith, h, e)) in
      rw e (omega (arith, rest, value_after-snoc (digits fuel (n / 10)) 0 (48 + n % 10)))
]

-- The digits are enough to write the number.
pub decimal-value : (n : ℕ) → value_after 0 (decimal n) ≡ n
unfolding decimal
decimal-value n = digits-value (suc n) n (omega arith)
