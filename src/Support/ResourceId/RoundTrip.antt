-- ===== src/Support/ResourceId/RoundTrip.antt =====
-- Decoding gives back what an identifier was derived from.
use fusotao_protocol.Base.{
  ℕ, zero, suc, ◌+◌, ◌-◌, ◌*◌, ◌/◌, ◌%◌, ◌≤◌, ◌≡◌, refl, ap, sym, ◌∙◌, List, [], ◌∷◌, ◌++◌, length,
  take, drop, replicate, get_elem?, leb, true, none, some, ◌↔◌, length-append, append_assoc, arith,
}
use fusotao_protocol.Base.Result.{Result, ok, ok-injective}
use fusotao_protocol.Support.ResourceId.{
  u16_to_le_bytes, byte_at, derive_resource_id, decode_resource_id,
}

drop-append : (n k : ℕ) (xs ys : List ℕ) → n ≡ length xs + k → drop n (xs ++ ys) ≡ drop k ys
drop-append n k [] ys h = ap (λ i. drop i ys) (omega (arith, h))
drop-append zero k (x ∷ xs) ys h = absurd (omega (arith, h))
drop-append (suc n) k (x ∷ xs) ys h = drop-append n k xs ys (omega (arith, h))

take-append : (xs ys : List ℕ) → take (length xs) (xs ++ ys) ≡ xs
take-append [] ys = refl
take-append (x ∷ xs) ys = ap (λ zs. x ∷ zs) (take-append xs ys)

get_elem?-append :
    (n k : ℕ) (xs ys : List ℕ) → n ≡ length xs + k → get_elem? (xs ++ ys) n ≡ get_elem? ys k
get_elem?-append n k [] ys h = ap (get_elem? ys) (omega (arith, h))
get_elem?-append zero k (x ∷ xs) ys h = absurd (omega (arith, h))
get_elem?-append (suc n) k (x ∷ xs) ys h = get_elem?-append n k xs ys (omega (arith, h))

length-take : (n : ℕ) (xs : List ℕ) → n ≤ length xs → length (take n xs) ≡ n
length-take zero xs h = refl
length-take (suc n) [] h = omega (arith, h)
length-take (suc n) (x ∷ xs) h = ap suc (length-take n xs (omega (arith, h)))

-- The bytes after the length: zeros, the contract, the tag and the chain.
abbrev tail_of : ℕ → ℕ → ℕ → List ℕ → List ℕ
tail_of m chain dex id =
    take m (replicate 28 0 ++ dex ∷ u16_to_le_bytes chain) ++ id ++ dex ∷ u16_to_le_bytes chain

starts : (n m : ℕ) (x : ℕ) (xs : List ℕ) → n ≡ suc m → drop 1 (take n (x ∷ xs)) ≡ take m xs
starts n m x xs h = rw h refl

derive_resource_id-eq :
    (m chain dex : ℕ) (id : List ℕ)
    → m + length id ≡ 28
    → derive_resource_id chain dex id ≡ ok (length id ∷ tail_of m chain dex id)
unfolding derive_resource_id
derive_resource_id-eq m chain dex id h =
    let n : 29 - length id ≡ suc m = omega (arith, h) in
    let end : suc m + length id ≡ 29 = omega (arith, h) in
    let short : leb (length id) 28 ≡ true = ground (arith, h) in rw (short, n, end) refl

length-pad : (m : ℕ) (rest : List ℕ) → m ≤ 28 → length (take m (replicate 28 0 ++ rest)) ≡ m
length-pad m rest h = length-take m (replicate 28 0 ++ rest) (omega (arith, h))

decode_tail :
    {E : Type 0} (m chain dex : ℕ) (id : List ℕ)
    → m + length id ≡ 28
    → (let r : Result E (ℕ × ℕ × List ℕ) =
          decode_resource_id (length id ∷ tail_of m chain dex id) in
        r ≡ ok (chain, dex, id))
unfolding decode_resource_id
decode_tail m chain dex id h =
    let end = dex ∷ u16_to_le_bytes chain in
    let pad = take m (replicate 28 0 ++ end) in
    let padded : length pad ≡ m = length-pad m end (omega (arith, h)) in
    let short : leb (length id) 29 ≡ true = ground (arith, h) in
    let after : 29 - length id ≡ suc m = omega (arith, h) in
    let whole : chain % 256 + 256 * (chain / 256) ≡ chain = omega arith in
    let chain_at : drop 29 (pad ++ id ++ end) ≡ u16_to_le_bytes chain =
      drop-append 29 1 (pad ++ id) end (omega (arith, padded, length-append pad id, h)) in
    let dex_at : get_elem? (pad ++ id ++ end) 28 ≡ some dex =
      get_elem?-append 28 0 (pad ++ id) end (omega (arith, padded, length-append pad id, h)) in
    let dex_byte : byte_at 29 (length id ∷ tail_of m chain dex id) ≡ dex =
      ap (λ o. elim o [ none ↦ 0 | some b ↦ b ]) dex_at in
    let id_at : drop m (pad ++ id ++ end) ≡ id ++ end =
      ap (drop m) (append_assoc pad id end)
      ∙ drop-append m 0 pad (id ++ end) (omega (arith, padded)) in
    rw (short, after, chain_at, dex_byte, id_at, take-append id end, whole) refl

derive_resource_id-short :
    (chain dex : ℕ) (id r_id : List ℕ) → derive_resource_id chain dex id ≡ ok r_id → length id ≤ 28
unfolding derive_resource_id
derive_resource_id-short chain dex id r_id h = ground arith

-- Decoding an identifier that was derived gives back the chain, the tag and the contract.
pub decode_resource_id-derive_resource_id :
    {E : Type 0} (chain dex : ℕ) (id r_id : List ℕ)
    → derive_resource_id chain dex id ≡ ok r_id
    → (let r : Result E (ℕ × ℕ × List ℕ) = decode_resource_id r_id in r ≡ ok (chain, dex, id))
decode_resource_id-derive_resource_id chain dex id r_id h =
    let short = derive_resource_id-short chain dex id r_id h in
    let fills : 28 - length id + length id ≡ 28 = omega (arith, short) in
    let bytes = derive_resource_id-eq (28 - length id) chain dex id fills in
    rw (ok-injective (sym h ∙ bytes)) (decode_tail (28 - length id) chain dex id fills)

-- An identifier is derived exactly from contracts of 28 bytes at most.
pub derive_resource_id_iff :
    (chain dex : ℕ) (id : List ℕ)
    → (length id ≤ 28) ↔ ((r_id : List ℕ) × (derive_resource_id chain dex id ≡ ok r_id))
derive_resource_id_iff chain dex id = (
  (λ short.
      let fills : 28 - length id + length id ≡ 28 = omega (arith, short) in
      (
        length id ∷ tail_of (28 - length id) chain dex id,
        derive_resource_id-eq (28 - length id) chain dex id fills,
      )),
  (λ (r_id, h). derive_resource_id-short chain dex id r_id h),
)
