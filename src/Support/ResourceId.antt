-- ===== src/Support/ResourceId.antt =====
-- The identifiers of resources, 32 bytes that hold the length of a contract, the contract, a tag
-- and a chain.
-- Source: fuso-support/src/external_chain.rs, `chainbridge`.
pub mod RoundTrip
use fusotao_protocol.Base.{
  ℕ, ◌+◌, ◌-◌, ◌*◌, ◌/◌, ◌%◌, List, [], ◌∷◌, ◌++◌, Option, none, some, length, take, drop,
  replicate, get_elem?, ltb, leb, if◌then◌else◌,
}
use fusotao_protocol.Base.Result.{Result, ok, err, panicked, ensure, ◌>>=◌, ◌>>◌}

-- `to_le_bytes` and `from_le_bytes` of `u16`.
abbrev pub u16_to_le_bytes : ℕ → List ℕ
u16_to_le_bytes n = n % 256 ∷ n / 256 ∷ []

abbrev pub u16_from_le_bytes : List ℕ → ℕ
u16_from_le_bytes [] = 0
u16_from_le_bytes (lo ∷ []) = lo
u16_from_le_bytes (lo ∷ hi ∷ rest) = lo + 256 * hi

-- `bytes[at..at + xs.len()].copy_from_slice(&xs)`, of a range within the bytes.
abbrev pub copy_at : ℕ → List ℕ → List ℕ → List ℕ
copy_at at xs bytes = take at bytes ++ xs ++ drop (at + length xs) bytes

pub data IdError : Type 0 where
  id_too_long : IdError

unfoldable pub derive_resource_id : ℕ → ℕ → List ℕ → Result IdError (List ℕ)
derive_resource_id chain dex id = do
  let id_len = length id
  ensure (leb id_len 28) id_too_long
  let with_chain = copy_at 30 (u16_to_le_bytes chain) (replicate 32 0)
  let with_dex = copy_at 29 (dex ∷ []) with_chain
  let with_id = copy_at (29 - id_len) id with_dex
  ok (copy_at 0 (id_len ∷ []) with_id)

-- A byte of 32; the others do not occur.
abbrev pub byte_at : ℕ → List ℕ → ℕ
byte_at i bytes = elim (get_elem? bytes i) [ none ↦ 0 | some b ↦ b ]

-- A length above 29 leaves no slice: the code panics, whatever the build.
unfoldable pub decode_resource_id : {E : Type 0} → List ℕ → Result E (ℕ × ℕ × List ℕ)
decode_resource_id r_id =
    let id_len = byte_at 0 r_id in
    if leb id_len 29
    then ok
        (u16_from_le_bytes (drop 30 r_id), byte_at 29 r_id, take id_len (drop (29 - id_len) r_id))
    else panicked
