-- ===== src/Sdd1Ref.antt =====
-- sdd1ref.py: the request that the reference decompressor is sent, and its response. A case is an
-- offset and a length; `max_length` is the decoder package's `MAX_LENGTH`.
mod Request
mod Response
mod Tests
use street_fighter_alpha_2_n.Base.{
  ℕ, zero, suc, ◌+◌, ◌/◌, ◌%◌, Bool, true, false, not, ◌&&◌, List, [], ◌∷◌, ◌++◌, length, slice,
  leb, ltb, ◌==◌, if◌then◌else◌, Result, ok, err, ◌>>=◌, ◌>>◌, refuse,
}

abbrev pub Case : Type 0
Case = ℕ × ℕ

-- the three `ValueError`s
pub data Error : Type 0 where
  outside_rom exceeds_block : ℕ → Error
  short_response : Error

-- n.to_bytes(k, "little"), where it does not overflow
unfoldable pub to_little : ℕ → ℕ → List ℕ
to_little zero n = []
to_little (suc k) n = n % 0x100 ∷ to_little k (n / 0x100)

module _ (max_length : ℕ) where
  -- the loop of `encode_request`
  unfoldable pub encode_cases : List ℕ → List Case → Result Error (List ℕ)
  encode_cases rom [] = ok []
  encode_cases rom ((offset, n) ∷ cases) = do
    refuse (not (ltb offset (length rom))) (outside_rom offset)
    refuse (not (leb n max_length)) (exceeds_block n)
    later ← encode_cases rom cases
    ok (to_little 4 offset ++ (to_little 4 (n % max_length) ++ later))

  unfoldable pub encode_request : List ℕ → List Case → Result Error (List ℕ)
  encode_request rom cases = do
    parts ← encode_cases rom cases
    ok (to_little 4 (length rom) ++ (rom ++ (to_little 4 (length cases) ++ parts)))

  -- `length if length else MAX_LENGTH`
  abbrev pub size_of : ℕ → ℕ
  size_of n = if n == 0 then max_length else n

  unfoldable pub decode_from : List ℕ → ℕ → List Case → Result Error (List (List ℕ))
  decode_from blob pos [] = ok []
  decode_from blob pos ((offset, n) ∷ cases) = do
    refuse (not (length (slice blob pos (size_of n)) == size_of n)) short_response
    parts ← decode_from blob (pos + size_of n) cases
    ok (slice blob pos (size_of n) ∷ parts)

  unfoldable pub decode_response : List ℕ → List Case → Result Error (List (List ℕ))
  decode_response blob cases = decode_from blob 0 cases
