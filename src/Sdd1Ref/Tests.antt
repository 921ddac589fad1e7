-- ===== src/Sdd1Ref/Tests.antt =====
-- The theorems of sdd1ref.py at a small response.
use street_fighter_alpha_2_n.Base.{
  ℕ, ◌≤◌, ◌<◌, arith, ◌≡◌, ◌⊎◌, List, [], ◌∷◌, map, length, slice, ok, err,
}
use street_fighter_alpha_2_n.Sdd1Ref.{Case, short_response, encode_request, decode_response}
use street_fighter_alpha_2_n.Sdd1Ref.Request.{answered, read_request, read_request-encode_request}
use street_fighter_alpha_2_n.Sdd1Ref.Response.{joined, sizes, asked, decode_response_lem}

abbrev two : List Case
two = (3, 2) ∷ (5, 1) ∷ []

abbrev response : List ℕ
response = 7 ∷ 8 ∷ 9 ∷ []

decode_response_lem_example :
    ((asked 16 two ≤ length response)
      × ((parts : List (List ℕ)) × (decode_response 16 response two ≡ ok parts)
          × (map length parts ≡ sizes 16 two)
          × (joined parts ≡ slice response 0 (asked 16 two))))
    ⊎ ((length response < asked 16 two) × (decode_response 16 response two ≡ err short_response))
decode_response_lem_example = decode_response_lem 16 response two

-- a cartridge of six bytes
abbrev six : List ℕ
six = 1 ∷ 2 ∷ 3 ∷ 4 ∷ 5 ∷ 6 ∷ []

read_request-encode_request_example :
    (request : List ℕ) × (encode_request 16 six two ≡ ok request)
    × (read_request 16 request ≡ (six, map (answered 16) two))
read_request-encode_request_example =
    read_request-encode_request 16 six two (omega arith) (omega arith) (omega arith) (omega arith)
      (ground arith)
