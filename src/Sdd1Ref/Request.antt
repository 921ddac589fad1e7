-- ===== src/Sdd1Ref/Request.antt =====
-- What `encode_request` sends reads back as the cartridge and the cases.
use street_fighter_alpha_2_n.Base.{
  ℕ, zero, suc, ◌%◌, ◌≤◌, ◌<◌, ◌≡◌, inl, inr, refl, ap, true, List, [], ◌∷◌, ◌++◌, map, length,
  take, drop, All, leb, ltb, Bool-cases, ok, arith,
}
use native.Mathlib.Nat.{mod-eq_of_lt, mod_self, mod-lt}
use street_fighter_alpha_2_n.Sdd1Map.{from_little}
use street_fighter_alpha_2_n.Sdd1Ref.{Case, to_little, size_of, encode_cases, encode_request}

little : (n : ℕ) → n < 0x100000000 → from_little (to_little 4 n) ≡ n
unfolding from_little to_little
little n h = omega arith

four :
    (n : ℕ) (d : List ℕ)
    → (take 4 (to_little 4 n ++ d) ≡ to_little 4 n) × (drop 4 (to_little 4 n ++ d) ≡ d)
unfolding to_little
four n d = (refl, refl)

mod_block : (m n : ℕ) → 0 < m → n ≤ m → size_of m (n % m) ≡ size_of m n
mod_block m n h le = elim (Bool-cases (ltb n m)) [
  | inl less ↦ let e : n % m ≡ n = mod-eq_of_lt (ground (arith, less)) in rw e refl
  | inr full ↦
      let same : n ≡ m = ground (arith, full, le) in
      let e : m % m ≡ 0 = mod_self m in rw (same, e) (ground (arith, h))
]

-- A case that `encode_request` accepts: its offset lies in the cartridge, its length in a block.
abbrev pub IsEncodable : ℕ → ℕ → Case → Type 0
IsEncodable max_length size c = (c.0 < size) × (c.1 ≤ max_length)

-- the offset, and the length that the response has for the case
abbrev pub answered : ℕ → Case → Case
answered max_length c = (c.0, size_of max_length c.1)

-- A reader of requests, written from their layout: as many cases as are said to follow.
abbrev pub read_cases : ℕ → ℕ → List ℕ → List Case
read_cases max_length zero d = []
read_cases max_length (suc count) d =
    (from_little (take 4 d), size_of max_length (from_little (take 4 (drop 4 d))))
    ∷ read_cases max_length count (drop 4 (drop 4 d))

abbrev pub read_rest : ℕ → List ℕ → List Case
read_rest max_length d = read_cases max_length (from_little (take 4 d)) (drop 4 d)

abbrev pub read_request : ℕ → List ℕ → List ℕ × List Case
read_request max_length d = (
  take (from_little (take 4 d)) (drop 4 d),
  read_rest max_length (drop (from_little (take 4 d)) (drop 4 d)),
)

take-append : (xs ys : List ℕ) → take (length xs) (xs ++ ys) ≡ xs
take-append [] ys = refl
take-append (x ∷ xs) ys = ap (λ l. x ∷ l) (take-append xs ys)

drop-append : (xs ys : List ℕ) → drop (length xs) (xs ++ ys) ≡ ys
drop-append [] ys = refl
drop-append (x ∷ xs) ys = drop-append xs ys

module _ (max_length : ℕ) (block : 0 < max_length) (narrow : max_length ≤ 0x100000000)
    (rom : List ℕ) (small : length rom < 0x100000000) where
  read_cases-encode_cases :
      (cases : List Case)
      → All (IsEncodable max_length (length rom)) cases
      → (parts : List ℕ) × (encode_cases max_length rom cases ≡ ok parts)
        × (read_cases max_length (length cases) parts ≡ map (answered max_length) cases)
  unfolding encode_cases
  read_cases-encode_cases [] a = ([], refl, refl)
  read_cases-encode_cases ((offset, n) ∷ cases) a =
      let (parts, e, r) = read_cases-encode_cases cases a.1 in
      let inside : ltb offset (length rom) ≡ true = ground (arith, a.0.0) in
      let fits : leb n max_length ≡ true = ground (arith, a.0.1) in
      (
        to_little 4 offset ++ (to_little 4 (n % max_length) ++ parts),
        rw (inside, fits, e) refl,
        rw
            (
              (four offset (to_little 4 (n % max_length) ++ parts)).0,
              (four offset (to_little 4 (n % max_length) ++ parts)).1,
              (four (n % max_length) parts).0,
              (four (n % max_length) parts).1,
              little offset (omega (arith, a.0.0, small)),
              little (n % max_length) (omega (arith, mod-lt n block, narrow)),
              mod_block max_length n block a.0.1,
              r,
            )
            refl,
      )

-- If every offset lies in the cartridge, every length in a block, and the cartridge, the block and
-- the number of cases in 32 bits, `encode_request` returns a request that reads back as the cartridge
-- and the cases, each with the length that the response has for it.
pub read_request-encode_request :
    (max_length : ℕ) (rom : List ℕ) (cases : List Case)
    → 0 < max_length
    → max_length ≤ 0x100000000
    → length rom < 0x100000000
    → length cases < 0x100000000
    → All (IsEncodable max_length (length rom)) cases
    → (request : List ℕ) × (encode_request max_length rom cases ≡ ok request)
      × (read_request max_length request ≡ (rom, map (answered max_length) cases))
unfolding encode_request
read_request-encode_request max_length rom cases block narrow small few a =
    let (parts, e, r) = read_cases-encode_cases max_length block narrow rom small cases a in
    (
      to_little 4 (length rom) ++ (rom ++ (to_little 4 (length cases) ++ parts)),
      rw e refl,
      reads parts r,
    )
  where
    reads :
        (parts : List ℕ)
        → read_cases max_length (length cases) parts ≡ map (answered max_length) cases
        → read_request max_length
            (to_little 4 (length rom) ++ (rom ++ (to_little 4 (length cases) ++ parts)))
          ≡ (rom, map (answered max_length) cases)
    reads parts r =
        rw
          (
            (four (length rom) (rom ++ (to_little 4 (length cases) ++ parts))).0,
            (four (length rom) (rom ++ (to_little 4 (length cases) ++ parts))).1,
            little (length rom) small,
            take-append rom (to_little 4 (length cases) ++ parts),
            drop-append rom (to_little 4 (length cases) ++ parts),
            (four (length cases) parts).0,
            (four (length cases) parts).1,
            little (length cases) few,
            r,
          )
          refl
