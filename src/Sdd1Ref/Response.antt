-- ===== src/Sdd1Ref/Response.antt =====
-- `decode_response` cuts a response into one part for each case.
use street_fighter_alpha_2_n.Base.{
  ℕ, zero, suc, ◌+◌, ◌-◌, ◌≤◌, ◌<◌, ◌≡◌, ◌⊎◌, inl, inr, refl, ap, ◌∙◌, min, true, List, [], ◌∷◌,
  ◌++◌, map, length, take, drop, length-take, length-drop, slice, ◌==◌, ==_iff, Bool-cases, ok, err,
  arith,
}
use street_fighter_alpha_2_n.Sdd1Ref.{Case, short_response, size_of, decode_from, decode_response}

-- the parts one after another
abbrev pub joined : List (List ℕ) → List ℕ
joined [] = []
joined (part ∷ parts) = part ++ joined parts

module _ (max_length : ℕ) where
  abbrev pub sizes : List Case → List ℕ
  sizes [] = []
  sizes ((offset, n) ∷ cases) = size_of max_length n ∷ sizes cases

  -- the bytes that the cases ask for
  abbrev pub asked : List Case → ℕ
  asked [] = 0
  asked ((offset, n) ∷ cases) = size_of max_length n + asked cases

length-slice : (d : List ℕ) (i n : ℕ) → length (slice d i n) ≡ min n (length d - i)
unfolding slice
length-slice d i n = length-take n (drop i d) ∙ ap (min n) (length-drop i d)

slice-append : (d : List ℕ) (i n m : ℕ) → slice d i n ++ slice d (i + n) m ≡ slice d i (n + m)
unfolding slice
slice-append d i n m = rw (drop_drop d i n) (take_take (drop i d) n)
  where
    drop_drop : (xs : List ℕ) (j k : ℕ) → drop (j + k) xs ≡ drop k (drop j xs)
    drop_drop xs zero k = let e : 0 + k ≡ k = omega arith in rw e refl
    drop_drop [] (suc j) zero = let e : suc j + 0 ≡ suc j = omega arith in rw e refl
    drop_drop [] (suc j) (suc k) =
        let e : suc j + suc k ≡ suc (j + suc k) = omega arith in rw e refl
    drop_drop (x ∷ xs) (suc j) k =
        let e : suc j + k ≡ suc (j + k) = omega arith in rw e (drop_drop xs j k)

    take_take : (xs : List ℕ) (k : ℕ) → take k xs ++ take m (drop k xs) ≡ take (k + m) xs
    take_take xs zero = let e : 0 + m ≡ m = omega arith in rw e refl
    take_take [] (suc k) = let e : suc k + m ≡ suc (k + m) = omega arith in rw e (none m)
      where
        none : (j : ℕ) → ◌≡◌ {A = List ℕ} (take j []) []
        none zero = refl
        none (suc j) = refl
    take_take (x ∷ xs) (suc k) =
        let e : suc k + m ≡ suc (k + m) = omega arith in rw e (ap (λ l. x ∷ l) (take_take xs k))

module _ (max_length : ℕ) where
  -- The parts have the sizes asked for, and are the bytes from `pos` on, or these are too few.
  decode_from_lem :
      (blob : List ℕ) (pos : ℕ) (cases : List Case)
      → pos ≤ length blob
      → ((pos + asked max_length cases ≤ length blob)
          × ((parts : List (List ℕ)) × (decode_from max_length blob pos cases ≡ ok parts)
              × (map length parts ≡ sizes max_length cases)
              × (joined parts ≡ slice blob pos (asked max_length cases))))
        ⊎ ((length blob < pos + asked max_length cases)
            × (decode_from max_length blob pos cases ≡ err short_response))
  unfolding decode_from
  decode_from_lem blob pos [] within = inl (omega arith, ([], refl, refl, unfold slice in refl))
  decode_from_lem blob pos ((offset, n) ∷ cases) within =
      elim (Bool-cases (length (slice blob pos (size_of max_length n)) == size_of max_length n)) [
        | inr short ↦
            inr (ground (arith, short, length-slice blob pos (size_of max_length n)), rw short refl)
        | inl fits ↦
            let room : pos + size_of max_length n ≤ length blob =
              ground (arith, fits, length-slice blob pos (size_of max_length n)) in
            elim (decode_from_lem blob (pos + size_of max_length n) cases room) [
              | inr (few, e) ↦ inr (omega (arith, few), rw (fits, e) refl)
              | inl (enough, (parts, e, sized, whole)) ↦ inl (
                omega (arith, enough),
                (
                  slice blob pos (size_of max_length n) ∷ parts,
                  rw (fits, e) refl,
                  first parts fits sized,
                  ap (λ l. slice blob pos (size_of max_length n) ++ l) whole
                      ∙ slice-append blob pos (size_of max_length n) (asked max_length cases),
                ),
              )
            ]
      ]
    where
      first :
          (parts : List (List ℕ))
          → (length (slice blob pos (size_of max_length n)) == size_of max_length n) ≡ true
          → map length parts ≡ sizes max_length cases
          → length (slice blob pos (size_of max_length n)) ∷ map length parts
            ≡ size_of max_length n ∷ sizes max_length cases
      first parts fits sized =
          let same : length (slice blob pos (size_of max_length n)) ≡ size_of max_length n =
            (==_iff _ _).0 fits in
          rw (same, sized) refl

-- If the response holds all bytes that the cases ask for, `decode_response` returns a part for each
-- case, of its size, which one after another are those bytes; otherwise it raises that the response
-- is short.
pub decode_response_lem :
    (max_length : ℕ) (blob : List ℕ) (cases : List Case)
    → ((asked max_length cases ≤ length blob)
        × ((parts : List (List ℕ)) × (decode_response max_length blob cases ≡ ok parts)
            × (map length parts ≡ sizes max_length cases)
            × (joined parts ≡ slice blob 0 (asked max_length cases))))
      ⊎ ((length blob < asked max_length cases)
          × (decode_response max_length blob cases ≡ err short_response))
unfolding decode_response
decode_response_lem max_length blob cases =
    elim (decode_from_lem max_length blob 0 cases (omega arith)) [
      | inl (enough, found) ↦ inl (omega (arith, enough), found)
      | inr (few, e) ↦ inr (omega (arith, few), e)
    ]
