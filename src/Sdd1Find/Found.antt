-- ===== src/Sdd1Find/Found.antt =====
-- The bitmaps of `find_streams` hide no stream.
use street_fighter_alpha_2_n.Base.{
  ℕ, zero, suc, ◌+◌, ◌-◌, ◌≤◌, ◌<◌, ◌≡◌, ◌≢◌, inl, inr, refl, ap, ◌∙◌, sym, true, Option, none,
  some, Option-cases, Bool-cases, List, [], ◌∷◌, In, In-range, length, take, drop, slice, find,
  find_first, first_of, occurrences, slice-occurrence, occurrence_within, range, Result, ok,
  ok_injective, arith,
}
use street_fighter_alpha_2_n.Sdd1Find.{
  Hash, Decode, Hit, Error, probe_length, min_probe_distinct, confirm_length, min_distinct,
  extend_length, window_hash, among, probe, is_distinctive, target_of, extended, hits_from,
  find_streams,
}
use street_fighter_alpha_2_n.Sdd1Find.Bitmaps.{
  bitmap_of, build_bitmap_lem, probe_lem, probe-bitmap_of,
}
use street_fighter_alpha_2_n.Sdd1Find.Extended.{extend_lem}

first_In : (xs : List ℕ) (a : ℕ) → first_of xs ≡ some a → In a xs
first_In [] a h = absurd (cc h)
first_In (x ∷ xs) a h = let same_a : x ≡ a = cc h in inl (sym same_a)

-- where a run is found, it stands
found_at :
    (d p : List ℕ) (a : ℕ)
    → p ≢ []
    → find d p 0 ≡ some a
    → (slice d a (length p) ≡ p) × (a + length p ≤ length d)
found_at d p a some_p h =
    let there = first_In (occurrences d p 0) a (sym (find_first d p some_p) ∙ h) in
    (slice-occurrence d p a there, occurrence_within d p a some_p there)

pub take-take : (n m : ℕ) (xs : List ℕ) → n ≤ m → take n (take m xs) ≡ take n xs
take-take zero m xs h = refl
take-take (suc n) zero xs h = absurd (omega (arith, h))
take-take (suc n) (suc m) [] h = refl
take-take (suc n) (suc m) (x ∷ xs) h = ap (λ l. x ∷ l) (take-take n m xs (omega (arith, h)))

-- An offset whose output is in the reference: both outputs have enough distinct bytes.
pub record IsStream (decode : Decode) (source reference : List ℕ) (offset target : ℕ) : Type 0 where
  pub head : List ℕ
  pub head_is : decode source offset probe_length ≡ some head
  pub head_distinct : is_distinctive head min_probe_distinct ≡ true
  pub blob : List ℕ
  pub blob_is : decode source offset confirm_length ≡ some blob
  pub blob_distinct : is_distinctive blob min_distinct ≡ true
  pub stands : find reference blob 0 ≡ some target

-- Outputs of one byte to 64 KB have the length that is asked for, and a shorter one is the start of a
-- longer one. (The decoder takes a length of zero for 64 KB.)
pub record IsPrefixed (decode : Decode) : Type 0 where
  pub sized :
      (source : List ℕ) (offset n : ℕ) (blob : List ℕ)
      → 0 < n
      → n ≤ 0x10000
      → decode source offset n ≡ some blob
      → length blob ≡ n
  pub starts :
      (source : List ℕ) (offset n m : ℕ) (short long : List ℕ)
      → 0 < n
      → n ≤ m
      → m ≤ 0x10000
      → decode source offset n ≡ some short
      → decode source offset m ≡ some long
      → short ≡ take n long

module _ (crc32 : Hash) (decode : Decode) (source reference : List ℕ) (probe_bits confirm_bits : ℕ)
    (wide : 3 ≤ probe_bits) (wide' : 3 ≤ confirm_bits) where
  -- the target that is seen of an offset
  abbrev seen_of : ℕ → Result Error (Option ℕ)
  seen_of offset =
      target_of crc32 decode source reference (bitmap_of crc32 reference probe_length probe_bits)
        (bitmap_of crc32 reference confirm_length confirm_bits) probe_bits confirm_bits offset

  -- No probe is past its bitmap.
  target_of_ends : (offset : ℕ) → (at : Option ℕ) × (seen_of offset ≡ ok at)
  unfolding target_of
  target_of_ends offset = elim (Option-cases (decode source offset probe_length)) [
    | inl e ↦ (none, rw (target_of, e) refl)
    | inr (head, e) ↦ elim (Bool-cases (is_distinctive head min_probe_distinct)) [
      | inr f ↦ (none, rw (target_of, e, f) refl)
      | inl f ↦
          let seen =
            probe_lem crc32 (bitmap_of crc32 reference probe_length probe_bits) head probe_bits wide
              refl in
          elim (Bool-cases (
            among (window_hash crc32 head probe_bits)
              (bitmap_of crc32 reference probe_length probe_bits).slots)) [
                | inr g ↦ (none, rw (target_of, e, f, seen, g) refl)
                | inl g ↦ elim (Option-cases (decode source offset confirm_length)) [
                  | inl h ↦ (none, rw (target_of, e, f, seen, g, h) refl)
                  | inr (blob, h) ↦ elim (Bool-cases (is_distinctive blob min_distinct)) [
                    | inr k ↦ (none, rw (target_of, e, f, seen, g, h, k) refl)
                    | inl k ↦
                        let confirmed =
                          probe_lem crc32 (bitmap_of crc32 reference confirm_length confirm_bits)
                            blob confirm_bits wide' refl in
                        elim (Bool-cases (
                          among (window_hash crc32 blob confirm_bits)
                            (bitmap_of crc32 reference confirm_length confirm_bits).slots)) [
                              | inr l ↦
                                  (none, rw (target_of, e, f, seen, g, h, k, confirmed, l) refl)
                              | inl l ↦ (
                                find reference blob 0,
                                rw (target_of, e, f, seen, g, h, k, confirmed, l) refl,
                              )
                            ]
                  ]
                ]
              ]
    ]
  ]

  module _ (prefixed : IsPrefixed decode) where
    target_of-IsStream :
        (offset target : ℕ)
        → IsStream decode source reference offset target
        → seen_of offset ≡ ok (some target)
    unfolding target_of slice
    target_of-IsStream offset target s =
        let sized : length s.blob ≡ confirm_length =
          prefixed.sized source offset confirm_length s.blob (omega arith) (omega arith)
            s.blob_is in
        let there =
          found_at reference s.blob target (λ e. absurd (omega (arith, sized, ap length e)))
            s.stands in
        let whole : slice reference target confirm_length ≡ s.blob =
          ap (slice reference target) (sym sized) ∙ there.0 in
        let start : slice reference target probe_length ≡ s.head =
          sym (take-take probe_length confirm_length (drop target reference) (omega arith))
          ∙ ap (take probe_length) whole
          ∙ sym (
              prefixed.starts source offset probe_length confirm_length s.head s.blob (omega arith)
                (omega arith) (omega arith) s.head_is s.blob_is) in
        let seen_head : probe crc32 (bitmap_of crc32 reference probe_length probe_bits) s.head
              probe_bits
            ≡ ok true =
          rw (sym start) (
            probe-bitmap_of crc32 reference probe_length probe_bits target wide
              (omega (arith, there.1, sized))) in
        let seen_blob : probe crc32 (bitmap_of crc32 reference confirm_length confirm_bits) s.blob
              confirm_bits
            ≡ ok true =
          rw (sym whole) (
            probe-bitmap_of crc32 reference confirm_length confirm_bits target wide'
              (omega (arith, there.1, sized))) in
        rw (target_of, s.head_is, s.head_distinct, seen_head, s.blob_is, s.blob_distinct, seen_blob)
          (ap (λ at. ok at) s.stands)

    -- the hits of the offsets
    abbrev AreFound : List ℕ → List Hit → Type 0
    AreFound offsets hits =
        (offset target : ℕ)
        → In offset offsets
        → IsStream decode source reference offset target
        → (hit : Hit) × In hit hits × (hit.source ≡ offset) × (hit.target ≡ target)

    seen_same :
        (offset o t : ℕ) (at : Option ℕ)
        → seen_of offset ≡ ok at
        → o ≡ offset
        → IsStream decode source reference o t
        → at ≡ some t
    seen_same offset o t at seen e s =
        ok_injective at (some t) (sym seen ∙ ap seen_of (sym e) ∙ target_of-IsStream o t s)

    hits_from_lem :
        (offsets : List ℕ)
        → (hits : List Hit) × (hits_from crc32 decode source reference
              (bitmap_of crc32 reference probe_length probe_bits)
              (bitmap_of crc32 reference confirm_length confirm_bits)
              probe_bits
              confirm_bits
              offsets
            ≡ ok hits)
          × AreFound offsets hits
    unfolding hits_from extended
    hits_from_lem [] = ([], refl, λ o t i s. absurd i)
    hits_from_lem (offset ∷ offsets) =
        let (hits, ends, found) = hits_from_lem offsets in
        let (at, seen) = target_of_ends offset in
        elim (Option-cases at) [
          | inl nothing ↦ (
            hits,
            rw (hits_from, seen, nothing) ends,
            λ o t i s. elim i [
              | inl e ↦ absurd (cc (seen_same offset o t at seen e s, nothing))
              | inr k ↦ found o t k s
            ],
          )
          | inr (target, something) ↦
              let (n, reached, least, longer) =
                extend_lem decode source reference offset target extend_length in
              (
                record { source = offset; target = target; length' = n } ∷ hits,
                rw (hits_from, seen, something, extended, reached, ends) refl,
                λ o t i s. elim i [
                  | inl e ↦
                      let same_target : target ≡ t =
                        cc (seen_same offset o t at seen e s, something) in
                      (
                        record { source = offset; target = target; length' = n },
                        inl refl,
                        sym e,
                        same_target,
                      )
                  | inr k ↦
                      let (hit, there, same_source, same_target) = found o t k s in
                      (hit, inr there, same_source, same_target)
                ],
              )
        ]

-- For a decoder whose outputs of one byte to 64 KB have the length that is asked for, the shorter
-- ones at the start of the longer, for any hash and for bitmaps of three bits or wider:
-- `find_streams` ends without an error, and has a hit for every offset in its range whose first 8
-- bytes and whose first 32 are distinctive and stand in the reference, with the place where the 32
-- first do.
pub find_streams_lem :
    (crc32 : Hash) (decode : Decode) (source reference : List ℕ)
    (start stop probe_bits confirm_bits : ℕ)
    → 3 ≤ probe_bits
    → 3 ≤ confirm_bits
    → IsPrefixed decode
    → (hits : List Hit) × (find_streams crc32 decode source reference start stop probe_bits
          confirm_bits
        ≡ ok hits)
      × ((offset target : ℕ)
          → start ≤ offset
          → offset < stop
          → IsStream decode source reference offset target
          → (hit : Hit) × In hit hits × (hit.source ≡ offset) × (hit.target ≡ target))
unfolding find_streams
find_streams_lem crc32 decode source reference start stop probe_bits confirm_bits wide wide'
      prefixed =
    let (hits, ends, found) =
      hits_from_lem crc32 decode source reference probe_bits confirm_bits wide wide' prefixed
        (range start (stop - start)) in
    (
      hits,
      rw
          (
            build_bitmap_lem crc32 reference probe_length probe_bits wide,
            build_bitmap_lem crc32 reference confirm_length confirm_bits wide',
          )
          ends,
      λ offset target from to s.
          found offset target (In-range start (stop - start) offset from (omega (arith, from, to)))
            s,
    )
