-- ===== src/SpcFast/Checksum.antt =====
-- The checksum that `write_checksum` stamps is the cartridge's own.
use street_fighter_alpha_2_n.Base.{
  ℕ, ◌+◌, ◌-◌, ◌/◌, ◌%◌, ◌<◌, ◌≤◌, ◌≡◌, ap, ◌∙◌, sym, refl, List, [], ◌∷◌, ◌++◌, length, take, drop,
  replicate, length-replicate, splice, length-splice, slice, slice-splice_self, splice-splice,
  bit_xor_ones, low16, arith,
}
use street_fighter_alpha_2_n.SpcFast.{
  sum, checksum, stamp, write_checksum, checksum_field, checksum_field_sum,
}

sum-append : (xs ys : List ℕ) → sum (xs ++ ys) ≡ sum xs + sum ys
unfolding sum
sum-append [] ys = omega arith
sum-append (x ∷ xs) ys = omega (arith, sum-append xs ys)

pub sum-splice :
    (d : List ℕ) (i : ℕ) (p : List ℕ)
    → sum (splice d i p) ≡ sum (take i d) + sum p + sum (drop (i + length p) d)
unfolding splice
sum-splice d i p =
    sum-append (take i d) (p ++ drop (i + length p) d)
    ∙ omega (arith, sum-append p (drop (i + length p) d))

pub length-stamp : (value : ℕ) → length (stamp value) ≡ 4
unfolding stamp
length-stamp value = refl

sum-stamp : (value : ℕ) → value < 0x10000 → sum (stamp value) ≡ checksum_field_sum
unfolding sum stamp
sum-stamp value h = omega (arith, bit_xor_ones 16 value 0xFFFF refl (omega arith))

zeros : sum (replicate 4 0) ≡ 0
unfolding sum replicate
zeros = refl

-- the complement and the checksum, low bytes first
abbrev pub spelled : ℕ → List ℕ
spelled c = (0xFFFF - c) % 0x100 ∷ (0xFFFF - c) / 0x100 ∷ c % 0x100 ∷ c / 0x100 ∷ []

stamp_lem : (value : ℕ) → value < 0x10000 → stamp value ≡ spelled value
unfolding stamp
stamp_lem value h = rw (bit_xor_ones 16 value 0xFFFF refl (omega arith)) refl

checksum-lt : (rom : List ℕ) → checksum rom < 0x10000
unfolding checksum
checksum-lt rom = omega arith

-- Two fields of one size change the sum by what they add up to themselves.
sum-splice_lem :
    (d : List ℕ) (i : ℕ) (p q : List ℕ)
    → length p ≡ length q
    → sum q ≡ 0
    → sum (splice d i p) ≡ sum (splice d i q) + sum p
sum-splice_lem d i p q e z =
    sum-splice d i p
    ∙ ap (λ n. sum (take i d) + sum p + sum (drop (i + n) d)) e
    ∙ omega (arith, sum-splice d i q)

four : (value : ℕ) → length (stamp value) ≡ length (replicate {A = ℕ} 4 0)
four value = length-stamp value ∙ sym (length-replicate {A = ℕ} 4 0)

pub stamp_fits :
    (rom : List ℕ) (value : ℕ)
    → checksum_field + 4 ≤ length rom
    → checksum_field + length (stamp value) ≤ length rom
stamp_fits rom value h = omega (arith, length-stamp value)

pub length-write_checksum :
    (rom : List ℕ) → checksum_field + 4 ≤ length rom → length (write_checksum rom) ≡ length rom
unfolding write_checksum
length-write_checksum rom h =
    length-splice rom checksum_field (stamp (checksum rom)) (stamp_fits rom (checksum rom) h)

-- The stamped bytes add up to what `checksum` adds for them.
sum_stamped :
    (rom : List ℕ) → low16 (sum (splice rom checksum_field (stamp (checksum rom)))) ≡ checksum rom
sum_stamped rom =
    ap low16 (
      sum-splice_lem rom checksum_field (stamp (checksum rom)) (replicate 4 0) (four (checksum rom))
        zeros
      ∙ ap (λ n. sum (splice rom checksum_field (replicate 4 0)) + n)
          (sum-stamp (checksum rom) (checksum-lt rom)))
    ∙ checksum_sum rom
  where
    checksum_sum :
        (d : List ℕ)
        → low16 (sum (splice d checksum_field (replicate 4 0)) + checksum_field_sum) ≡ checksum d
    checksum_sum d = unfold checksum in refl

-- `checksum` does not read the field.
checksum-splice :
    (rom : List ℕ) (value : ℕ)
    → checksum_field + 4 ≤ length rom
    → checksum (splice rom checksum_field (stamp value)) ≡ checksum rom
unfolding checksum
checksum-splice rom value h =
    ap (λ d. low16 (sum d + checksum_field_sum))
      (splice-splice rom checksum_field (stamp value) (replicate 4 0) (four value)
        (omega (arith, length-replicate {0} {A = ℕ} 4 0)))

field_stamped :
    (rom : List ℕ) (value : ℕ)
    → value < 0x10000
    → checksum_field + 4 ≤ length rom
    → slice (splice rom checksum_field (stamp value)) checksum_field 4 ≡ spelled value
field_stamped rom value low h =
    ap (slice (splice rom checksum_field (stamp value)) checksum_field) (sym (length-stamp value))
    ∙ slice-splice_self rom checksum_field (stamp value) (stamp_fits rom value h)
    ∙ stamp_lem value low

stamped_again :
    (rom : List ℕ)
    → checksum_field + 4 ≤ length rom
    → splice
        (splice rom checksum_field (stamp (checksum rom)))
        checksum_field
        (stamp (checksum (splice rom checksum_field (stamp (checksum rom)))))
      ≡ splice rom checksum_field (stamp (checksum rom))
stamped_again rom h =
    ap (λ v. splice (splice rom checksum_field (stamp (checksum rom))) checksum_field (stamp v))
      (checksum-splice rom (checksum rom) h)
    ∙ splice-splice rom checksum_field (stamp (checksum rom)) (stamp (checksum rom)) refl
        (stamp_fits rom (checksum rom) h)

-- For a cartridge that reaches past the header's checksum field: after `write_checksum` the field
-- holds the complement and then the checksum, low byte first; the checksum is the sum of all bytes
-- of the stamped cartridge, field included, in 16 bits; and stamping again changes nothing.
pub write_checksum_lem :
    (rom : List ℕ)
    → checksum_field + 4 ≤ length rom
    → (slice (write_checksum rom) checksum_field 4 ≡ spelled (checksum rom))
      × (low16 (sum (write_checksum rom)) ≡ checksum rom)
      × (write_checksum (write_checksum rom) ≡ write_checksum rom)
unfolding write_checksum
write_checksum_lem rom h =
    (field_stamped rom (checksum rom) (checksum-lt rom) h, sum_stamped rom, stamped_again rom h)
