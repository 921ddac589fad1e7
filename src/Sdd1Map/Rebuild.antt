-- ===== src/Sdd1Map/Rebuild.antt =====
-- `rebuild` lays the decoded streams one after another.
use street_fighter_alpha_2_n.Base.{
  ℕ, zero, suc, ◌+◌, ◌-◌, ◌≤◌, ◌≡◌, refl, sym, ap, ◌∙◌, false, Option, none, some, List, [], ◌∷◌,
  ◌++◌, length, take, drop, replicate, length-append, length-replicate, All, ltb, ◌==◌, ok, Result,
  arith,
}
use street_fighter_alpha_2_n.Sdd1Map.{
  Entry, Decoded, Error, Known, decoded, with_length, known_of, assign_slice, write_known, size_of,
  rebuild,
}
use street_fighter_alpha_2_n.Sdd1Map.BuildMap.{start_of, Tiles}

-- The entry decodes to as many bytes as it says.
abbrev pub IsStored : (List ℕ → ℕ → ℕ → Option Decoded) → List ℕ → Entry → Type 0
IsStored decompress rom e =
    (n : ℕ) × (d : Decoded) × (e.length ≡ some n)
    × (decompress rom e.source n ≡ some d)
    × (length d.data' ≡ n)

-- the bytes of what was decoded
abbrev pub bytes_of : Option Decoded → List ℕ
bytes_of none = []
bytes_of (some d) = d.data'

abbrev pub length_or_zero : Option ℕ → ℕ
length_or_zero none = 0
length_or_zero (some n) = n

-- the streams of all entries, one after another
abbrev pub streams : (List ℕ → ℕ → ℕ → Option Decoded) → List ℕ → List Entry → List ℕ
streams decompress rom [] = []
streams decompress rom (e ∷ entries) =
    bytes_of (decompress rom e.source (length_or_zero e.length)) ++ streams decompress rom entries

append_assoc : (xs ys zs : List ℕ) → (xs ++ ys) ++ zs ≡ xs ++ (ys ++ zs)
append_assoc [] ys zs = refl
append_assoc (x ∷ xs) ys zs = ap (λ l. x ∷ l) (append_assoc xs ys zs)

append-nil : (xs : List ℕ) → xs ++ [] ≡ xs
append-nil [] = refl
append-nil (x ∷ xs) = ap (λ l. x ∷ l) (append-nil xs)

take-append : (xs ys : List ℕ) → take (length xs) (xs ++ ys) ≡ xs
take-append [] ys = refl
take-append (x ∷ xs) ys = ap (λ l. x ∷ l) (take-append xs ys)

drop-append : (xs ys : List ℕ) (n : ℕ) → drop (length xs + n) (xs ++ ys) ≡ drop n ys
drop-append [] ys n = ap (λ k. drop k ys) (omega arith)
drop-append (x ∷ xs) ys n =
    let e : suc (length xs) + n ≡ suc (length xs + n) = omega arith in rw e (drop-append xs ys n)

drop-replicate : (n m : ℕ) → drop {A = ℕ} n (replicate m 0) ≡ replicate (m - n) 0
unfolding replicate
drop-replicate zero m = let e : m - 0 ≡ m = omega arith in rw e refl
drop-replicate (suc n) zero = let e : 0 - suc n ≡ 0 = omega arith in rw e refl
drop-replicate (suc n) (suc m) =
    let e : suc m - suc n ≡ m - n = omega arith in rw e (drop-replicate n m)

-- Data that goes to the end of what is written takes the place of as many zeros.
assign_slice-append :
    (written new : List ℕ) (rest : ℕ)
    → assign_slice (written ++ replicate rest 0) (length written) (length written + length new) new
      ≡ (written ++ new) ++ replicate (rest - length new) 0
unfolding assign_slice
assign_slice-append written new rest =
    rw
      (
        take-append written (replicate rest 0),
        drop-append written (replicate rest 0) (length new),
        drop-replicate (length new) rest,
      )
      (sym (append_assoc written new (replicate (rest - length new) 0)))

replicate-append : (a b : ℕ) → replicate {A = ℕ} a 0 ++ replicate b 0 ≡ replicate (a + b) 0
unfolding replicate
replicate-append zero b = let e : 0 + b ≡ b = omega arith in rw e refl
replicate-append (suc a) b =
    let e : suc a + b ≡ suc (a + b) = omega arith in rw e (ap (λ l. 0 ∷ l) (replicate-append a b))

-- the entries with their lengths
pairs_of : List Entry → List Known
pairs_of [] = []
pairs_of (e ∷ entries) = (e, length_or_zero e.length) ∷ pairs_of entries

known_of-Tiles :
    (entries : List Entry) (size : ℕ)
    → Tiles entries size
    → known_of entries ≡ ok (pairs_of entries)
unfolding known_of with_length pairs_of
known_of-Tiles [] size t = refl
known_of-Tiles (e ∷ entries) size ((n, known, positive, meets), t) =
    let nonzero : (n == 0) ≡ false = ground arith in
    rw (known, known_of-Tiles entries size t, nonzero) refl

start_le : (entries : List Entry) (size : ℕ) → Tiles entries size → start_of entries size ≤ size
start_le [] size t = omega arith
start_le (e ∷ entries) size ((n, known, positive, meets), t) =
    omega (arith, start_le entries size t, meets)

module _ (decompress : List ℕ → ℕ → ℕ → Option Decoded) (rom : List ℕ) where
  write_known_lem :
      (entries : List Entry) (size : ℕ) (written : List ℕ)
      → Tiles entries size
      → All (IsStored decompress rom) entries
      → length written ≡ start_of entries size
      → write_known decompress rom size
          (pairs_of entries)
          (written ++ replicate (size - length written) 0)
        ≡ ok (written ++ streams decompress rom entries)
  unfolding write_known pairs_of decoded replicate
  write_known_lem [] size written t a h =
      let full : size - length written ≡ 0 = omega (arith, h) in rw full refl
  write_known_lem (e ∷ entries) size written ((n, known, positive, meets), t)
        ((m, d, known', reads, sized), a) h =
      rw known (
        step
        ∙ ap (write_known decompress rom size (pairs_of entries)) blob
        ∙ write_known_lem entries size (written ++ d.data') t a
            (omega (arith, h, meets, sized, same_n, length-append written d.data'))
        ∙ last)
    where
      same_n : m ≡ n
      same_n = cc

      reads_n : decompress rom e.source n ≡ some d
      reads_n = rw (sym same_n) reads

      over : ltb size (e.target + n) ≡ false
      over = ground (arith, start_le entries size t, meets)

      size_n : length d.data' ≡ n
      size_n = cc

      step :
          write_known decompress rom size
            ((e, n) ∷ pairs_of entries)
            (written ++ replicate (size - length written) 0)
          ≡ write_known decompress rom size (pairs_of entries) (
              assign_slice
                (written ++ replicate (size - length written) 0)
                e.target
                (e.target + n)
                d.data')
      step = rw (over, reads_n) refl

      last :
          ◌≡◌ {A = Result Error (List ℕ)}
            (ok ((written ++ d.data') ++ streams decompress rom entries))
            (ok
              (written ++ (bytes_of (decompress rom e.source n) ++ streams decompress rom entries)))
      last =
          rw reads_n
            (ap (λ l. ok l) (append_assoc written d.data' (streams decompress rom entries)))

      blob :
          assign_slice
            (written ++ replicate (size - length written) 0)
            e.target
            (e.target + n)
            d.data'
          ≡ (written ++ d.data') ++ replicate (size - length (written ++ d.data')) 0
      blob =
          rw (sym h, sym size_n)
            (assign_slice-append written d.data' (size - length written)
              ∙ ap (λ k. (written ++ d.data') ++ replicate k 0)
                  (omega (arith, length-append written d.data')))

-- Entries that tile the graphics and decode to as many bytes as they say are rebuilt to zeros up to
-- the first target, and from there the decoded streams one after another.
pub rebuild_lem :
    (decompress : List ℕ → ℕ → ℕ → Option Decoded) (rom : List ℕ) (entries : List Entry) (size : ℕ)
    → Tiles entries size
    → All (IsStored decompress rom) entries
    → rebuild decompress rom entries (some size)
      ≡ ok (replicate (start_of entries size) 0 ++ streams decompress rom entries)
unfolding rebuild size_of
rebuild_lem decompress rom entries size t a = rw (known_of-Tiles entries size t) (
    ap (write_known decompress rom size (pairs_of entries)) whole
    ∙ write_known_lem decompress rom entries size first t a sized)
  where
    first : List ℕ
    first = replicate (start_of entries size) 0

    sized : length first ≡ start_of entries size
    sized = length-replicate (start_of entries size) 0

    split : size ≡ start_of entries size + (size - length first)
    split = omega (arith, start_le entries size t, sized)

    whole : replicate size 0 ≡ first ++ replicate (size - length first) 0
    whole =
        ap (λ k. replicate k 0) split
        ∙ sym (replicate-append (start_of entries size) (size - length first))
