-- ===== src/RomBuild/Ends.antt =====
-- How `build` of rombuild.py ends: the image that it returns, and what each of its errors says.
use street_fighter_alpha_2_n.Base.{
  ℕ, ◌*◌, ◌≡◌, ◌≢◌, ◌⊎◌, inl, inr, refl, ap, ◌∙◌, Bool-cases, not, none, some, List, [], ◌∷◌, ◌++◌,
  In, Chain, All-at, All-In, length, ◌==◌, Option, Result, ok, err, refuse, ◌>>=◌, ◌>>◌, Dict, join,
  arith,
}
use street_fighter_alpha_2_n.Sdd1Map.{Entry}
use street_fighter_alpha_2_n.Tables.Build
use street_fighter_alpha_2_n.RomBuild.{Region, allocate, data_bank_regions, spans_of, subtract}
use street_fighter_alpha_2_n.RomBuild.Reclaimed.{Raised, reclaimed_regions}
use street_fighter_alpha_2_n.RomBuild.Allocate.{allocate-Disjoint}
use street_fighter_alpha_2_n.RomBuild.Spots.{
  IsOther, All-last_first, sizes_of-last_first, entry-HasSpot,
}
use street_fighter_alpha_2_n.RomBuild.Image.{
  Mapper, ImageError, Decompress, Built, end_of, last_first, sizes_of, pairs_of, stream_placements,
  original_size, passed_on, build, wrong_size, unreadable, unknown_length, no_destination,
  never_placed, no_room, no_tables,
}
use street_fighter_alpha_2_n.RomBuild.Streams.{some_or}
use street_fighter_alpha_2_n.RomBuild.Built.{IsGiven, IsPlanned, passed_on_ok, refuse_ok}
use street_fighter_alpha_2_n.RomBuild.Planned.{written_ends}

-- what is so where `build` raises: no destination is ever missing, and the rounds of `place` are
-- enough
abbrev pub Cause :
    Mapper → Decompress → List ℕ → List Entry → List (ℕ × List ℕ) → ImageError → Type 0
Cause m decompress rom entries extra wrong_size = length rom ≢ original_size
Cause m decompress rom entries extra unknown_length = (e : Entry) × In e entries × (e.length ≡ none)
Cause m decompress rom entries extra no_destination = ⊥
Cause m decompress rom entries extra never_placed = ⊥
Cause m decompress rom entries extra (unreadable raised) =
    (reclaimed_regions (end_of decompress) rom entries ≡ err raised)
    ⊎ ((e : Entry) × (n : ℕ) × In e entries
        × (e.length ≡ some n)
        × (decompress rom e.source n ≡ none))
Cause m decompress rom entries extra (no_room raised) =
    (reclaimed : List Region) × (sizes : List (ℕ × ℕ)) × (reclaimed_regions (end_of decompress) rom
        entries
      ≡ ok reclaimed)
    × (sizes_of (last_first entries) ≡ ok sizes)
    × (allocate sizes (subtract (data_bank_regions m.bank_size) (spans_of extra) ++ reclaimed)
        ≡ err raised)
Cause m decompress rom entries extra (no_tables raised) =
    (destinations : Dict ℕ) × (pairs : List (ℕ × ℕ)) × (pairs_of destinations entries ≡ ok pairs)
    × (Build.build pairs ≡ err raised)

-- a value with a property, or an error for a cause
abbrev pub Yields :
    {A : Type 0} → (ImageError → Type 0) → (A → Type 0) → Result ImageError A → Type 0
Yields Why P (ok a) = P a
Yields Why P (err e) = Why e

-- only the errors are of interest
abbrev Ends : {A : Type 0} → (ImageError → Type 0) → Result ImageError A → Type 0
Ends Why r = Yields Why (λ a. Unit {0}) r

module _ (Why : ImageError → Type 0) where
  bind-Yields :
      {A B : Type 0} (P : B → Type 0) (r : Result ImageError A) (next : A → Result ImageError B)
      → Ends Why r
      → ((a : A) → r ≡ ok a → Yields Why P (next a))
      → Yields Why P (r >>= next)
  bind-Yields P (ok a) next fine h = h a refl
  bind-Yields P (err e) next fine h = fine

  then-Yields :
      {B : Type 0} (P : B → Type 0) (r : Result ImageError (Unit {0})) (next : Result ImageError B)
      → Ends Why r
      → (r ≡ ok tt → Yields Why P next)
      → Yields Why P (r >> next)
  then-Yields P (ok tt) next fine h = h refl
  then-Yields P (err e) next fine h = fine

  passed_on-Ends :
      {E A : Type 0} (raised : E → ImageError) (r : Result E A)
      → ((e : E) → r ≡ err e → Why (raised e))
      → Ends Why (passed_on raised r)
  passed_on-Ends raised (ok a) cause = tt
  passed_on-Ends raised (err e) cause = cause e refl

  some_or-Ends :
      {A : Type 0} (o : Option A) (missing : ImageError)
      → (o ≡ none → Why missing)
      → Ends Why (elim o as (λ x. Result ImageError A) [ none ↦ err missing | some a ↦ ok a ])
  some_or-Ends none missing cause = cause refl
  some_or-Ends (some a) missing cause = tt

  refuse-Ends :
      (n size : ℕ) → (n ≢ size → Why wrong_size) → Ends Why (refuse (not (n == size)) wrong_size)
  refuse-Ends n size cause = elim (Bool-cases (n == size)) [
    | inl same ↦ rw same tt
    | inr other ↦ rw other (cause (λ e. absurd (ground (arith, e, other))))
  ]

module _ (m : Mapper) (decompress : Decompress) (rom : List ℕ) (entries : List Entry)
    (extra : List (ℕ × List ℕ)) where
  abbrev Why : ImageError → Type 0
  Why e = Cause m decompress rom entries extra e

  sizes_of-Ends :
      (es : List Entry) → ((e : Entry) → In e es → In e entries) → Ends Why (sizes_of es)
  unfolding sizes_of
  sizes_of-Ends [] sub = tt
  sizes_of-Ends (e ∷ es) sub =
      bind-Yields Why _ _ _ (some_or-Ends Why e.length unknown_length λ h. (e, sub e (inl refl), h))
        λ n known.
          bind-Yields Why _ (sizes_of es) _ (sizes_of-Ends es λ f i. sub f (inr i))
            λ sizes asked. tt

  module _ (destinations : Dict ℕ)
      (has : (e : Entry) → In e entries → (at : ℕ) × (destinations e.index ≡ some at)) where
    destination-Ends :
        (e : Entry)
        → In e entries
        → Ends Why (elim (destinations e.index) as (λ x. Result ImageError ℕ) [
          | none ↦ err no_destination
          | some at ↦ ok at
        ])
    destination-Ends e i =
        some_or-Ends Why (destinations e.index) no_destination
          λ h. let (at, found) = has e i in cc (h, found)

    pairs_of-Ends :
        (es : List Entry)
        → ((e : Entry) → In e es → In e entries)
        → Ends Why (pairs_of destinations es)
    unfolding pairs_of
    pairs_of-Ends [] sub = tt
    pairs_of-Ends (e ∷ es) sub =
        bind-Yields Why _ _ _ (destination-Ends e (sub e (inl refl))) λ at found.
          bind-Yields Why _ (pairs_of destinations es) _ (pairs_of-Ends es λ f i. sub f (inr i))
            λ pairs paired. tt

    stream_placements-Ends :
        (es : List Entry)
        → ((e : Entry) → In e es → In e entries)
        → Ends Why (stream_placements decompress rom destinations es)
    unfolding stream_placements
    stream_placements-Ends [] sub = tt
    stream_placements-Ends (e ∷ es) sub =
        bind-Yields Why _ _ _ (destination-Ends e (sub e (inl refl))) λ at found.
          bind-Yields Why _ (elim e.length [ none ↦ err unknown_length | some n ↦ ok n ]) _
            (some_or-Ends Why e.length unknown_length λ h. (e, sub e (inl refl), h))
            λ n known.
              bind-Yields Why _ _ _
                (some_or-Ends Why (decompress rom e.source n) (unreadable Raised.undecodable)
                  λ h. inr (e, n, sub e (inl refl), some_or e.length unknown_length n known, h))
                λ d decoded.
                  bind-Yields Why _ (stream_placements decompress rom destinations es) _
                    (stream_placements-Ends es λ f i. sub f (inr i)) λ others placed. tt

of_last_first : (entries : List Entry) (e : Entry) → In e (last_first entries) → In e entries
of_last_first entries e i =
    All-at (λ f. In f entries) (last_first entries) e
      (All-last_first (λ f. In f entries) entries (All-In (λ f. In f entries) entries (λ f k. k))) i

-- Each entry gets a destination.
has_destination :
    (entries : List Entry) (sizes : List (ℕ × ℕ)) (regions : List Region) (destinations : Dict ℕ)
    → Chain IsOther entries
    → sizes_of (last_first entries) ≡ ok sizes
    → allocate sizes regions ≡ ok destinations
    → (e : Entry) → In e entries
    → (at : ℕ) × (destinations e.index ≡ some at)
has_destination entries sizes regions destinations distinct asked allocated e i =
    let (spots, requests, placed, free, apart) =
      allocate-Disjoint sizes regions destinations
        (sizes_of-last_first entries sizes distinct asked) allocated in
    let (s, there, same_index, same_length) =
      entry-HasSpot entries sizes spots asked requests e i in
    (
      join s.bank s.at,
      ap destinations same_index
          ∙ All-at (λ s. destinations s.stream ≡ some (join s.bank s.at)) spots s placed there,
    )

-- How `build` ends, given the windowed map, a decoder that returns as many bytes as it is asked for
-- where it is asked for any, distinct entries in the cartridge with known lengths above zero, and
-- fixed data in banks of its own. It returns an image of exactly the banks' size, so no write has made
-- it longer; or it raises, and then the cartridge has another size, a length is unknown, a stream does
-- not decode, or what computes the reclaimed regions, the destinations or the tables raises. No
-- destination is ever missing, and the rounds of `place` are enough.
pub build-Ends :
    (m : Mapper) (decompress : Decompress) (rom : List ℕ) (entries : List Entry) (banks : ℕ)
    (extra : List (ℕ × List ℕ))
    → IsGiven m decompress rom entries banks extra
    → Yields
        (Cause m decompress rom entries extra)
        (λ (b : Built). length b.image ≡ banks * m.bank_size)
        (build m decompress rom entries banks extra)
unfolding build
build-Ends m decompress rom entries banks extra given =
    let Why = Cause m decompress rom entries extra in
    then-Yields Why _ _ _ (refuse-Ends Why (length rom) original_size (λ other. other)) λ sized.
      bind-Yields Why _ _ _
        (passed_on-Ends Why unreadable (reclaimed_regions (end_of decompress) rom entries)
          λ e h. inl h)
        λ reclaimed found.
          bind-Yields Why _ _ _
            (sizes_of-Ends m decompress rom entries extra (last_first entries)
              (of_last_first entries))
            λ sizes asked.
              bind-Yields Why _ _ _
                (passed_on-Ends Why no_room
                  (allocate sizes
                    (subtract (data_bank_regions m.bank_size) (spans_of extra) ++ reclaimed))
                  λ e h. (reclaimed, sizes, passed_on_ok unreadable _ reclaimed found, asked, h))
                λ destinations allocated.
                  let has =
                    has_destination entries sizes _ destinations given.distinct asked
                      (passed_on_ok no_room _ destinations allocated) in
                  bind-Yields Why _ _ _
                    (pairs_of-Ends m decompress rom entries extra destinations has entries
                      (λ e i. i))
                    λ pairs paired.
                      bind-Yields Why _ _ _
                        (passed_on-Ends Why no_tables (Build.build pairs)
                          λ e h. (destinations, pairs, paired, h))
                        λ tables tabled.
                          bind-Yields Why _ _ _
                            (stream_placements-Ends m decompress rom entries extra destinations has
                              entries (λ e i. i))
                            λ streams streamed.
                              let plan : IsPlanned m decompress rom entries extra destinations
                                  tables =
                                record {
                                  sized = refuse_ok (length rom) original_size sized;
                                  reclaimed = reclaimed;
                                  found = passed_on_ok unreadable _ reclaimed found;
                                  sizes = sizes;
                                  asked = asked;
                                  allocated = passed_on_ok no_room _ destinations allocated;
                                  pairs = pairs;
                                  paired = paired;
                                  tabled = passed_on_ok no_tables _ tables tabled;
                                  streams = streams;
                                  streamed = streamed;
                                } in
                              let (image, placed, kept) =
                                written_ends m decompress rom entries banks extra given destinations
                                  tables plan in
                              rw placed kept
