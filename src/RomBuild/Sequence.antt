-- ===== src/RomBuild/Sequence.antt =====
-- What an image reads after several placements in turn.
use street_fighter_alpha_2_n.Base.{
  ℕ, ◌+◌, ◌-◌, ◌<◌, ◌≡◌, refl, ap, ◌∙◌, sym, subst, false, some, List, [], ◌∷◌, ◌++◌, length,
  get_elem?, if◌then◌else◌, All, Chain, arith,
}
use street_fighter_alpha_2_n.RomBuild.Image.{Mapper, Placement, place, place_all}
use street_fighter_alpha_2_n.RomBuild.Written.{
  linear, file_at, IsMapped, IsWindowed, IsWritten, among,
}
use street_fighter_alpha_2_n.RomBuild.Rounds.{place_lem}

abbrev pub start_of : Placement → ℕ
start_of p = linear p.bank p.addr

-- data that goes where the image is mapped
pub record Fits (p : Placement) : Type 0 where
  pub in_bank : p.addr < 0x10000
  pub mapped : (j : ℕ) → j < length p.data' → IsMapped (start_of p + j)

-- No address of the first is one of the second.
abbrev pub Off : Placement → Placement → Type 0
Off p q =
    (j : ℕ) → j < length p.data' → among (start_of q) (length q.data') (start_of p + j) ≡ false

-- The image reads the data at its addresses.
abbrev pub ReadsBack : Mapper → ℕ → List ℕ → Placement → Type 0
ReadsBack m banks image p =
    (j : ℕ)
    → j < length p.data'
    → get_elem? image (file_at m banks (start_of p + j)) ≡ get_elem? p.data' j

pub All-append :
    (P : Placement → Type 0) (ps qs : List Placement) → All P ps → All P qs → All P (ps ++ qs)
All-append P [] qs a b = b
All-append P (p ∷ ps) qs a b = (a.0, All-append P ps qs a.1 b)

cancel : (a j : ℕ) → a + j - a ≡ j
cancel a j = omega arith

module _ (m : Mapper) (banks size : ℕ) (windowed : IsWindowed m banks size) where
  place-Fits :
      (p : Placement) (image : List ℕ)
      → Fits p
      → length image ≡ size
      → (out : List ℕ) × (place m image p.bank p.addr p.data' banks ≡ some out)
        × IsWritten m banks image (start_of p) p.data' out
  place-Fits p image fits sized =
      place_lem m banks image p.bank p.addr p.data'
        (subst (IsWindowed m banks) (sym sized) windowed) fits.in_bank fits.mapped

  -- All placements end, and keep the length.
  pub place_all_ends :
      (ps : List Placement) (image : List ℕ)
      → All Fits ps
      → length image ≡ size
      → (out : List ℕ) × (place_all m banks ps image ≡ some out) × (length out ≡ size)
  unfolding place_all
  place_all_ends [] image fits sized = (image, refl, sized)
  place_all_ends (p ∷ ps) image (here, fits) sized =
      let (placed, found, written) = place-Fits p image here sized in
      let (out, ends, kept) = place_all_ends ps placed fits (written.keeps_length ∙ sized) in
      (out, rw (place_all, found) ends, kept)

  -- What is read back stays, if nothing later goes there.
  pub ReadsBack-place_all :
      (p : Placement) (ps : List Placement) (image out : List ℕ)
      → Fits p
      → All Fits ps
      → All (Off p) ps
      → length image ≡ size
      → place_all m banks ps image ≡ some out
      → ReadsBack m banks image p
      → ReadsBack m banks out p
  unfolding place_all
  ReadsBack-place_all p [] image out fit fits off sized h reads =
      let same : image ≡ out = cc h in subst (λ i. ReadsBack m banks i p) same reads
  ReadsBack-place_all p (q ∷ ps) image out fit (here, fits) (apart, off) sized h reads =
      let (placed, found, written) = place-Fits q image here sized in
      ReadsBack-place_all p ps placed out fit fits off (written.keeps_length ∙ sized)
        (rw (place_all, found) at h)
        (λ j below.
          written.reads_data (start_of p + j) (fit.mapped j below)
          ∙ rw (apart j below) (reads j below))

  -- Placements that do not meet can all be read back, if nothing after them meets them either.
  pub place_all-ReadsBack :
      (ps after : List Placement) (image out : List ℕ)
      → All Fits ps
      → All Fits after
      → Chain Off ps
      → All (λ p. All (Off p) after) ps
      → length image ≡ size
      → place_all m banks (ps ++ after) image ≡ some out
      → All (ReadsBack m banks out) ps
  unfolding place_all
  place_all-ReadsBack [] after image out fits later chain off sized h = tt
  place_all-ReadsBack (p ∷ ps) after image out (here, fits) later (apart, chain) (far, off) sized
        h =
      let (placed, found, written) = place-Fits p image here sized in
      let sized' = written.keeps_length ∙ sized in
      let h' : place_all m banks (ps ++ after) placed ≡ some out = rw (place_all, found) at h in
      (
        ReadsBack-place_all p (ps ++ after) placed out here (All-append Fits ps after fits later)
            (All-append (Off p) ps after apart far) sized' h'
            (λ j below.
              written.reads_data (start_of p + j) (here.mapped j below)
              ∙ here_reads p j below image),
        place_all-ReadsBack ps after placed out fits later chain off sized' h',
      )
    where
      here_reads :
          (p : Placement) (j : ℕ)
          → j < length p.data'
          → (image : List ℕ)
          → (if among (start_of p) (length p.data') (start_of p + j)
              then get_elem? p.data' (start_of p + j - start_of p)
              else get_elem? image (file_at m banks (start_of p + j)))
            ≡ get_elem? p.data' j
      here_reads p j below image =
          ground (arith, below, ap (get_elem? p.data') (cancel (start_of p) j))

  -- The placements of a first list leave an image of the same size for the second.
  pub place_all-append :
      (ps qs : List Placement) (image out : List ℕ)
      → All Fits ps
      → length image ≡ size
      → place_all m banks (ps ++ qs) image ≡ some out
      → (mid : List ℕ) × (length mid ≡ size) × (place_all m banks qs mid ≡ some out)
  unfolding place_all
  place_all-append [] qs image out fits sized h = (image, sized, h)
  place_all-append (p ∷ ps) qs image out (here, fits) sized h =
      let (placed, found, written) = place-Fits p image here sized in
      place_all-append ps qs placed out fits (written.keeps_length ∙ sized)
        (rw (place_all, found) at h)
