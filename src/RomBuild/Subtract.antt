-- ===== src/RomBuild/Subtract.antt =====
-- `subtract` takes exactly the holes out of the regions.
use street_fighter_alpha_2_n.Base.{
  ℕ, ◌≡◌, refl, ◌∙◌, Bool, false, not, ◌&&◌, ◌||◌, List, [], ◌∷◌, ◌++◌, leb, ltb, ◌==◌, arith,
}
use street_fighter_alpha_2_n.RomBuild.{
  Region, Piece, cut_piece, cut_pieces, cut_holes, regions_of, subtract,
}

-- whether some region holds the address
unfoldable pub covers : List Region → ℕ → ℕ → Bool
covers [] bank addr = false
covers (r ∷ rs) bank addr =
    (r.bank == bank && (leb r.start addr && ltb addr r.end)) || covers rs bank addr

abbrev inside : Piece → ℕ → Bool
inside (start, end) addr = leb start addr && ltb addr end

some_inside : List Piece → ℕ → Bool
some_inside [] addr = false
some_inside (p ∷ ps) addr = inside p addr || some_inside ps addr

some_inside-append :
    (ps qs : List Piece) (addr : ℕ)
    → some_inside (ps ++ qs) addr ≡ (some_inside ps addr || some_inside qs addr)
unfolding some_inside
some_inside-append [] qs addr = refl
some_inside-append (p ∷ ps) qs addr = ground (arith, some_inside-append ps qs addr)

some_inside-cut_piece :
    (hole : Region) (p : Piece) (addr : ℕ)
    → some_inside (cut_piece hole p) addr
      ≡ (inside p addr && not (inside (hole.start, hole.end) addr))
unfolding some_inside cut_piece
some_inside-cut_piece hole (start, end) addr = ground arith

some_inside-cut_pieces :
    (hole : Region) (ps : List Piece) (addr : ℕ)
    → some_inside (cut_pieces hole ps) addr
      ≡ (some_inside ps addr && not (inside (hole.start, hole.end) addr))
unfolding some_inside cut_pieces
some_inside-cut_pieces hole [] addr = refl
some_inside-cut_pieces hole (p ∷ ps) addr = ground (
  arith,
  some_inside-append (cut_piece hole p) (cut_pieces hole ps) addr,
  some_inside-cut_piece hole p addr,
  some_inside-cut_pieces hole ps addr,
)

some_inside-cut_holes :
    (bank : ℕ) (taken : List Region) (ps : List Piece) (addr : ℕ)
    → some_inside (cut_holes bank taken ps) addr
      ≡ (some_inside ps addr && not (covers taken bank addr))
unfolding cut_holes covers
some_inside-cut_holes bank [] ps addr = ground arith
some_inside-cut_holes bank (hole ∷ taken) ps addr = ground (
  arith,
  some_inside-cut_holes bank taken ps addr,
  some_inside-cut_holes bank taken (cut_pieces hole ps) addr,
  some_inside-cut_pieces hole ps addr,
)

pub covers-append :
    (rs ss : List Region) (bank addr : ℕ)
    → covers (rs ++ ss) bank addr ≡ (covers rs bank addr || covers ss bank addr)
unfolding covers
covers-append [] ss bank addr = refl
covers-append (r ∷ rs) ss bank addr = ground (arith, covers-append rs ss bank addr)

covers-regions_of :
    (own : ℕ) (ps : List Piece) (bank addr : ℕ)
    → covers (regions_of own ps) bank addr ≡ (own == bank && some_inside ps addr)
unfolding covers regions_of some_inside
covers-regions_of own [] bank addr = ground arith
covers-regions_of own ((start, end) ∷ ps) bank addr =
    ground (arith, covers-regions_of own ps bank addr)

one_region :
    (r : Region) (taken : List Region) (bank addr : ℕ)
    → covers (regions_of r.bank (cut_holes r.bank taken ((r.start, r.end) ∷ []))) bank addr
      ≡ ((r.bank == bank && inside (r.start, r.end) addr) && not (covers taken bank addr))
unfolding some_inside
one_region r taken bank addr = ground (
  arith,
  covers-regions_of r.bank (cut_holes r.bank taken ((r.start, r.end) ∷ [])) bank addr,
  some_inside-cut_holes r.bank taken ((r.start, r.end) ∷ []) addr,
)

pub covers-cons :
    (r : Region) (rs : List Region) (bank addr : ℕ)
    → covers (r ∷ rs) bank addr
      ≡ ((r.bank == bank && inside (r.start, r.end) addr) || covers rs bank addr)
unfolding covers
covers-cons r rs bank addr = refl

-- An address is free after `subtract` exactly if a region holds it and no hole does.
pub covers-subtract :
    (regions taken : List Region) (bank addr : ℕ)
    → covers (subtract regions taken) bank addr
      ≡ (covers regions bank addr && not (covers taken bank addr))
unfolding subtract
covers-subtract [] taken bank addr = unfold covers in refl
covers-subtract (r ∷ rs) taken bank addr =
    covers-append (regions_of r.bank (cut_holes r.bank taken ((r.start, r.end) ∷ [])))
      (subtract rs taken) bank addr
    ∙ rw
        (
          one_region r taken bank addr,
          covers-subtract rs taken bank addr,
          covers-cons r rs bank addr,
        )
        (factor (r.bank == bank && inside (r.start, r.end) addr) (covers rs bank addr)
          (covers taken bank addr))
  where
    factor : (a b t : Bool) → ((a && not t) || (b && not t)) ≡ ((a || b) && not t)
    factor a b t = ground arith
