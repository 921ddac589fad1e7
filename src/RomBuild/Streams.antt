-- ===== src/RomBuild/Streams.antt =====
-- The streams' placements in `build`: each goes where its spot is, off the others and off what
-- stands at fixed addresses.
use street_fighter_alpha_2_n.Base.{
  ℕ, ◌+◌, ◌-◌, ◌≤◌, ◌<◌, ◌≡◌, ◌⊎◌, inl, inr, refl, ap, ◌∙◌, sym, subst, true, false, Option, none,
  some, List, [], ◌∷◌, In, length, Bool-cases, All, high, low16, Result, ok, err, bind_ok, Dict,
  arith,
}
use street_fighter_alpha_2_n.Sdd1Map.{Entry}
use street_fighter_alpha_2_n.RomBuild.{Spot, spans_of}
use street_fighter_alpha_2_n.RomBuild.Subtract.{covers}
use street_fighter_alpha_2_n.RomBuild.Fit.{holds_at}
use street_fighter_alpha_2_n.RomBuild.Allocate.{Disjoint}
use street_fighter_alpha_2_n.RomBuild.Image.{
  Placement, ImageError, Decompress, stream_placements, extra_placements,
}
use street_fighter_alpha_2_n.RomBuild.Written.{linear, IsMapped, among}
use street_fighter_alpha_2_n.RomBuild.Sequence.{start_of, Fits, Off}
use street_fighter_alpha_2_n.RomBuild.Mapped.{IsOffered}

-- data at a fixed address, in one bank below the window that holds no table
abbrev pub IsExtra : ℕ × List ℕ → Type 0
IsExtra (address, data') =
    (low16 address + length data' ≤ 0x10000)
    × (high address < 0xC0)
    × ((high address < 0x60) ⊎ (0x64 ≤ high address))
    × ((j : ℕ) → j < length data' → IsMapped (address + j))

-- a placement at a spot, whose addresses were offered
pub record IsSpotted (extra : List (ℕ × List ℕ)) (s : Spot) (p : Placement) : Type 0 where
  pub sized : length p.data' ≡ s.size
  pub in_bank : p.addr < 0x10000
  pub starts : (j : ℕ) → j < s.size → start_of p + j ≡ linear s.bank (s.at + j)
  pub offered : (j : ℕ) → j < s.size → IsOffered extra s.bank (s.at + j)

IsOffered-IsMapped :
    (extra : List (ℕ × List ℕ)) (bank addr : ℕ)
    → IsOffered extra bank addr
    → IsMapped (linear bank addr)
IsOffered-IsMapped extra bank addr (below, inl (low, up, free, off)) =
    inl (omega (arith, below, low), omega (arith, below, up))
IsOffered-IsMapped extra bank addr (below, inr (low, up)) =
    inr (inl (omega (arith, below, low), omega (arith, below, up)))

module _ (extra : List (ℕ × List ℕ)) where
  pub IsSpotted-Fits : (s : Spot) (p : Placement) → IsSpotted extra s p → Fits p
  IsSpotted-Fits s p at = record {
    in_bank = at.in_bank;
    mapped = λ j h.
        let below : j < s.size = omega (arith, h, at.sized) in
        subst IsMapped (sym (at.starts j below))
          (IsOffered-IsMapped extra s.bank (s.at + j) (at.offered j below));
  }

  -- two placements that share an address have spots that share it
  meeting :
      (s t : Spot) (p q : Placement) (j k : ℕ)
      → IsSpotted extra s p
      → IsSpotted extra t q
      → j < s.size
      → k < t.size
      → start_of q + k ≡ start_of p + j
      → (holds_at s.bank s.at s.size s.bank (s.at + j) ≡ true)
        × (holds_at t.bank t.at t.size s.bank (s.at + j) ≡ true)
  meeting s t p q j k ps qt hj hk e =
      let there : linear t.bank (t.at + k) ≡ linear s.bank (s.at + j) =
        sym (qt.starts k hk) ∙ e ∙ ps.starts j hj in
      let below_s : s.at + j < 0x10000 = (ps.offered j hj).0 in
      let below_t : t.at + k < 0x10000 = (qt.offered k hk).0 in
      let same_bank : t.bank ≡ s.bank = omega (arith, there, below_s, below_t) in
      let same_at : t.at + k ≡ s.at + j = omega (arith, there, below_s, below_t) in
      (ground (arith, hj), ground (arith, hk, same_bank, same_at))

  pub Disjoint-Off :
      (s t : Spot) (p q : Placement)
      → IsSpotted extra s p
      → IsSpotted extra t q
      → Disjoint s t
      → Off p q
  Disjoint-Off s t p q ps qt apart j h =
      elim (Bool-cases (among (start_of q) (length q.data') (start_of p + j))) [
        | inr away ↦ away
        | inl on ↦
            let place_of : start_of q + (start_of p + j - start_of q) ≡ start_of p + j =
              ground (arith, on) in
            let (one, two) =
              meeting s t p q j (start_of p + j - start_of q) ps qt (omega (arith, h, ps.sized))
                (ground (arith, on, qt.sized)) place_of in
            absurd (cc (apart s.bank (s.at + j) one, two))
      ]

  -- an address that is not in a span is not that of the span's data
  spans_off :
      (xs : List (ℕ × List ℕ)) (bank addr : ℕ) (x : ℕ × List ℕ)
      → In x xs
      → covers (spans_of xs) bank addr ≡ false
      → low16 x.0 + length x.1 ≤ 0x10000
      → addr < 0x10000
      → among x.0 (length x.1) (linear bank addr) ≡ false
  unfolding covers spans_of
  spans_off [] bank addr x i h ends below = absurd i
  spans_off ((address, data') ∷ xs) bank addr x (inl e) h ends below =
      elim (Bool-cases (among x.0 (length x.1) (linear bank addr))) [
        | inr away ↦ away
        | inl on ↦
            let same_address : x.0 ≡ address = ap (λ (y : ℕ × List ℕ). y.0) e in
            let same_data : length x.1 ≡ length data' = ap (λ (y : ℕ × List ℕ). length y.1) e in
            let from : address ≤ linear bank addr = ground (arith, on, same_address) in
            let to : linear bank addr < address + length data' =
              ground (arith, on, same_address, same_data) in
            let fits : low16 address + length data' ≤ 0x10000 =
              omega (arith, ends, ap low16 same_address, same_data) in
            let bank_is : high address ≡ bank = omega (arith, from, to, fits, below) in
            let starts : low16 address ≤ addr = omega (arith, from, to, fits, below) in
            let stops : addr < low16 address + length data' =
              omega (arith, from, to, fits, below) in
            absurd (ground (arith, h, bank_is, starts, stops))
      ]
  spans_off ((address, data') ∷ xs) bank addr x (inr i) h ends below =
      spans_off xs bank addr x i (ground (arith, h)) ends below

  -- a stream and what stands at a fixed address
  extra_off :
      (s : Spot) (p : Placement) (x : ℕ × List ℕ)
      → IsSpotted extra s p
      → In x extra
      → IsExtra x
      → (j : ℕ) → j < length p.data'
      → among (linear (high x.0) (low16 x.0)) (length x.1) (start_of p + j) ≡ false
  extra_off s p x at i (ends, low, free, mapped) j h =
      let below : j < s.size = omega (arith, h, at.sized) in
      let address : linear (high x.0) (low16 x.0) ≡ x.0 = omega arith in
      rw (address, at.starts j below) (of_offer (at.offered j below))
    where
      of_offer :
          IsOffered extra s.bank (s.at + j)
          → among x.0 (length x.1) (linear s.bank (s.at + j)) ≡ false
      of_offer (within, inl (from, to, off, away)) =
          spans_off extra s.bank (s.at + j) x i away ends within
      of_offer (within, inr (from, to)) =
          elim (Bool-cases (among x.0 (length x.1) (linear s.bank (s.at + j)))) [
            | inr away ↦ away
            | inl on ↦
                let stops : linear s.bank (s.at + j) < x.0 + length x.1 = ground (arith, on) in
                absurd (omega (arith, stops, from, low, ends))
          ]

  pub extra-Off :
      (s : Spot) (p : Placement) (xs : List (ℕ × List ℕ))
      → IsSpotted extra s p
      → ((x : ℕ × List ℕ) → In x xs → In x extra)
      → All IsExtra xs
      → All (Off p) (extra_placements xs)
  unfolding extra_placements
  extra-Off s p [] at sub all = tt
  extra-Off s p (x ∷ xs) at sub (here, all) = (
    (λ j h. extra_off s p x at (sub x (inl refl)) here j h),
    extra-Off s p xs at (λ y i. sub y (inr i)) all,
  )

  pub extra-Fits : (xs : List (ℕ × List ℕ)) → All IsExtra xs → All Fits (extra_placements xs)
  unfolding extra_placements
  extra-Fits [] all = tt
  extra-Fits (x ∷ xs) ((ends, low, free, mapped), all) = (
    record {
      in_bank = omega arith;
      mapped = λ j h.
          let address : x.0 + j ≡ linear (high x.0) (low16 x.0) + j = omega arith in
          subst IsMapped address (mapped j h);
    },
    extra-Fits xs all,
  )

-- an entry for each placement, in turn
abbrev pub Zipped : (Entry → Placement → Type 0) → List Entry → List Placement → Type 0
Zipped R [] [] = Unit
Zipped R [] (p ∷ ps) = ⊥
Zipped R (e ∷ es) [] = ⊥
Zipped R (e ∷ es) (p ∷ ps) = R e p × Zipped R es ps

-- what `stream_placements` makes of an entry
abbrev pub IsStream : Decompress → List ℕ → Dict ℕ → Entry → Placement → Type 0
IsStream decompress rom destinations e p =
    (at : ℕ) × (n : ℕ) × (end : ℕ) × (destinations e.index ≡ some at)
    × (e.length ≡ some n)
    × (decompress rom e.source n ≡ some (p.data', end))
    × (p.bank ≡ high at)
    × (p.addr ≡ low16 at)

pub some_or :
    {A : Type 0} (o : Option A) (e : ImageError) (a : A)
    → ◌≡◌ {A = Result ImageError A} (elim o [ none ↦ err e | some x ↦ ok x ]) (ok a)
    → o ≡ some a
some_or none e a h = absurd (cc h)
some_or (some x) e a h = let same : x ≡ a = cc h in ap (λ y. some y) same

pub stream_placements-Zipped :
    (decompress : Decompress) (rom : List ℕ) (destinations : Dict ℕ) (entries : List Entry)
    (streams : List Placement)
    → stream_placements decompress rom destinations entries ≡ ok streams
    → Zipped (IsStream decompress rom destinations) entries streams
unfolding stream_placements
stream_placements-Zipped decompress rom destinations [] [] h = tt
stream_placements-Zipped decompress rom destinations [] (p ∷ ps) h = absurd (cc h)
stream_placements-Zipped decompress rom destinations (e ∷ entries) streams h =
    let (at, found_at, more) = bind_ok _ _ streams h in
    let (n, known, rest) = bind_ok _ _ streams more in
    let (d, decoded, last) = bind_ok _ _ streams rest in
    let (others, later, same) =
      bind_ok (stream_placements decompress rom destinations entries) _ streams last in
    let made : record { bank = high at; addr = low16 at; data' = d.0 } ∷ others ≡ streams =
      cc same in
    subst (Zipped (IsStream decompress rom destinations) (e ∷ entries)) made (
      (
        at,
        n,
        d.1,
        some_or (destinations e.index) _ at found_at,
        some_or e.length _ n known,
        some_or (decompress rom e.source n) _ d decoded,
        refl,
        refl,
      ),
      stream_placements-Zipped decompress rom destinations entries others later,
    )
