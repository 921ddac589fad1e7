-- ===== src/RomBuild/Retrieved.antt =====
-- The image that `build` returns: the game finds every stream, decompressed.
use street_fighter_alpha_2_n.Base.{
  ℕ, suc, ◌+◌, ◌<◌, ◌≡◌, inl, inr, ap, ◌∙◌, sym, subst, none, some, List, [], ◌∷◌, ◌++◌, In, length,
  get_elem?, All, ok, err, ◌>>=◌, bind_ok, ok_injective, Dict, arith,
}
use street_fighter_alpha_2_n.Sdd1Map.{Entry}
use street_fighter_alpha_2_n.Tables.{slots, source_key}
use street_fighter_alpha_2_n.Tables.Lookup.{find_slot, destination_at}
use street_fighter_alpha_2_n.Tables.Found.{find_slot-build, pair_at}
use street_fighter_alpha_2_n.RomBuild.Image.{
  Mapper, Placement, Decompress, Built, pairs_of, table_placements, no_destination, build,
}
use street_fighter_alpha_2_n.RomBuild.Written.{file_at}
use street_fighter_alpha_2_n.RomBuild.Sequence.{start_of, ReadsBack}
use street_fighter_alpha_2_n.RomBuild.Streams.{IsStream, Zipped, stream_placements-Zipped, some_or}
use street_fighter_alpha_2_n.Tables.Build.{ByteTables}
use street_fighter_alpha_2_n.RomBuild.Built.{IsGiven, IsPlanned, written, build-IsPlanned}
use street_fighter_alpha_2_n.RomBuild.Planned.{read_back}

pairs_of_each :
    (destinations : Dict ℕ) (es : List Entry) (pairs : List (ℕ × ℕ))
    → pairs_of destinations es ≡ ok pairs
    → (e : Entry) → In e es
    → (i : ℕ) × (i < length pairs)
      × ((pair_at pairs i).0 ≡ e.source)
      × (destinations e.index ≡ some (pair_at pairs i).1)
unfolding pairs_of
pairs_of_each destinations [] pairs h e i = absurd i
pairs_of_each destinations (f ∷ es) pairs h e i =
    let (at, found, rest) =
      bind_ok (elim (destinations f.index) [ none ↦ err no_destination | some at ↦ ok at ])
        (λ at. pairs_of destinations es >>= λ others. ok ((f.source, at) ∷ others)) pairs h in
    let (others, later, same) =
      bind_ok (pairs_of destinations es) (λ others. ok ((f.source, at) ∷ others)) pairs rest in
    let made : (f.source, at) ∷ others ≡ pairs = ok_injective _ pairs same in
    subst
      (λ (ps : List (ℕ × ℕ)).
        (k : ℕ) × (k < length ps)
        × ((pair_at ps k).0 ≡ e.source)
        × (destinations e.index ≡ some (pair_at ps k).1))
      made
      (elim i [
        | inl q ↦ (
          0,
          omega arith,
          ap (λ (g : Entry). g.source) (sym q),
          ap (λ (g : Entry). destinations g.index) q
              ∙ some_or (destinations f.index) no_destination at found,
        )
        | inr k ↦
            let (n, below, source_is, at_is) = pairs_of_each destinations es others later e k in
            (suc n, omega (arith, below), source_is, at_is)
      ])

-- what the image reads for an entry
pub record IsRetrieved (m : Mapper) (decompress : Decompress) (rom : List ℕ) (banks : ℕ)
    (image : List ℕ) (tables : ByteTables) (e : Entry) : Type 0 where
  pub slot : ℕ
  pub found : find_slot slots tables (source_key e.source) ≡ some slot
  pub n : ℕ
  pub known : e.length ≡ some n
  pub bytes : List ℕ
  pub end : ℕ
  pub decoded : decompress rom e.source n ≡ some (bytes, end)
  pub reads :
      (j : ℕ)
      → j < length bytes
      → get_elem? image (file_at m banks (destination_at tables slot + j)) ≡ get_elem? bytes j

-- the data from an address on
abbrev pub ReadsAt : Mapper → ℕ → List ℕ → ℕ → List ℕ → Type 0
ReadsAt m banks image start data' =
    (j : ℕ) → j < length data' → get_elem? image (file_at m banks (start + j)) ≡ get_elem? data' j

-- the four tables, where the game reads them
abbrev pub HoldsTables : Mapper → ℕ → List ℕ → ByteTables → Type 0
HoldsTables m banks image t =
    ReadsAt m banks image 0x600000 t.key
    × ReadsAt m banks image 0x610000 t.dest_low
    × ReadsAt m banks image 0x620000 t.dest_high
    × ReadsAt m banks image 0x630000 t.dest_bank

ReadsBack-HoldsTables :
    (m : Mapper) (banks : ℕ) (image : List ℕ) (t : ByteTables)
    → All (ReadsBack m banks image) (table_placements t)
    → HoldsTables m banks image t
unfolding table_placements
ReadsBack-HoldsTables m banks image t (key, (low, (mid, (bank, done)))) = (key, low, mid, bank)

Zipped-In :
    (R : Entry → Placement → Type 0) (P : Placement → Type 0) (es : List Entry)
    (ps : List Placement)
    → Zipped R es ps
    → All P ps
    → (e : Entry) → In e es
    → (p : Placement) × R e p × P p
Zipped-In R P [] ps z all e i = absurd i
Zipped-In R P (f ∷ es) [] z all e i = absurd z
Zipped-In R P (f ∷ es) (p ∷ ps) (here, z) (first, all) e (inl q) =
    (p, subst (λ g. R g p) (sym q) here, first)
Zipped-In R P (f ∷ es) (p ∷ ps) (here, z) (first, all) e (inr k) = Zipped-In R P es ps z all e k

All-split :
    (P : Placement → Type 0) (ps qs : List Placement) → All P (ps ++ qs) → All P ps × All P qs
All-split P [] qs all = (tt, all)
All-split P (p ∷ ps) qs (here, all) = let (a, b) = All-split P ps qs all in ((here, a), b)

module _ (m : Mapper) (decompress : Decompress) (rom : List ℕ) (entries : List Entry) (banks : ℕ)
    (extra : List (ℕ × List ℕ)) (given : IsGiven m decompress rom entries banks extra)
    (destinations : Dict ℕ) (tables : ByteTables)
    (plan : IsPlanned m decompress rom entries extra destinations tables) where
  entry-IsRetrieved :
      (image : List ℕ)
      → written m decompress rom entries banks extra destinations tables plan ≡ some image
      → (e : Entry) → In e entries
      → IsRetrieved m decompress rom banks image tables e
  entry-IsRetrieved image placed e i =
      let streams =
        stream_placements-Zipped decompress rom destinations entries plan.streams plan.streamed in
      let (k, below, source_is, at_is) =
        pairs_of_each destinations entries plan.pairs plan.paired e i in
      let (slot, found, stands) = find_slot-build plan.pairs tables k plan.tabled below in
      let (p, (at, n, end, has, known, decoded, bank_is, addr_is), reads) =
        Zipped-In (IsStream decompress rom destinations) (ReadsBack m banks image) entries
          plan.streams streams
          (All-split (ReadsBack m banks image) (table_placements tables) plan.streams (
            read_back m decompress rom entries banks extra given destinations tables plan image
              placed)).1
          e i in
      let same_at : (pair_at plan.pairs k).1 ≡ at = cc (has, at_is) in
      let start : start_of p ≡ destination_at tables slot =
        omega (arith, bank_is, addr_is, same_at, stands) in
      record {
        slot = slot;
        found =
            subst (λ source. find_slot slots tables (source_key source) ≡ some slot) source_is
              found;
        n = n;
        known = known;
        bytes = p.data';
        end = end;
        decoded = decoded;
        reads = λ j h.
            subst (λ x. get_elem? image (file_at m banks (x + j)) ≡ get_elem? p.data' j) start
              (reads j h);
      }

-- What `build` returns, given the windowed map, a decoder that returns as many bytes as it is asked
-- for where it is asked for any, distinct entries whose sources lie in the cartridge and whose known
-- lengths are above zero, and fixed data in banks of its own: the image reads the four tables in the
-- banks 0x60 to 0x63, and for every entry the search for its source in them finds a slot, with a
-- destination from which on the image reads the decompressed stream.
pub build-IsRetrieved :
    (m : Mapper) (decompress : Decompress) (rom : List ℕ) (entries : List Entry) (banks : ℕ)
    (extra : List (ℕ × List ℕ)) (built : Built)
    → IsGiven m decompress rom entries banks extra
    → build m decompress rom entries banks extra ≡ ok built
    → HoldsTables m banks built.image built.tables
      × ((e : Entry) → In e entries → IsRetrieved m decompress rom banks built.image built.tables e)
build-IsRetrieved m decompress rom entries banks extra built given h =
    let (plan, placed) = build-IsPlanned m decompress rom entries banks extra built h in
    (
      ReadsBack-HoldsTables m banks built.image built.tables
          (All-split (ReadsBack m banks built.image) (table_placements built.tables) plan.streams (
            read_back m decompress rom entries banks extra given built.destinations built.tables
              plan built.image placed)).0,
      λ e i.
          entry-IsRetrieved m decompress rom entries banks extra given built.destinations
            built.tables plan built.image placed e i,
    )
