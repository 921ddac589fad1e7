-- ===== src/RomBuild/Spots.antt =====
-- From the entries of `build` to the spots of their streams.
use street_fighter_alpha_2_n.Base.{
  ℕ, ◌+◌, ◌<◌, ◌≡◌, ◌≢◌, inl, inr, refl, ap, ◌∙◌, sym, subst, true, false, none, some, List, [],
  ◌∷◌, map, In, length, Bool-cases, All, All-at, Chain, join, join_lem, ok, err, ◌>>=◌, bind_ok,
  Dict, arith,
}
use street_fighter_alpha_2_n.Sdd1Map.{Entry}
use street_fighter_alpha_2_n.RomBuild.{Spot}
use street_fighter_alpha_2_n.RomBuild.Fit.{holds_at}
use street_fighter_alpha_2_n.RomBuild.Allocate.{Disjoint, request}
use street_fighter_alpha_2_n.RomBuild.Image.{
  Placement, Decompress, last_first, put_second, sizes_of, unknown_length,
}
use street_fighter_alpha_2_n.RomBuild.Sequence.{start_of, Off}
use street_fighter_alpha_2_n.RomBuild.Mapped.{IsOffered}
use street_fighter_alpha_2_n.RomBuild.Streams.{IsSpotted, IsStream, Zipped, some_or, Disjoint-Off}

abbrev pub IsOther : Entry → Entry → Type 0
IsOther e f = e.index ≢ f.index

All-put_second :
    (P : Entry → Type 0) (e : Entry) (es : List Entry) → P e → All P es → All P (put_second e es)
All-put_second P e [] here all = (here, tt)
All-put_second P e (f ∷ es) here (first, all) = (first, (here, all))

pub All-last_first : (P : Entry → Type 0) (es : List Entry) → All P es → All P (last_first es)
All-last_first P [] all = tt
All-last_first P (e ∷ es) (here, all) =
    All-put_second P e (last_first es) here (All-last_first P es all)

In-last_first : (e : Entry) (es : List Entry) → In e es → In e (last_first es)
In-last_first e [] i = absurd i
In-last_first e (f ∷ es) i = of_rest (last_first es) (In-last_first e es) i
  where
    of_rest : (rest : List Entry) → (In e es → In e rest) → In e (f ∷ es) → In e (put_second f rest)
    of_rest [] next (inl q) = inl q
    of_rest [] next (inr k) = absurd (next k)
    of_rest (g ∷ rest) next (inl q) = inr (inl q)
    of_rest (g ∷ rest) next (inr k) = elim (next k) [ inl q ↦ inl q | inr r ↦ inr (inr r) ]

Chain-put_second :
    (e : Entry) (es : List Entry)
    → All (IsOther e) es
    → Chain IsOther es
    → Chain IsOther (put_second e es)
Chain-put_second e [] all chain = (tt, tt)
Chain-put_second e (f ∷ es) (off, all) (others, chain) =
    (((λ q. off (sym q)), others), (all, chain))

Chain-last_first : (es : List Entry) → Chain IsOther es → Chain IsOther (last_first es)
Chain-last_first [] chain = tt
Chain-last_first (e ∷ es) (off, chain) =
    Chain-put_second e (last_first es) (All-last_first (IsOther e) es off)
      (Chain-last_first es chain)

-- the request for an entry
abbrev Asked : Entry → ℕ × ℕ → Type 0
Asked e a = (e.index ≡ a.0) × (e.length ≡ some a.1)

sizes_of-cons :
    (e : Entry) (es : List Entry) (sizes : List (ℕ × ℕ))
    → sizes_of (e ∷ es) ≡ ok sizes
    → (n : ℕ) × (others : List (ℕ × ℕ)) × (e.length ≡ some n)
      × (sizes_of es ≡ ok others)
      × ((e.index, n) ∷ others ≡ sizes)
unfolding sizes_of
sizes_of-cons e es sizes h =
    let (n, known, rest) =
      bind_ok (elim e.length [ none ↦ err unknown_length | some n ↦ ok n ])
        (λ n. sizes_of es >>= λ others. ok ((e.index, n) ∷ others)) sizes h in
    let (others, later, same) =
      bind_ok (sizes_of es) (λ others. ok ((e.index, n) ∷ others)) sizes rest in
    (n, others, some_or e.length unknown_length n known, later, cc same)

sizes_of_each :
    (es : List Entry) (sizes : List (ℕ × ℕ))
    → sizes_of es ≡ ok sizes
    → ((e : Entry) → In e es → (a : ℕ × ℕ) × In a sizes × Asked e a)
      × ((k : ℕ) → All (λ e. k ≢ e.index) es → All (λ a. k ≢ a.0) sizes)
unfolding sizes_of
sizes_of_each [] [] h = ((λ e i. absurd i), λ k all. tt)
sizes_of_each [] (a ∷ sizes) h = absurd (cc h)
sizes_of_each (e ∷ es) sizes h =
    let (n, others, known, later, made) = sizes_of-cons e es sizes h in
    let (each, off) = sizes_of_each es others later in
    (
      (λ f i. elim i [
        | inl q ↦ (
          (e.index, n),
          subst (In (e.index, n)) made (inl refl),
          (ap (λ (g : Entry). g.index) q, ap (λ (g : Entry). g.length) q ∙ known),
        )
        | inr k ↦ let (a, there, asked) = each f k in (a, subst (In a) made (inr there), asked)
      ]),
      λ k all. subst (All (λ (a : ℕ × ℕ). k ≢ a.0)) made (all.0, off k all.1),
    )

sizes_of-Chain :
    (es : List Entry) (sizes : List (ℕ × ℕ))
    → Chain IsOther es
    → sizes_of es ≡ ok sizes
    → Chain (λ a b. a.0 ≢ b.0) sizes
unfolding sizes_of
sizes_of-Chain [] [] chain h = tt
sizes_of-Chain [] (a ∷ sizes) chain h = absurd (cc h)
sizes_of-Chain (e ∷ es) sizes (off, chain) h =
    let (n, others, known, later, made) = sizes_of-cons e es sizes h in
    subst (Chain (λ (a b : ℕ × ℕ). a.0 ≢ b.0)) made
      ((sizes_of_each es others later).1 e.index off, sizes_of-Chain es others chain later)

-- the requests of `build` are for distinct streams
pub sizes_of-last_first :
    (es : List Entry) (sizes : List (ℕ × ℕ))
    → Chain IsOther es
    → sizes_of (last_first es) ≡ ok sizes
    → Chain (λ a b. a.0 ≢ b.0) sizes
sizes_of-last_first es sizes chain h =
    sizes_of-Chain (last_first es) sizes (Chain-last_first es chain) h

In-request :
    (spots : List Spot) (a : ℕ × ℕ)
    → In a (map request spots)
    → (s : Spot) × In s spots × (a ≡ request s)
In-request [] a i = absurd i
In-request (s ∷ spots) a (inl q) = (s, inl refl, q)
In-request (s ∷ spots) a (inr k) = let (t, there, q) = In-request spots a k in (t, inr there, q)

-- the spot of an entry's stream
abbrev pub HasSpot : List Spot → Entry → Type 0
HasSpot spots e = (s : Spot) × In s spots × (e.index ≡ s.stream) × (e.length ≡ some s.size)

pub entry-HasSpot :
    (es : List Entry) (sizes : List (ℕ × ℕ)) (spots : List Spot)
    → sizes_of (last_first es) ≡ ok sizes
    → map request spots ≡ sizes
    → (e : Entry) → In e es
    → HasSpot spots e
entry-HasSpot es sizes spots h q e i =
    let (a, asked_in, (same_index, same_length)) =
      (sizes_of_each (last_first es) sizes h).0 e (In-last_first e es i) in
    let (s, there, same) = In-request spots a (rw q asked_in) in
    (
      s,
      there,
      same_index ∙ ap (λ (b : ℕ × ℕ). b.0) same,
      same_length ∙ ap (λ (b : ℕ × ℕ). some b.1) same,
    )

Disjoint-of_In :
    (spots : List Spot) (s t : Spot)
    → Chain Disjoint spots
    → In s spots
    → In t spots
    → s.stream ≢ t.stream
    → (bank addr : ℕ) → holds_at s.bank s.at s.size bank addr ≡ true
    → holds_at t.bank t.at t.size bank addr ≡ false
Disjoint-of_In [] s t chain i j ne bank addr h = absurd i
Disjoint-of_In (u ∷ spots) s t chain (inl a) (inl b) ne bank addr h =
    absurd (ne (ap (λ (v : Spot). v.stream) (a ∙ sym b)))
Disjoint-of_In (u ∷ spots) s t chain (inl a) (inr j) ne bank addr h =
    All-at (Disjoint u) spots t chain.0 j bank addr (rw (sym a) h)
Disjoint-of_In (u ∷ spots) s t chain (inr i) (inl b) ne bank addr h =
    elim (Bool-cases (holds_at t.bank t.at t.size bank addr)) [
      | inr away ↦ away
      | inl on ↦
          let back : holds_at s.bank s.at s.size bank addr ≡ false =
            All-at (Disjoint u) spots s chain.0 i bank addr (rw (sym b) on) in
          absurd (cc (h, back))
    ]
Disjoint-of_In (u ∷ spots) s t chain (inr i) (inr j) ne bank addr h =
    Disjoint-of_In spots s t chain.1 i j ne bank addr h

-- an entry, its spot and its placement
abbrev pub Located : List (ℕ × List ℕ) → List Spot → Entry → Placement → Type 0
Located extra spots e p = (s : Spot) × In s spots × (e.index ≡ s.stream) × IsSpotted extra s p

module _ (extra : List (ℕ × List ℕ)) (decompress : Decompress) (rom : List ℕ)
    (destinations : Dict ℕ) (spots : List Spot)
    (exact : (source n end : ℕ) (bytes : List ℕ)
      → 0 < n
      → decompress rom source n ≡ some (bytes, end)
      → length bytes ≡ n)
    (placed : All (λ s. destinations s.stream ≡ some (join s.bank s.at)) spots)
    (offered : (s : Spot)
      → In s spots
      → (j : ℕ) → j < s.size
      → IsOffered extra s.bank (s.at + j)) where
  stream-Located :
      (e : Entry) (p : Placement)
      → HasSpot spots e
      → ((n : ℕ) → e.length ≡ some n → 0 < n)
      → IsStream decompress rom destinations e p
      → Located extra spots e p
  stream-Located e p (s, there, same_index, same_length) positive
        (at, n, end, found, known, decoded, bank_is, addr_is) =
      let same_size : n ≡ s.size = cc (known, same_length) in
      let joined : at ≡ join s.bank s.at = cc (
        found,
        same_index,
        All-at (λ s. destinations s.stream ≡ some (join s.bank s.at)) spots s placed there,
      ) in
      let start_at : start_of p ≡ at = omega (arith, bank_is, addr_is) in
      (
        s,
        there,
        same_index,
        record {
          sized = exact e.source n end p.data' (positive n known) decoded ∙ same_size;
          in_bank = omega (arith, addr_is);
          starts = λ j h.
              let below : s.at < 0x10000 = omega (arith, (offered s there j h).0) in
              omega (arith, start_at, joined, join_lem s.bank s.at below);
          offered = offered s there;
        },
      )

  pub streams-Located :
      (es : List Entry) (ps : List Placement)
      → ((e : Entry) → In e es → HasSpot spots e)
      → All (λ e. (n : ℕ) → e.length ≡ some n → 0 < n) es
      → Zipped (IsStream decompress rom destinations) es ps
      → Zipped (Located extra spots) es ps
  streams-Located [] [] has positive z = tt
  streams-Located [] (p ∷ ps) has positive z = z
  streams-Located (e ∷ es) [] has positive z = z
  streams-Located (e ∷ es) (p ∷ ps) has (first, positive) (here, z) = (
    stream-Located e p (has e (inl refl)) first here,
    streams-Located es ps (λ f i. has f (inr i)) positive z,
  )

module _ (extra : List (ℕ × List ℕ)) (spots : List Spot) (apart : Chain Disjoint spots) where
  Located-Off :
      (e f : Entry) (p q : Placement)
      → Located extra spots e p
      → Located extra spots f q
      → IsOther e f
      → Off p q
  Located-Off e f p q (s, at, same_s, ps) (t, there, same_t, qt) other =
      Disjoint-Off extra s t p q ps qt
        (Disjoint-of_In spots s t apart at there (λ k. other (same_s ∙ k ∙ sym same_t)))

  all_Off :
      (e : Entry) (p : Placement) (es : List Entry) (ps : List Placement)
      → Located extra spots e p
      → Zipped (Located extra spots) es ps
      → All (IsOther e) es
      → All (Off p) ps
  all_Off e p [] [] at z others = tt
  all_Off e p [] (q ∷ ps) at z others = absurd z
  all_Off e p (f ∷ es) [] at z others = absurd z
  all_Off e p (f ∷ es) (q ∷ ps) at (here, z) (other, others) =
      (Located-Off e f p q at here other, all_Off e p es ps at z others)

  -- Streams of distinct entries do not meet.
  pub Zipped-Chain :
      (es : List Entry) (ps : List Placement)
      → Zipped (Located extra spots) es ps
      → Chain IsOther es
      → Chain Off ps
  Zipped-Chain [] [] z chain = tt
  Zipped-Chain [] (p ∷ ps) z chain = absurd z
  Zipped-Chain (e ∷ es) [] z chain = absurd z
  Zipped-Chain (e ∷ es) (p ∷ ps) (here, z) (others, chain) =
      (all_Off e p es ps here z others, Zipped-Chain es ps z chain)

  -- what holds of every placement at a spot
  pub Zipped-All :
      (P : Placement → Type 0)
      → ((s : Spot) (p : Placement) → IsSpotted extra s p → P p)
      → (es : List Entry) (ps : List Placement) → Zipped (Located extra spots) es ps
      → All P ps
  Zipped-All P of_spot [] [] z = tt
  Zipped-All P of_spot [] (p ∷ ps) z = absurd z
  Zipped-All P of_spot (e ∷ es) [] z = absurd z
  Zipped-All P of_spot (e ∷ es) (p ∷ ps) ((s, at, same, spotted), z) =
      (of_spot s p spotted, Zipped-All P of_spot es ps z)
