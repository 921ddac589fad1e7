-- ===== src/RomBuild/Allocate.antt =====
-- `allocate` gives every stream room of its own in the regions that it is offered.
use street_fighter_alpha_2_n.Base.{
  ℕ, ◌≤◌, ◌≡◌, ◌≢◌, ◌⊎◌, refl, ap, ◌∙◌, sym, true, false, Option, none, some, List, [], ◌∷◌, All,
  All-map, Chain, sorted-Chain, Dict, put, put_self, put_ne, join, empty, sorted, Result, ok, err,
  ◌>>=◌, map, arith,
}
use street_fighter_alpha_2_n.RomBuild.{
  Region, Free, Fitted, Spot, Error, by_start, merge, fit, cursors, spot_for, assign, assign_all,
  placed_of, allocate,
}
use street_fighter_alpha_2_n.RomBuild.Subtract.{covers}
use street_fighter_alpha_2_n.RomBuild.Merge.{Separate, merge_lem, covers-sorted}
use street_fighter_alpha_2_n.RomBuild.Fit.{open_at, Clear, holds_at, IsFit, Fits, fit-Fits}

abbrev pub SpotOpen : List Region → Spot → Type 0
SpotOpen regions s =
    (b addr : ℕ) → holds_at s.bank s.at s.size b addr ≡ true → covers regions b addr ≡ true

-- Two spots share no address.
abbrev pub Disjoint : Spot → Spot → Type 0
Disjoint s t =
    (b addr : ℕ)
    → holds_at s.bank s.at s.size b addr ≡ true
    → holds_at t.bank t.at t.size b addr ≡ false

abbrev OpenIn : List Free → Spot → Type 0
OpenIn free s =
    (b addr : ℕ) → holds_at s.bank s.at s.size b addr ≡ true → open_at free b addr ≡ true

abbrev Assigned : List Free → Result Error (List Spot) → Type 0
Assigned free (err e) = Unit
Assigned free (ok spots) = All (OpenIn free) spots × Chain Disjoint spots

assign-Assigned :
    (sizes : List (ℕ × ℕ)) (free : List Free) → Chain Clear free → Assigned free (assign sizes free)
unfolding assign
assign-Assigned [] free clear = (tt, tt)
assign-Assigned ((stream, size) ∷ sizes) free clear =
    step (fit size free) (fit-Fits size free clear) (λ rest. assign-Assigned sizes rest)
  where
    extend :
        (bank at : ℕ) (rest : List Free) (r : Result Error (List Spot))
        → IsFit size free bank at rest
        → Assigned rest r
        → Assigned free (
            r >>= λ spots.
            ok (record { stream = stream; size = size; bank = bank; at = at } ∷ spots))
    extend bank at rest (err e) f a = tt
    extend bank at rest (ok spots) f a = (
      (
        f.was_open,
        All-map (OpenIn rest) (OpenIn free) spots
            (λ s o b addr h. ground (arith, o b addr h, f.still_open b addr)) a.0,
      ),
      (
        All-map (OpenIn rest)
            (Disjoint (record { stream = stream; size = size; bank = bank; at = at })) spots
            (λ s o b addr h. ground (arith, o b addr, f.still_open b addr)) a.0,
        a.1,
      ),
    )

    step :
        (o : Option Fitted)
        → Fits size free o
        → ((rest : List Free) → Chain Clear rest → Assigned rest (assign sizes rest))
        → Assigned free (spot_for stream size o (λ rest. assign sizes rest))
    step none f rec = tt
    step (some (bank, at, rest)) f rec = extend bank at rest (assign sizes rest) f.0 (rec rest f.1)

-- No two regions of one bank share an address.
abbrev Distinct : Region → Region → Type 0
Distinct r s = (r.bank ≢ s.bank) ⊎ ((r.end ≤ s.start) ⊎ (s.end ≤ r.start))

open_at-cursors :
    (rs : List Region) (bank addr : ℕ) → open_at (cursors rs) bank addr ≡ covers rs bank addr
unfolding open_at cursors covers
open_at-cursors [] bank addr = refl
open_at-cursors (r ∷ rs) bank addr = ground (arith, open_at-cursors rs bank addr)

Clear-cursors : (rs : List Region) → Chain Distinct rs → Chain Clear (cursors rs)
unfolding cursors
Clear-cursors [] d = tt
Clear-cursors (r ∷ rs) d = (all rs d.0, Clear-cursors rs d.1)
  where
    all : (ss : List Region) → All (Distinct r) ss → All (Clear (r, r.start)) (cursors ss)
    all [] h = tt
    all (s ∷ ss) h = (h.0, all ss h.1)

Chain-map :
    {R S : Region → Region → Type 0} (f : (a b : Region) → R a b → S a b) (rs : List Region)
    → Chain R rs
    → Chain S rs
Chain-map f [] c = tt
Chain-map {R} {S} f (r ∷ rs) c = (All-map (R r) (S r) rs (f r) c.0, Chain-map f rs c.1)

-- the regions that `allocate` works on
offered : List Region → List Region
offered regions = sorted by_start (merge regions)

offered-Distinct : (regions : List Region) → Chain Distinct (offered regions)
unfolding offered
offered-Distinct regions =
    sorted-Chain by_start Distinct (λ a b d. flip a b d) (merge regions)
      (Chain-map (λ a b h. apart a b h) (merge regions) (merge_lem regions).1)
  where
    flip : (a b : Region) → Distinct a b → Distinct b a
    flip a b d = ground arith

    apart : (a b : Region) → Separate a b → Distinct a b
    apart a b h = ground arith

covers-offered :
    (regions : List Region) (bank addr : ℕ)
    → covers (offered regions) bank addr ≡ covers regions bank addr
unfolding offered
covers-offered regions bank addr =
    covers-sorted (merge regions) bank addr ∙ (merge_lem regions).0 bank addr

abbrev pub request : Spot → ℕ × ℕ
request s = (s.stream, s.size)

abbrev Requests : List (ℕ × ℕ) → Result Error (List Spot) → Type 0
Requests sizes (err e) = Unit
Requests sizes (ok spots) = map request spots ≡ sizes

assign-Requests : (sizes : List (ℕ × ℕ)) (free : List Free) → Requests sizes (assign sizes free)
unfolding assign
assign-Requests [] free = refl
assign-Requests ((stream, size) ∷ sizes) free =
    step (fit size free) (λ rest. assign-Requests sizes rest)
  where
    extend :
        (bank at : ℕ) (r : Result Error (List Spot))
        → Requests sizes r
        → Requests ((stream, size) ∷ sizes) (
            r >>= λ spots.
            ok (record { stream = stream; size = size; bank = bank; at = at } ∷ spots))
    extend bank at (err e) h = tt
    extend bank at (ok spots) h = ap (λ l. (stream, size) ∷ l) h

    step :
        (o : Option Fitted)
        → ((rest : List Free) → Requests sizes (assign sizes rest))
        → Requests ((stream, size) ∷ sizes) (spot_for stream size o (λ rest. assign sizes rest))
    step none rec = tt
    step (some (bank, at, rest)) rec = extend bank at (assign sizes rest) (rec rest)

-- Spots for other streams leave a stream's address alone.
placed_of_other :
    (spots : List Spot) (placed : Dict ℕ) (stream : ℕ)
    → All (λ s. stream ≢ s.stream) spots
    → placed_of spots placed stream ≡ placed stream
unfolding placed_of
placed_of_other [] placed stream h = refl
placed_of_other (s ∷ spots) placed stream h =
    placed_of_other spots (put placed s.stream (join s.bank s.at)) stream h.1
    ∙ put_ne placed s.stream stream (join s.bank s.at) (λ e. h.0 (sym e))

placed_of_each :
    (spots : List Spot) (placed : Dict ℕ)
    → Chain (λ s t. s.stream ≢ t.stream) spots
    → All (λ s. placed_of spots placed s.stream ≡ some (join s.bank s.at)) spots
unfolding placed_of
placed_of_each [] placed c = tt
placed_of_each (s ∷ spots) placed c = (
  placed_of_other spots (put placed s.stream (join s.bank s.at)) s.stream c.0
      ∙ put_self placed s.stream (join s.bank s.at),
  placed_of_each spots (put placed s.stream (join s.bank s.at)) c.1,
)

-- streams whose requests are distinct are distinct
distinct_streams :
    (spots : List Spot)
    → Chain (λ a b. a.0 ≢ b.0) (map request spots)
    → Chain (λ s t. s.stream ≢ t.stream) spots
distinct_streams [] c = tt
distinct_streams (s ∷ spots) c = (all spots c.0, distinct_streams spots c.1)
  where
    all :
        (ts : List Spot)
        → All (λ b. s.stream ≢ b.0) (map request ts)
        → All (λ t. s.stream ≢ t.stream) ts
    all [] h = tt
    all (t ∷ ts) h = (h.0, all ts h.1)

-- What `allocate` returns comes from a spot for each request in turn. If no stream is asked for
-- twice, the address returned for a stream is its spot's bank and offset. Every address of a spot
-- lies in a region that was offered, and no two spots share an address, even where the regions
-- offered overlap.
pub allocate-Disjoint :
    (sizes : List (ℕ × ℕ)) (regions : List Region) (placed : Dict ℕ)
    → Chain (λ a b. a.0 ≢ b.0) sizes
    → allocate sizes regions ≡ ok placed
    → (spots : List Spot) × (map request spots ≡ sizes)
      × All (λ s. placed s.stream ≡ some (join s.bank s.at)) spots
      × All (SpotOpen regions) spots
      × Chain Disjoint spots
unfolding allocate offered assign_all
allocate-Disjoint sizes regions placed distinct h =
    of_offer (offered regions) (offered-Distinct regions) (covers-offered regions) h
  where
    Goal : Type 0
    Goal =
        (spots : List Spot) × (map request spots ≡ sizes)
        × All (λ s. placed s.stream ≡ some (join s.bank s.at)) spots
        × All (SpotOpen regions) spots
        × Chain Disjoint spots

    of_spots :
        (rs : List Region)
        → ((bank addr : ℕ) → covers rs bank addr ≡ covers regions bank addr)
        → (r : Result Error (List Spot)) → Assigned (cursors rs) r
        → Requests sizes r
        → (r >>= λ spots. ok (placed_of spots empty)) ≡ ok placed
        → Goal
    of_spots rs same (err e) a q e' = absurd (cc)
    of_spots rs same (ok spots) a q e' = (
      spots,
      q,
      rw (sym found) (placed_of_each spots empty (distinct_streams spots (rw q distinct))),
      All-map (OpenIn (cursors rs)) (SpotOpen regions) spots
          (λ s o b addr i. sym (same b addr) ∙ sym (open_at-cursors rs b addr) ∙ o b addr i) a.0,
      a.1,
    )
      where
        found : placed_of spots empty ≡ placed
        found = cc

    of_offer :
        (rs : List Region)
        → Chain Distinct rs
        → ((bank addr : ℕ) → covers rs bank addr ≡ covers regions bank addr)
        → (assign_all sizes rs >>= λ spots. ok (placed_of spots empty)) ≡ ok placed
        → Goal
    of_offer [] d same e' = absurd (cc)
    of_offer (r ∷ rs) d same e' =
        of_spots (r ∷ rs) same (assign sizes (cursors (r ∷ rs)))
          (assign-Assigned sizes (cursors (r ∷ rs)) (Clear-cursors (r ∷ rs) d))
          (assign-Requests sizes (cursors (r ∷ rs))) e'
