-- ===== src/RomBuild/Reclaimed.antt =====
-- reclaimed_regions of rombuild.py: the cartridge space that streams stop needing. `decode` returns
-- the offset past a stream's end, or raises.
use street_fighter_alpha_2_n.Base.{
  ℕ, ◌+◌, ◌-◌, ◌*◌, ◌≤◌, ◌<◌, ◌≡◌, inl, inr, refl, ◌∙◌, sym, min, Bool, true, ◌&&◌, Option, none,
  some, List, [], ◌∷◌, In, leb, ltb, ◌==◌, if◌then◌else◌, Bool-cases, high, low16, Result, ok, err,
  ◌>>=◌, arith,
}
use street_fighter_alpha_2_n.Sdd1Map.{Entry}
use street_fighter_alpha_2_n.RomBuild.{Region, merge, window_base, min_region, read_ahead}
use street_fighter_alpha_2_n.RomBuild.Subtract.{covers, covers-cons}
use street_fighter_alpha_2_n.RomBuild.Merge.{merge_lem}

pub data Raised : Type 0 where
  undecodable : Raised

abbrev pub Decode : Type 0
Decode = List ℕ → ℕ → ℕ → Option ℕ

-- `min(consumed, (entry.source | 0xFFFF) + 1)`: the stream's end, in its bank
abbrev pub end_in_bank : ℕ → ℕ → ℕ
end_in_bank source end = min (end - read_ahead) ((high source + 1) * 0x10000)

-- the span of a stream, where it is not empty
unfoldable pub span_onto : ℕ → Option ℕ → Result Raised (List Region) → Result Raised (List Region)
span_onto source none later = err undecodable
span_onto source (some end) later = do
  spans ← later
  ok (
      if leb (end_in_bank source end) source
      then spans
      else record {
        bank = window_base + high source;
        start = low16 source;
        end = end_in_bank source end - high source * 0x10000;
      }
        ∷ spans)

unfoldable pub span_known :
    Decode → List ℕ → ℕ → Option ℕ → Result Raised (List Region) → Result Raised (List Region)
unfolding span_onto
span_known decode rom source none later = later
span_known decode rom source (some n) later = span_onto source (decode rom source n) later

unfoldable pub spans_from : Decode → List ℕ → List Entry → Result Raised (List Region)
unfolding span_known
spans_from decode rom [] = ok []
spans_from decode rom (e ∷ entries) =
    span_known decode rom e.source e.length (spans_from decode rom entries)

-- those of at least `MIN_REGION` bytes
unfoldable pub large : List Region → List Region
large [] = []
large (r ∷ regions) =
    let later = large regions in if leb min_region (r.end - r.start) then r ∷ later else later

unfoldable pub reclaimed_regions : Decode → List ℕ → List Entry → Result Raised (List Region)
unfolding spans_from large
reclaimed_regions decode rom entries = do
  spans ← spans_from decode rom entries
  ok (large (merge spans))

covers-large :
    (rs : List Region) (bank addr : ℕ)
    → covers (large rs) bank addr ≡ true
    → covers rs bank addr ≡ true
unfolding covers large
covers-large [] bank addr h = h
covers-large (r ∷ rs) bank addr h = ground (arith, covers-large rs bank addr)

-- The stream's bytes, without the byte read ahead, hold the address of the window.
abbrev pub IsConsumed : Decode → List ℕ → List Entry → ℕ → ℕ → Type 0
IsConsumed decode rom entries bank addr =
    (e : Entry) × (n : ℕ) × (end : ℕ) × In e entries
    × (e.length ≡ some n)
    × (decode rom e.source n ≡ some end)
    × (bank ≡ window_base + high e.source)
    × (e.source ≤ high e.source * 0x10000 + addr)
    × (high e.source * 0x10000 + addr < end - read_ahead)
    × (addr < 0x10000)

-- what the spans cover, if there are spans
abbrev Consumed : Decode → List ℕ → List Entry → Result Raised (List Region) → Type 0
Consumed decode rom entries (err e) = Unit
Consumed decode rom entries (ok spans) =
    (bank addr : ℕ) → covers spans bank addr ≡ true → IsConsumed decode rom entries bank addr

spans_from-Consumed :
    (decode : Decode) (rom : List ℕ) (entries : List Entry)
    → Consumed decode rom entries (spans_from decode rom entries)
unfolding spans_from
spans_from-Consumed decode rom [] = unfold covers in λ bank addr h. absurd (cc h)
spans_from-Consumed decode rom (e ∷ entries) =
    known e.length refl (spans_from decode rom entries) (spans_from-Consumed decode rom entries)
  where
    older :
        {bank addr : ℕ}
        → IsConsumed decode rom entries bank addr
        → IsConsumed decode rom (e ∷ entries) bank addr
    older (f, n, end, i, p, q, b, low, up, inside) = (f, n, end, inr i, p, q, b, low, up, inside)

    span : ℕ → Region
    span end = record {
      bank = window_base + high e.source;
      start = low16 e.source;
      end = end_in_bank e.source end - high e.source * 0x10000;
    }

    within : ℕ → ℕ → ℕ → Bool
    within end bank addr =
        ((span end).bank == bank) && (leb (span end).start addr && ltb addr (span end).end)

    onto :
        (n : ℕ)
        → e.length ≡ some n
        → (o : Option ℕ) → decode rom e.source n ≡ o
        → (r : Result Raised (List Region)) → Consumed decode rom entries r
        → Consumed decode rom (e ∷ entries) (span_onto e.source o r)
    onto n q none p r c = tt
    onto n q (some end) p (err x) c = tt
    onto n q (some end) p (ok spans) c =
        elim (Bool-cases (leb (end_in_bank e.source end) e.source)) [
          | inl nothing ↦ rw nothing (λ bank addr h. older (c bank addr h))
          | inr something ↦ rw something (λ bank addr h. elim (Bool-cases (within end bank addr)) [
            | inl here ↦ (
              e,
              n,
              end,
              inl refl,
              q,
              p,
              ground (arith, here),
              ground (arith, here),
              ground (arith, here),
              ground (arith, here),
            )
            | inr elsewhere ↦
                older (
                  c bank addr
                    (ground (arith, elsewhere, h, covers-cons (span end) spans bank addr)))
          ])
        ]

    known :
        (l : Option ℕ)
        → e.length ≡ l
        → (r : Result Raised (List Region)) → Consumed decode rom entries r
        → Consumed decode rom (e ∷ entries) (span_known decode rom e.source l r)
    known none q (err x) c = tt
    known none q (ok spans) c = λ bank addr h. older (c bank addr h)
    known (some n) q r c = onto n q (decode rom e.source n) refl r c

-- Every address of a region that `reclaimed_regions` returns is that of a byte, in the window of the
-- cartridge, which some entry's stream has consumed, the byte read ahead excluded.
pub reclaimed_regions_lem :
    (decode : Decode) (rom : List ℕ) (entries : List Entry) (regions : List Region) (bank addr : ℕ)
    → reclaimed_regions decode rom entries ≡ ok regions
    → covers regions bank addr ≡ true
    → IsConsumed decode rom entries bank addr
unfolding reclaimed_regions
reclaimed_regions_lem decode rom entries regions bank addr h held =
    of_spans (spans_from decode rom entries) (spans_from-Consumed decode rom entries) h
  where
    of_spans :
        (r : Result Raised (List Region))
        → Consumed decode rom entries r
        → (r >>= λ spans. ok (large (merge spans))) ≡ ok regions
        → IsConsumed decode rom entries bank addr
    of_spans (err e) c q = absurd (cc)
    of_spans (ok spans) c q =
        let same : large (merge spans) ≡ regions = cc q in
        c bank addr (
          sym ((merge_lem spans).0 bank addr) ∙ covers-large (merge spans) bank addr (rw same held))
