-- ===== src/RomBuild/Fit.antt =====
-- `fit` gives away a stretch that no one had, and leaves the others open.
use street_fighter_alpha_2_n.Base.{
  ℕ, ◌+◌, ◌≤◌, ◌≡◌, ◌≢◌, ◌⊎◌, inl, inr, refl, Bool, true, false, not, ◌&&◌, ◌||◌, Option, none,
  some, List, [], ◌∷◌, leb, leb→le, ltb, ◌==◌, All, All-map, Chain, Bool-cases, arith,
}
use street_fighter_alpha_2_n.RomBuild.{Region, Free, Fitted, fit, pass_by}

-- whether the address is still to be given away
unfoldable pub open_at : List Free → ℕ → ℕ → Bool
open_at [] bank addr = false
open_at ((r, cursor) ∷ free) bank addr =
    (r.bank == bank && (leb cursor addr && ltb addr r.end)) || open_at free bank addr

-- No two free regions of one bank share an address.
abbrev pub Clear : Free → Free → Type 0
Clear (r, c) (s, d) = (r.bank ≢ s.bank) ⊎ ((r.end ≤ d) ⊎ (s.end ≤ c))

-- whether a stretch of the size, at the bank and address, holds the address
abbrev pub holds_at : ℕ → ℕ → ℕ → ℕ → ℕ → Bool
holds_at bank at size b addr = bank == b && (leb at addr && ltb addr (at + size))

-- What `fit` gives away was open, and is what is no longer open after it.
pub record IsFit (size : ℕ) (free : List Free) (bank at : ℕ) (rest : List Free) : Type 0 where
  pub was_open : (b addr : ℕ) → holds_at bank at size b addr ≡ true → open_at free b addr ≡ true
  pub still_open :
      (b addr : ℕ)
      → open_at rest b addr ≡ (open_at free b addr && not (holds_at bank at size b addr))

open_at-cons :
    (r : Region) (cursor : ℕ) (free : List Free) (bank addr : ℕ)
    → open_at ((r, cursor) ∷ free) bank addr
      ≡ ((r.bank == bank && (leb cursor addr && ltb addr r.end)) || open_at free bank addr)
unfolding open_at
open_at-cons r cursor free bank addr = refl

-- An address of a region that is clear of the others is open in none of them.
closed_elsewhere :
    (r : Region) (cursor : ℕ) (free : List Free) (bank addr : ℕ)
    → All (Clear (r, cursor)) free
    → (r.bank == bank && (leb cursor addr && ltb addr r.end)) ≡ true
    → open_at free bank addr ≡ false
unfolding open_at
closed_elsewhere r cursor [] bank addr clear h = refl
closed_elsewhere r cursor ((s, d) ∷ free) bank addr clear h =
    ground (arith, closed_elsewhere r cursor free bank addr clear.1 h)

IsFit-here :
    (size : ℕ) (r : Region) (cursor : ℕ) (free : List Free)
    → All (Clear (r, cursor)) free
    → cursor + size ≤ r.end
    → IsFit size ((r, cursor) ∷ free) r.bank cursor ((r, cursor + size) ∷ free)
IsFit-here size r cursor free clear room = record {
  was_open = λ b addr h. rw (open_at-cons r cursor free b addr) (ground arith);
  still_open = λ b addr.
      rw (open_at-cons r cursor free b addr, open_at-cons r (cursor + size) free b addr)
        (ground (arith, closed_elsewhere r cursor free b addr clear));
}

IsFit-later :
    (size : ℕ) (r : Region) (cursor : ℕ) (free : List Free) (bank at : ℕ) (rest : List Free)
    → All (Clear (r, cursor)) free
    → IsFit size free bank at rest
    → IsFit size ((r, cursor) ∷ free) bank at ((r, cursor) ∷ rest)
IsFit-later size r cursor free bank at rest clear f = record {
  was_open =
      λ b addr h. rw (open_at-cons r cursor free b addr) (ground (arith, f.was_open b addr h));
  still_open = λ b addr.
      rw (open_at-cons r cursor free b addr, open_at-cons r cursor rest b addr)
        (ground (
          arith,
          f.still_open b addr,
          f.was_open b addr,
          closed_elsewhere r cursor free b addr clear,
        ));
}

-- what `fit` returns is a fit, if it returns one
abbrev pub Fits : ℕ → List Free → Option Fitted → Type 0
Fits size free none = Unit
Fits size free (some (bank, at, rest)) = IsFit size free bank at rest × Chain Clear rest

-- a region that was clear of all stays clear of what is left
abbrev StaysClear : Free → Option Fitted → Type 0
StaysClear f none = Unit
StaysClear f (some (bank, at, rest)) = All (Clear f) rest

fit-StaysClear :
    (f : Free) (size : ℕ) (free : List Free) → All (Clear f) free → StaysClear f (fit size free)
unfolding fit
fit-StaysClear f size [] clear = tt
fit-StaysClear (s, d) size ((r, cursor) ∷ free) clear =
    elim (Bool-cases (leb (cursor + size) r.end)) [
      | inl room ↦ rw room (grown clear.0, clear.1)
      | inr full ↦ rw full (later (fit size free) clear.0 (fit-StaysClear (s, d) size free clear.1))
    ]
  where
    grown : Clear (s, d) (r, cursor) → Clear (s, d) (r, cursor + size)
    grown c = ground arith

    later :
        (o : Option Fitted)
        → Clear (s, d) (r, cursor)
        → StaysClear (s, d) o
        → StaysClear (s, d) (pass_by (r, cursor) o)
    later none c h = tt
    later (some (bank, at, rest)) c h = (c, h)

pub fit-Fits : (size : ℕ) (free : List Free) → Chain Clear free → Fits size free (fit size free)
unfolding fit
fit-Fits size [] clear = tt
fit-Fits size ((r, cursor) ∷ free) clear = elim (Bool-cases (leb (cursor + size) r.end)) [
  | inl room ↦ rw room (
    IsFit-here size r cursor free clear.0 (leb→le (cursor + size) r.end room),
    (
      All-map (Clear (r, cursor)) (Clear (r, cursor + size)) free (λ s c. grown s c) clear.0,
      clear.1,
    ),
  )
  | inr full ↦ rw full (
      later (fit size free) (fit-StaysClear (r, cursor) size free clear.0)
        (fit-Fits size free clear.1))
]
  where
    grown : (s : Free) → Clear (r, cursor) s → Clear (r, cursor + size) s
    grown s c = ground arith

    later :
        (o : Option Fitted)
        → StaysClear (r, cursor) o
        → Fits size free o
        → Fits size ((r, cursor) ∷ free) (pass_by (r, cursor) o)
    later none c h = tt
    later (some (bank, at, rest)) c h =
        (IsFit-later size r cursor free bank at rest clear.0 h.0, (c, h.1))
