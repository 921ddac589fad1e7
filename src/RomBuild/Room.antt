-- ===== src/RomBuild/Room.antt =====
-- When `allocate` cannot fail: one region has room for all streams together.
use street_fighter_alpha_2_n.Base.{
  ℕ, ◌+◌, ◌≤◌, ◌≡◌, ◌⊎◌, inl, inr, refl, Option, none, some, List, [], ◌∷◌, leb, ◌==◌, max, ◌&&◌,
  All, Chain, Dict, empty, sorted, insert, Bool-cases, Result, ok, ◌>>=◌, arith,
}
use street_fighter_alpha_2_n.RomBuild.{
  Region, Free, Fitted, Spot, Error, by_start, merge, merge_onto, merge_sorted, fit, pass_by,
  cursors, spot_for, assign, assign_all, placed_of, allocate,
}
use street_fighter_alpha_2_n.RomBuild.Merge.{Ordered, sorted-Ordered}

-- the bytes of all streams
abbrev pub total : List (ℕ × ℕ) → ℕ
total [] = 0
total ((stream, size) ∷ sizes) = size + total sizes

-- some region has room for `n` bytes
abbrev pub HasRoom : ℕ → List Region → Type 0
HasRoom n [] = ⊥
HasRoom n (r ∷ rs) = (r.start + n ≤ r.end) ⊎ HasRoom n rs

-- the same, with what the cursors have given away taken off
abbrev HasRest : ℕ → List Free → Type 0
HasRest n [] = ⊥
HasRest n ((r, cursor) ∷ free) = (cursor + n ≤ r.end) ⊎ HasRest n free

HasRoom-insert :
    (n : ℕ) (r : Region) (rs : List Region) → HasRoom n (r ∷ rs) → HasRoom n (insert by_start r rs)
unfolding insert
HasRoom-insert n r [] h = h
HasRoom-insert n r (s ∷ rs) h = elim (Bool-cases (by_start r s)) [
  | inl e ↦ rw e h
  | inr e ↦ rw e (elim h [
    | inl room ↦ inr (HasRoom-insert n r rs (inl room))
    | inr later ↦ elim later [
      | inl room ↦ inl room
      | inr last ↦ inr (HasRoom-insert n r rs (inr last))
    ]
  ])
]

HasRoom-sorted : (n : ℕ) (rs : List Region) → HasRoom n rs → HasRoom n (sorted by_start rs)
unfolding sorted
HasRoom-sorted n [] h = h
HasRoom-sorted n (r ∷ rs) (inl h) = HasRoom-insert n r (sorted by_start rs) (inl h)
HasRoom-sorted n (r ∷ rs) (inr h) =
    HasRoom-insert n r (sorted by_start rs) (inr (HasRoom-sorted n rs h))

HasRoom-merge_onto :
    (n : ℕ) (last : Region) (rs : List Region)
    → All (Ordered last) rs
    → Chain Ordered rs
    → HasRoom n (last ∷ rs)
    → HasRoom n (merge_onto last rs)
unfolding merge_onto
HasRoom-merge_onto n last [] a c h = h
HasRoom-merge_onto n last (r ∷ rs) a c h =
    elim (Bool-cases (last.bank == r.bank && leb r.start last.end)) [
      | inl joined ↦ rw joined (
          HasRoom-merge_onto n (record last { end = max last.end r.end }) rs a.1 c.1
            (elim h [
              | inl here ↦ inl (omega arith)
              | inr (inl there) ↦ inl (ground arith)
              | inr (inr later) ↦ inr later
            ]))
      | inr apart ↦ rw apart (elim h [
        | inl here ↦ inl here
        | inr later ↦ inr (HasRoom-merge_onto n r rs c.0 c.1 later)
      ])
    ]

HasRoom-merge : (n : ℕ) (rs : List Region) → HasRoom n rs → HasRoom n (merge rs)
unfolding merge merge_sorted
HasRoom-merge n rs h = of_sorted (sorted by_start rs) (sorted-Ordered rs) (HasRoom-sorted n rs h)
  where
    of_sorted : (ss : List Region) → Chain Ordered ss → HasRoom n ss → HasRoom n (merge_sorted ss)
    of_sorted [] c h' = h'
    of_sorted (s ∷ ss) c h' = HasRoom-merge_onto n s ss c.0 c.1 h'

-- what `fit` finds, and the room it leaves
abbrev Leaves : ℕ → Option Fitted → Type 0
Leaves n none = ⊥
Leaves n (some (bank, at, rest)) = HasRest n rest

HasRest-less : (m n : ℕ) (free : List Free) → n ≤ m → HasRest m free → HasRest n free
HasRest-less m n [] le h = h
HasRest-less m n ((r, cursor) ∷ free) le (inl h) = inl (omega arith)
HasRest-less m n ((r, cursor) ∷ free) le (inr h) = inr (HasRest-less m n free le h)

fit-Leaves : (size n : ℕ) (free : List Free) → HasRest (size + n) free → Leaves n (fit size free)
unfolding fit
fit-Leaves size n [] h = h
fit-Leaves size n ((r, cursor) ∷ free) h = elim (Bool-cases (leb (cursor + size) r.end)) [
  | inl room ↦ rw room (elim h [
    | inl here ↦ inl (omega arith)
    | inr there ↦ inr (HasRest-less (size + n) n free (omega arith) there)
  ])
  | inr full ↦ rw full (
      later (fit size free)
        (elim h [ inl here ↦ absurd (ground arith) | inr there ↦ fit-Leaves size n free there ]))
]
  where
    later : (o : Option Fitted) → Leaves n o → Leaves n (pass_by (r, cursor) o)
    later none k = k
    later (some (bank, at, rest)) k = inr k

abbrev Succeeds : {A : Type 0} → Result Error A → Type 0
Succeeds {A} r = (a : A) × (r ≡ ok a)

assign-Succeeds :
    (sizes : List (ℕ × ℕ)) (free : List Free)
    → HasRest (total sizes) free
    → Succeeds (assign sizes free)
unfolding assign
assign-Succeeds [] free h = ([], refl)
assign-Succeeds ((stream, size) ∷ sizes) free h =
    step (fit size free) (fit-Leaves size (total sizes) free h)
      (λ rest k. assign-Succeeds sizes rest k)
  where
    extend :
        (bank at : ℕ) (r : Result Error (List Spot))
        → Succeeds r
        → Succeeds (
            r >>= λ spots.
            ok (record { stream = stream; size = size; bank = bank; at = at } ∷ spots))
    extend bank at r (spots, e) = rw e (_, refl)

    step :
        (o : Option Fitted)
        → Leaves (total sizes) o
        → ((rest : List Free) → HasRest (total sizes) rest → Succeeds (assign sizes rest))
        → Succeeds (spot_for stream size o (λ rest. assign sizes rest))
    step none k rec = absurd k
    step (some (bank, at, rest)) k rec = extend bank at (assign sizes rest) (rec rest k)

HasRest-cursors : (n : ℕ) (rs : List Region) → HasRoom n rs → HasRest n (cursors rs)
unfolding cursors
HasRest-cursors n [] h = h
HasRest-cursors n (r ∷ rs) h = ground (arith, HasRest-cursors n rs)

-- If one of the regions offered has room for all streams together, `allocate` returns.
pub allocate-Succeeds :
    (sizes : List (ℕ × ℕ)) (regions : List Region)
    → HasRoom (total sizes) regions
    → (placed : Dict ℕ) × (allocate sizes regions ≡ ok placed)
unfolding allocate
allocate-Succeeds sizes regions room =
    of_offer (sorted by_start (merge regions))
      (HasRoom-sorted (total sizes) (merge regions) (HasRoom-merge (total sizes) regions room))
  where
    finish :
        (r : Result Error (List Spot))
        → Succeeds r
        → Succeeds (r >>= λ spots. ok (placed_of spots empty))
    finish r (spots, e) = rw e (_, refl)

    of_offer :
        (rs : List Region)
        → HasRoom (total sizes) rs
        → Succeeds (assign_all sizes rs >>= λ spots. ok (placed_of spots empty))
    of_offer [] h = absurd h
    of_offer (r ∷ rs) h =
        finish (assign sizes (cursors (r ∷ rs)))
          (assign-Succeeds sizes (cursors (r ∷ rs)) (HasRest-cursors (total sizes) (r ∷ rs) h))
