-- ===== src/Tables/Tests.antt =====
-- Runs of the key allocation on small tables.
use street_fighter_alpha_2_n.Base.{
  ℕ, some, zero, suc, ◌≡◌, refl, List, [], ◌∷◌, length, ok, err, sorted, range, replicate, empty,
  if◌then◌else◌, arith,
}
use street_fighter_alpha_2_n.Tables.{
  Key, Placement, unplaceable, allocate, by_address, place_keys, repair_rounds, repair_keys,
  repair_one, scanned, remove, broken_from, first_free, first_free_from, scan, scan_from, verify,
  fill, check_from,
}
use street_fighter_alpha_2_n.Tables.{slots, source_key}
use street_fighter_alpha_2_n.Tables.Build.{ByteTables, build, passed_on, blank, enter, enter_all}
use street_fighter_alpha_2_n.Tables.Lookup.{find_slot, destination_at}
use street_fighter_alpha_2_n.Tables.Found.{find_slot-build}
use street_fighter_alpha_2_n.Tables.Greedy.{InBank}
use street_fighter_alpha_2_n.Tables.Repair.{allocate_lem, is_nil}
use street_fighter_alpha_2_n.Tables.Verified.{verify-allocate}
use street_fighter_alpha_2_n.Tables.Duplicates.{allocate_duplicate}

-- two keys at 5, of which the second goes to the next free slot
allocate_collision :
    allocate ((0xC1, 5) ∷ (0xC0, 5) ∷ (0xC2, 6) ∷ (0xC1, 4) ∷ []) ≡ ok (5 ∷ 6 ∷ 7 ∷ 4 ∷ [])
unfolding allocate by_address place_keys repair_rounds broken_from first_free first_free_from scan
    scan_from sorted range replicate
allocate_collision = refl

-- three keys for which no single pass finds a placement
abbrev crowded : List Key
crowded = (0xC1, 5) ∷ (0xC0, 5) ∷ (0xC0, 6) ∷ []

crowded-InBank : InBank crowded
crowded-InBank zero h = omega arith
crowded-InBank (suc zero) h = omega arith
crowded-InBank (suc (suc zero)) h = omega arith
crowded-InBank (suc (suc (suc i))) h = absurd (omega arith)

-- The second key goes to slot 6, where the scan for the third stops. The repairs leave it there.
allocate_gives_up : allocate crowded ≡ err unplaceable
unfolding allocate by_address place_keys repair_rounds repair_keys repair_one scanned remove
    broken_from first_free first_free_from scan scan_from sorted range replicate
allocate_gives_up = refl

-- The same keys have a placement that `verify` accepts.
crowded_placement : verify crowded (7 ∷ 5 ∷ 6 ∷ []) ≡ ok tt
unfolding verify fill check_from scan scan_from
crowded_placement = refl

allocate_lem_example :
    (s : Placement) × (place_keys (by_address crowded) crowded (replicate 3 0) empty ≡ ok s)
    × (length s.0 ≡ 3)
    × (allocate crowded
        ≡ (if is_nil (broken_from crowded 0 s.0 s.1) then ok s.0 else err unplaceable))
allocate_lem_example = allocate_lem crowded (omega arith) crowded-InBank

abbrev colliding : List Key
colliding = (0xC1, 5) ∷ (0xC0, 5) ∷ (0xC2, 6) ∷ (0xC1, 4) ∷ []

colliding-InBank : InBank colliding
colliding-InBank zero h = omega arith
colliding-InBank (suc zero) h = omega arith
colliding-InBank (suc (suc zero)) h = omega arith
colliding-InBank (suc (suc (suc zero))) h = omega arith
colliding-InBank (suc (suc (suc (suc i)))) h = absurd (omega arith)

verify-allocate_example : verify colliding (5 ∷ 6 ∷ 7 ∷ 4 ∷ []) ≡ ok tt
verify-allocate_example =
    verify-allocate colliding (5 ∷ 6 ∷ 7 ∷ 4 ∷ []) colliding-InBank allocate_collision

abbrev repeated : List Key
repeated = (0xC1, 0x100) ∷ (0xC1, 0x100) ∷ []

repeated-InBank : InBank repeated
repeated-InBank zero h = omega arith
repeated-InBank (suc zero) h = omega arith
repeated-InBank (suc (suc i)) h = absurd (omega arith)

allocate_duplicate_example : allocate repeated ≡ err unplaceable
allocate_duplicate_example =
    allocate_duplicate repeated 0 1 (omega arith) repeated-InBank (omega arith) (omega arith)
      (λ e. absurd (omega arith)) refl

-- two streams whose keys collide at 5, and where they go
abbrev two : List (ℕ × ℕ)
two = (0x10005, 0x401234) ∷ (0x5, 0x41ABCD) ∷ []

two_allocated : allocate ((0xC1, 5) ∷ (0xC0, 5) ∷ []) ≡ ok (5 ∷ 6 ∷ [])
unfolding allocate by_address place_keys repair_rounds broken_from first_free first_free_from scan
    scan_from sorted range replicate
two_allocated = refl

two_verified : verify ((0xC1, 5) ∷ (0xC0, 5) ∷ []) (5 ∷ 6 ∷ []) ≡ ok tt
unfolding verify fill check_from scan scan_from
two_verified = refl

two_entered :
    (t : ByteTables) × (enter_all
        ((0xC1, 5) ∷ (0xC0, 5) ∷ [])
        (5 ∷ 6 ∷ [])
        (0x401234 ∷ 0x41ABCD ∷ [])
        (blank (5 ∷ 6 ∷ []))
      ≡ ok t)
unfolding enter_all enter
two_entered = (_, refl)

two_built : build two ≡ ok two_entered.0
unfolding build passed_on source_key
two_built = rw (two_allocated, two_verified) two_entered.1

find_slot-build_example :
    (slot : ℕ) × (find_slot slots two_entered.0 (source_key 0x5) ≡ some slot)
    × (destination_at two_entered.0 slot ≡ 0x41ABCD)
find_slot-build_example = find_slot-build two two_entered.0 1 two_built (omega arith)

one_allocated : allocate ((0xC0, 0x10) ∷ []) ≡ ok (0x10 ∷ [])
unfolding allocate by_address place_keys repair_rounds broken_from first_free first_free_from scan
    scan_from sorted range replicate
one_allocated = refl

one_verified : verify ((0xC0, 0x10) ∷ []) (0x10 ∷ []) ≡ ok tt
unfolding verify fill check_from scan scan_from
one_verified = refl

one_entered :
    (t : ByteTables) × (enter_all
        ((0xC0, 0x10) ∷ [])
        (0x10 ∷ [])
        (0x400000 ∷ [])
        (blank (0x10 ∷ []))
      ≡ ok t)
unfolding enter_all enter
one_entered = (_, refl)

-- the tables of one stream, which the tests of the image use
pub one_tabled : (t : ByteTables) × (build ((0x10, 0x400000) ∷ []) ≡ ok t)
unfolding build passed_on source_key
one_tabled = (one_entered.0, rw (one_allocated, one_verified) one_entered.1)

-- the slots of two keys, which the tests of mapcheck.py use
pub apart_allocated : allocate ((0xC0, 0x10) ∷ (0xC0, 0x20) ∷ []) ≡ ok (0x10 ∷ 0x20 ∷ [])
unfolding allocate by_address place_keys repair_rounds broken_from first_free first_free_from scan
    scan_from sorted range replicate
apart_allocated = refl
