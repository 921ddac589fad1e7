-- ===== src/GameFixes/Tests.antt =====
-- The theorems of gamefixes.py at a cartridge of six bytes, which one fix is for, and at one with two
-- calls of a bare return.
use street_fighter_alpha_2_n.Base.{ℕ, ◌≡◌, List, [], ◌∷◌, occurrences, places}
use street_fighter_alpha_2_n.GameFixes.{locate}
use street_fighter_alpha_2_n.GameFixes.Located.{located, locate_lem}

abbrev six : List ℕ
six = 0xB5 ∷ 0x78 ∷ 0xC9 ∷ 0x01 ∷ 0xF0 ∷ 0x04 ∷ []

six_patched : List ℕ
six_patched = 0xB5 ∷ 0x78 ∷ 0xC9 ∷ 0x02 ∷ 0xF0 ∷ 0x04 ∷ []

locate_lem_example :
    locate six (0xC9 ∷ 0x01 ∷ []) ≡ located (places (occurrences six (0xC9 ∷ 0x01 ∷ []) 0))
locate_lem_example = locate_lem six (0xC9 ∷ 0x01 ∷ []) (λ e. cc e)

-- a bare return at 0xC00000, and two calls of it
abbrev calling : List ℕ
calling = 0x6B ∷ 0x22 ∷ 0 ∷ 0 ∷ 0xC0 ∷ 0x60 ∷ 7 ∷ 0x22 ∷ 0 ∷ 0 ∷ 0xC0 ∷ 0x60 ∷ []

abbrev returning : List ℕ
returning = 0x6B ∷ 0x60 ∷ 0 ∷ 0 ∷ 0xC0 ∷ 0x60 ∷ 7 ∷ 0x60 ∷ 0 ∷ 0 ∷ 0xC0 ∷ 0x60 ∷ []
