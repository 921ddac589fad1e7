-- ===== src/Tables/Build.antt =====
-- build of sdd1tables.py: the four tables of bytes, one entry for each slot.
use street_fighter_alpha_2_n.Base.{
  ℕ, ◌/◌, ◌%◌, List, [], ◌∷◌, map, set, replicate, ltb, ◌==◌, high, Result, ok, err, ◌>>=◌, ◌>>◌,
  refuse,
}
use street_fighter_alpha_2_n.Tables.{Key, Error, slots, source_key, allocate, verify}

pub record ByteTables : Type 0 where
  pub key : List ℕ
  pub dest_low : List ℕ
  pub dest_high : List ℕ
  pub dest_bank : List ℕ
  pub at_slots : List ℕ

-- what `allocate` and `verify` raise, and the `ValueError`s of `build` and of an item of a `bytearray`
pub data BuildError : Type 0 where
  unplaced : Error → BuildError
  in_bank_zero : ℕ → BuildError
  not_a_byte : ℕ → BuildError
  uneven : BuildError

unfoldable pub passed_on : {A : Type 0} → Result Error A → Result BuildError A
passed_on (ok value) = ok value
passed_on (err e) = err (unplaced e)

unfoldable pub blank : List ℕ → ByteTables
blank placed = record {
  key = replicate slots 0;
  dest_low = replicate slots 0;
  dest_high = replicate slots 0;
  dest_bank = replicate slots 0;
  at_slots = placed;
}

-- one round of the loop; every slot is below `SLOTS`
unfoldable pub enter : ℕ → ℕ → ℕ → ByteTables → Result BuildError ByteTables
enter bank slot destination t = do
  refuse (high destination == 0) (in_bank_zero destination)
  refuse (ltb 0xFF bank) (not_a_byte bank)
  refuse (ltb 0xFF (high destination)) (not_a_byte (high destination))
  ok (record t {
    key = set t.key slot bank;
    dest_low = set t.dest_low slot (destination % 0x100);
    dest_high = set t.dest_high slot (destination / 0x100 % 0x100);
    dest_bank = set t.dest_bank slot (high destination);
  })

unfoldable pub enter_all : List Key → List ℕ → List ℕ → ByteTables → Result BuildError ByteTables
enter_all [] [] [] t = ok t
enter_all (key ∷ keys) (slot ∷ placed) (destination ∷ destinations) t = do
  entered ← enter key.0 slot destination t
  enter_all keys placed destinations entered
enter_all keys placed destinations t = err uneven

-- a source and a destination
unfoldable pub build : List (ℕ × ℕ) → Result BuildError ByteTables
build pairs = do
  placed ← passed_on (allocate (map (λ p. source_key p.0) pairs))
  passed_on (verify (map (λ p. source_key p.0) pairs) placed)
  enter_all (map (λ p. source_key p.0) pairs) placed (map (λ p. p.1) pairs) (blank placed)
