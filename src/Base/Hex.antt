-- ===== src/Base/Hex.antt =====
-- `bytes.fromhex`, on texts of lower-case digits in pairs.
use Prim.Native.Nat.{ℕ, ◌+◌, ◌-◌, ◌*◌}
use Prim.Native.Char.{Char, code}
use Prim.Native.String.{String}
use mathlib.Core.List.{List, [], ◌∷◌}
use street_fighter_alpha_2_n.Base.Tests.{ltb, if◌then◌else◌}

abbrev pub digit : Char → ℕ
digit c = if ltb (code c) b'a' then code c - b'0' else code c - b'a' + 10

unfoldable pub hex : String → List ℕ
hex String.[] = []
hex (String.◌∷◌ c String.[]) = []
hex (String.◌∷◌ c (String.◌∷◌ d s)) = (digit c * 16 + digit d) ∷ hex s
