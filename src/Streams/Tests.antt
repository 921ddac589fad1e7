-- ===== src/Streams/Tests.antt =====
-- The theorems on the repository's tables, for one region each.
use street_fighter_alpha_2_n.Base.{◌≡◌, ◌↔◌, some, [], All, Chain, replicate, ok}
use street_fighter_alpha_2_n.Gate.{Decode, check}
use street_fighter_alpha_2_n.Gate.Check.{DecodesAll, IsQuick}
use street_fighter_alpha_2_n.Streams.{jp, usa, table, requests}
use street_fighter_alpha_2_n.Streams.Sound.{Increases, IsBounded}
use street_fighter_alpha_2_n.Streams.Gated.{table-IsBounded, check-table}

table-IsBounded_example : Chain Increases (table usa) × All IsBounded (table usa)
table-IsBounded_example = table-IsBounded usa

abbrev zeros : Decode
zeros rom source n = some (replicate n 0)

check-table_example :
    (check zeros (table jp) (requests jp) (some []) ≡ ok [])
    ↔ (DecodesAll zeros (some []) (table jp) × IsQuick (table jp))
check-table_example = check-table zeros jp (some [])
