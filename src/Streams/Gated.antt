-- ===== src/Streams/Gated.antt =====
-- The repository's tables under gate.py: what `check` still has to find out.
use street_fighter_alpha_2_n.Base.{
  ℕ, ◌≡◌, ◌↔◌, refl, true, Option, List, [], All, Chain, sorted, ok,
}
use street_fighter_alpha_2_n.Gate.{Decode, check}
use street_fighter_alpha_2_n.Gate.Covered.{IsCovered}
use street_fighter_alpha_2_n.Gate.Check.{DecodesAll, IsQuick, check_iff}
use street_fighter_alpha_2_n.Streams.{Region, usa, jp, table, requests, usa_streams, harvested}
use street_fighter_alpha_2_n.Streams.Jp.{jp_streams}
use street_fighter_alpha_2_n.Streams.Tagged.{tagged}
use street_fighter_alpha_2_n.Streams.Requests.{jp_requests}
use street_fighter_alpha_2_n.Streams.Sound.{
  IsBounded, sound_from, Increases, sound_from_lem, Increases-IsOther, covered_by, covered_by_lem,
}

sound_table : (region : Region) → sound_from 0 (table region) ≡ true
unfolding sound_from table usa_streams harvested jp_streams tagged sorted
sound_table jp = refl
sound_table usa = refl

covered_table : (region : Region) → covered_by (requests region) (table region) ≡ true
unfolding covered_by table usa_streams harvested jp_streams tagged jp_requests requests sorted
covered_table jp = refl
covered_table usa = refl

-- The sources of each region's table increase strictly and lie in the cartridge's 4 MB, and each
-- length is above 0 and at most 64 KB.
pub table-IsBounded :
    (region : Region) → Chain Increases (table region) × All IsBounded (table region)
table-IsBounded region =
    let (low, chain, bounded) = sound_from_lem 0 (table region) (sound_table region) in
    (chain, bounded)

table-IsCovered : (region : Region) → All (IsCovered (table region)) (requests region)
table-IsCovered region =
    covered_by_lem (requests region) (table region) (table region) (λ e i. i) (covered_table region)

-- For a region's own table and requests, `check` finds nothing exactly if the cartridge, where it is
-- there, decodes as the table says, and no key is scanned further than the budget: the sources are
-- distinct and every observed request is covered.
pub check-table :
    (decode : Decode) (region : Region) (retail : Option (List ℕ))
    → (check decode (table region) (requests region) retail ≡ ok [])
      ↔ (DecodesAll decode retail (table region) × IsQuick (table region))
check-table decode region retail =
    let both = check_iff decode (table region) (requests region) retail in
    (
      λ h. let all = both.0 h in (all.1, all.3),
      λ h. both.1 (
        Increases-IsOther (table region) (table-IsBounded region).0,
        h.0,
        table-IsCovered region,
        h.1,
      ),
    )
