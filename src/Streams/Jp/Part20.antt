-- ===== src/Streams/Jp/Part20.antt =====
-- jpstreams.py, lines 2855 to 2950: sources and lengths.
use street_fighter_alpha_2_n.Base.{ℕ, List, [], ◌∷◌}

unfoldable pub jp_streams_20 : List (ℕ × ℕ)
jp_streams_20 =
    (0x3A9D0A, 1760)
    ∷ (0x3AA110, 2624)
    ∷ (0x3AA5F6, 1664)
    ∷ (0x3AA8E6, 2688)
    ∷ (0x3AADB9, 1664)
    ∷ (0x3AB038, 2624)
    ∷ (0x3AB467, 2560)
    ∷ (0x3AB96F, 2688)
    ∷ (0x3ABE70, 2848)
    ∷ (0x3AC380, 1984)
    ∷ (0x3AC65A, 2688)
    ∷ (0x3ACB39, 2080)
    ∷ (0x3ACF8B, 2112)
    ∷ (0x3AD39B, 2688)
    ∷ (0x3AD8F1, 2880)
    ∷ (0x3ADDF5, 1984)
    ∷ (0x3AE0C8, 2752)
    ∷ (0x3AE646, 1664)
    ∷ (0x3AEA18, 1664)
    ∷ (0x3AEDE8, 1728)
    ∷ (0x3AF1E3, 2720)
    ∷ (0x3AF5FE, 3072)
    ∷ (0x3AFBEE, 1600)
    ∷ (0x3B0000, 1728)
    ∷ (0x3B03CD, 2208)
    ∷ (0x3B0825, 2048)
    ∷ (0x3B0BA8, 960)
    ∷ (0x3B0C96, 2624)
    ∷ (0x3B11FA, 2624)
    ∷ (0x3B16DA, 2336)
    ∷ (0x3B1BBC, 1952)
    ∷ (0x3B1FB2, 1792)
    ∷ (0x3B23C0, 1920)
    ∷ (0x3B27DF, 2752)
    ∷ (0x3B2D03, 2304)
    ∷ (0x3B31E9, 1664)
    ∷ (0x3B35A7, 1312)
    ∷ (0x3B3885, 1312)
    ∷ (0x3B3B59, 2368)
    ∷ (0x3B4057, 2176)
    ∷ (0x3B4524, 2368)
    ∷ (0x3B4A6D, 2304)
    ∷ (0x3B4F62, 1856)
    ∷ (0x3B52DE, 2368)
    ∷ (0x3B5715, 2912)
    ∷ (0x3B5C8E, 2464)
    ∷ (0x3B6188, 2976)
    ∷ (0x3B6744, 2816)
    ∷ (0x3B6CB6, 2176)
    ∷ (0x3B709D, 2400)
    ∷ (0x3B751D, 2624)
    ∷ (0x3B7A1B, 2432)
    ∷ (0x3B7E70, 2976)
    ∷ (0x3B8373, 2720)
    ∷ (0x3B887D, 2432)
    ∷ (0x3B8D3C, 1920)
    ∷ (0x3B914D, 2016)
    ∷ (0x3B9590, 2624)
    ∷ (0x3B9AD5, 2176)
    ∷ (0x3B9F85, 2304)
    ∷ (0x3BA456, 3040)
    ∷ (0x3BA985, 2208)
    ∷ (0x3BADEA, 2240)
    ∷ (0x3BB265, 2624)
    ∷ (0x3BB748, 2688)
    ∷ (0x3BBC09, 2272)
    ∷ (0x3BC047, 2752)
    ∷ (0x3BC575, 2624)
    ∷ (0x3BCA86, 2752)
    ∷ (0x3BCFAA, 2656)
    ∷ (0x3BD4C1, 2400)
    ∷ (0x3BD938, 2944)
    ∷ (0x3BDDA2, 2144)
    ∷ (0x3BE0DD, 2144)
    ∷ (0x3BE514, 2240)
    ∷ (0x3BE98B, 2528)
    ∷ (0x3BEEBE, 2240)
    ∷ (0x3BF2DF, 2368)
    ∷ (0x3BF69E, 2496)
    ∷ (0x3BFB4D, 2176)
    ∷ (0x3E0735, 560)
    ∷ (0x3E0768, 832)
    ∷ (0x3E07F0, 832)
    ∷ (0x3E0865, 832)
    ∷ (0x3E0940, 832)
    ∷ (0x3E0A04, 832)
    ∷ (0x3E0A73, 832)
    ∷ (0x3E0B45, 832)
    ∷ (0x3E0B9D, 832)
    ∷ (0x3E0C5C, 832)
    ∷ (0x3E0CB0, 832)
    ∷ (0x3E0D60, 832)
    ∷ (0x3E0DFE, 832)
    ∷ (0x3E0F06, 832)
    ∷ []
