-- ===== src/Streams/Requests/Part11.antt =====
-- requests_jp.py, lines 1570 to 1690: sources and lengths.
use street_fighter_alpha_2_n.Base.{ℕ, List, [], ◌∷◌}

unfoldable pub jp_requests_11 : List (ℕ × ℕ)
jp_requests_11 =
    (0x3828C5, 1920)
    ∷ (0x384B53, 2304)
    ∷ (0x3852C1, 2240)
    ∷ (0x385799, 2112)
    ∷ (0x385C5A, 1984)
    ∷ (0x3860FA, 1728)
    ∷ (0x386438, 1728)
    ∷ (0x386763, 1728)
    ∷ (0x386A86, 1728)
    ∷ (0x386DB3, 1216)
    ∷ (0x38706C, 1024)
    ∷ (0x3871E9, 1152)
    ∷ (0x387422, 1024)
    ∷ (0x38763F, 960)
    ∷ (0x387826, 1024)
    ∷ (0x387A23, 960)
    ∷ (0x387BFA, 1024)
    ∷ (0x387E24, 1024)
    ∷ (0x38801C, 1024)
    ∷ (0x388175, 896)
    ∷ (0x3882E7, 1088)
    ∷ (0x388577, 1024)
    ∷ (0x388754, 1152)
    ∷ (0x388973, 1024)
    ∷ (0x388A52, 1024)
    ∷ (0x388FA8, 1024)
    ∷ (0x38915D, 832)
    ∷ (0x3895D8, 1024)
    ∷ (0x3896EC, 2048)
    ∷ (0x389856, 960)
    ∷ (0x389A6A, 896)
    ∷ (0x389C10, 1792)
    ∷ (0x389F66, 1728)
    ∷ (0x38A250, 1024)
    ∷ (0x38A3B0, 1792)
    ∷ (0x38A6DA, 1088)
    ∷ (0x38A8FF, 1728)
    ∷ (0x38AC61, 1728)
    ∷ (0x38B416, 960)
    ∷ (0x38B602, 896)
    ∷ (0x38EC1F, 1856)
    ∷ (0x3910BF, 1024)
    ∷ (0x39126C, 1280)
    ∷ (0x391569, 896)
    ∷ (0x3916F8, 1792)
    ∷ (0x3973E6, 1792)
    ∷ (0x397758, 1728)
    ∷ (0x39AFF2, 1728)
    ∷ (0x39B30C, 1664)
    ∷ (0x39B60E, 1728)
    ∷ (0x39B90B, 1664)
    ∷ (0x39BC0A, 1152)
    ∷ (0x39C3A2, 1792)
    ∷ (0x39C6ED, 1856)
    ∷ (0x39F007, 1664)
    ∷ (0x39F6B2, 1920)
    ∷ (0x39FCD5, 1664)
    ∷ (0x3A0000, 1792)
    ∷ (0x3A0319, 1728)
    ∷ (0x3A4235, 1664)
    ∷ (0x3A4510, 1856)
    ∷ (0x3A8C9C, 2816)
    ∷ (0x3A920E, 2816)
    ∷ (0x3A978C, 2816)
    ∷ (0x3A9D0A, 1760)
    ∷ (0x3AA110, 2624)
    ∷ (0x3AA5F6, 1664)
    ∷ (0x3AA8E6, 2688)
    ∷ (0x3AADB9, 1664)
    ∷ (0x3AB038, 2624)
    ∷ (0x3AB467, 2560)
    ∷ (0x3AB96F, 2688)
    ∷ (0x3ABE70, 2848)
    ∷ (0x3AC380, 1984)
    ∷ (0x3AC65A, 2688)
    ∷ (0x3ACF8B, 2112)
    ∷ (0x3AD39B, 2688)
    ∷ (0x3AD8F1, 2880)
    ∷ (0x3ADDF5, 1984)
    ∷ (0x3AE0C8, 2752)
    ∷ (0x3AE646, 1664)
    ∷ (0x3AEA18, 1664)
    ∷ (0x3AEDE8, 1728)
    ∷ (0x3AF1E3, 2720)
    ∷ (0x3AFBEE, 1600)
    ∷ (0x3B0000, 1728)
    ∷ (0x3B03CD, 2208)
    ∷ (0x3B0825, 2048)
    ∷ (0x3B0BA8, 960)
    ∷ (0x3B0C96, 2624)
    ∷ (0x3B11FA, 2624)
    ∷ (0x3B16DA, 2336)
    ∷ (0x3B1BBC, 1952)
    ∷ (0x3B1FB2, 1792)
    ∷ (0x3B23C0, 1920)
    ∷ (0x3B27DF, 2752)
    ∷ (0x3B2D03, 2304)
    ∷ (0x3B31E9, 1664)
    ∷ (0x3B35A7, 1312)
    ∷ (0x3B3885, 1312)
    ∷ (0x3B4524, 2368)
    ∷ (0x3B4A6D, 2304)
    ∷ (0x3B4F62, 1856)
    ∷ (0x3B52DE, 2368)
    ∷ (0x3B5715, 2912)
    ∷ (0x3B6188, 2976)
    ∷ (0x3B6744, 2816)
    ∷ (0x3B6CB6, 2176)
    ∷ (0x3B709D, 2400)
    ∷ (0x3B7A1B, 2432)
    ∷ (0x3B7E70, 2976)
    ∷ (0x3B9590, 2624)
    ∷ (0x3B9F85, 2304)
    ∷ (0x3BA456, 3040)
    ∷ (0x3BBC09, 2272)
    ∷ (0x3BD4C1, 2400)
    ∷ (0x3BE98B, 2528)
    ∷ (0x3BEEBE, 2240)
    ∷ (0x3BF2DF, 2368)
    ∷ (0x3BF69E, 2496)
    ∷ (0x3BFB4D, 2176)
    ∷ []
