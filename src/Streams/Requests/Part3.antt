-- ===== src/Streams/Requests/Part3.antt =====
-- requests_jp.py, lines 450 to 589: sources and lengths.
use street_fighter_alpha_2_n.Base.{ℕ, List, [], ◌∷◌}

unfoldable pub jp_requests_3 : List (ℕ × ℕ)
jp_requests_3 =
    (0x20B753, 1344)
    ∷ (0x20BA54, 1184)
    ∷ (0x20BD3A, 1152)
    ∷ (0x20C079, 1248)
    ∷ (0x20C3DF, 1024)
    ∷ (0x20C757, 1024)
    ∷ (0x20CBAD, 1024)
    ∷ (0x20D03D, 1248)
    ∷ (0x20D3CB, 1280)
    ∷ (0x20D73E, 1024)
    ∷ (0x20DA9E, 1600)
    ∷ (0x20DE96, 1120)
    ∷ (0x20E18A, 1536)
    ∷ (0x20E887, 1024)
    ∷ (0x20EC15, 1024)
    ∷ (0x20EF6E, 1024)
    ∷ (0x20F688, 1024)
    ∷ (0x20F941, 1280)
    ∷ (0x20FC7A, 1472)
    ∷ (0x210366, 1536)
    ∷ (0x210757, 1248)
    ∷ (0x210AB0, 1376)
    ∷ (0x210E14, 1536)
    ∷ (0x2111B3, 1088)
    ∷ (0x211484, 1472)
    ∷ (0x21280D, 1824)
    ∷ (0x212CAA, 1024)
    ∷ (0x213094, 1024)
    ∷ (0x2133B7, 1024)
    ∷ (0x213755, 1024)
    ∷ (0x213A3F, 1024)
    ∷ (0x213DDE, 1024)
    ∷ (0x2140B3, 1024)
    ∷ (0x214346, 1536)
    ∷ (0x214762, 1248)
    ∷ (0x214AA5, 2016)
    ∷ (0x214F7E, 1184)
    ∷ (0x215283, 896)
    ∷ (0x2154E9, 1024)
    ∷ (0x215823, 1536)
    ∷ (0x215C0E, 1536)
    ∷ (0x21601E, 1664)
    ∷ (0x21642E, 1728)
    ∷ (0x2168A7, 1024)
    ∷ (0x216BB8, 1536)
    ∷ (0x216F9D, 1408)
    ∷ (0x217330, 1664)
    ∷ (0x217727, 1344)
    ∷ (0x217AC7, 1408)
    ∷ (0x217E76, 1600)
    ∷ (0x21823B, 1440)
    ∷ (0x219EFD, 1024)
    ∷ (0x21A136, 992)
    ∷ (0x21A3CA, 1280)
    ∷ (0x21A6B6, 1856)
    ∷ (0x21AB33, 1824)
    ∷ (0x21AF00, 1792)
    ∷ (0x21B32D, 1120)
    ∷ (0x21B5D2, 1184)
    ∷ (0x21B90F, 1664)
    ∷ (0x21C065, 1152)
    ∷ (0x21C2C8, 1056)
    ∷ (0x21C508, 1600)
    ∷ (0x21C882, 1280)
    ∷ (0x21CBCA, 1056)
    ∷ (0x21CEAA, 1600)
    ∷ (0x21D1D4, 1248)
    ∷ (0x21D4DB, 1504)
    ∷ (0x21D83A, 1440)
    ∷ (0x21DB98, 1600)
    ∷ (0x21E7F1, 1664)
    ∷ (0x21F5FF, 832)
    ∷ (0x21F81D, 704)
    ∷ (0x21FA26, 704)
    ∷ (0x21FC24, 416)
    ∷ (0x21FD42, 352)
    ∷ (0x21FE47, 640)
    ∷ (0x220000, 352)
    ∷ (0x22010E, 320)
    ∷ (0x220211, 416)
    ∷ (0x220338, 640)
    ∷ (0x2204BB, 416)
    ∷ (0x2205D8, 768)
    ∷ (0x2207FC, 384)
    ∷ (0x2208EA, 416)
    ∷ (0x2209F2, 544)
    ∷ (0x220B5A, 1856)
    ∷ (0x220F3E, 992)
    ∷ (0x221110, 736)
    ∷ (0x22129E, 1664)
    ∷ (0x2216AA, 1664)
    ∷ (0x221AB4, 576)
    ∷ (0x221C0E, 992)
    ∷ (0x221EC9, 640)
    ∷ (0x2220A6, 512)
    ∷ (0x222470, 128)
    ∷ (0x2224DA, 384)
    ∷ (0x2225F2, 288)
    ∷ (0x2226C8, 384)
    ∷ (0x2229F0, 544)
    ∷ (0x222B61, 992)
    ∷ (0x222E1C, 448)
    ∷ (0x222F61, 416)
    ∷ (0x2230AF, 320)
    ∷ (0x2231B6, 608)
    ∷ (0x223605, 736)
    ∷ (0x2237F1, 672)
    ∷ (0x223CD4, 800)
    ∷ (0x224072, 448)
    ∷ (0x2241A2, 448)
    ∷ (0x2242C3, 480)
    ∷ (0x224430, 672)
    ∷ (0x2245BB, 736)
    ∷ (0x224761, 384)
    ∷ (0x224854, 416)
    ∷ (0x224973, 416)
    ∷ (0x224DB6, 448)
    ∷ (0x224EF3, 416)
    ∷ (0x22501D, 672)
    ∷ (0x2251D9, 320)
    ∷ (0x2252BF, 384)
    ∷ (0x2253A9, 320)
    ∷ (0x22547D, 864)
    ∷ (0x22569D, 448)
    ∷ (0x2257EB, 608)
    ∷ (0x225C88, 768)
    ∷ (0x225E67, 320)
    ∷ (0x225F3F, 384)
    ∷ (0x226025, 512)
    ∷ (0x226173, 352)
    ∷ (0x2267AA, 384)
    ∷ (0x2268CA, 928)
    ∷ (0x226AE8, 544)
    ∷ (0x226C54, 352)
    ∷ (0x226D3E, 160)
    ∷ (0x226DB7, 416)
    ∷ (0x226ED6, 416)
    ∷ (0x2275A7, 576)
    ∷ (0x227727, 832)
    ∷ (0x227961, 704)
    ∷ []
