-- ===== src/Streams/Requests/Part9.antt =====
-- requests_jp.py, lines 1290 to 1429: sources and lengths.
use street_fighter_alpha_2_n.Base.{ℕ, List, [], ◌∷◌}

unfoldable pub jp_requests_9 : List (ℕ × ℕ)
jp_requests_9 =
    (0x2E4F81, 800)
    ∷ (0x2E511B, 1600)
    ∷ (0x2E5B78, 1280)
    ∷ (0x2E5EA7, 1696)
    ∷ (0x2E6271, 640)
    ∷ (0x2E63FE, 1088)
    ∷ (0x2E6A1C, 1184)
    ∷ (0x2E6D23, 1152)
    ∷ (0x2E7FD0, 704)
    ∷ (0x2E9E65, 1664)
    ∷ (0x2EA23E, 1760)
    ∷ (0x2EA65C, 800)
    ∷ (0x2EA899, 1248)
    ∷ (0x2EABC6, 1472)
    ∷ (0x2EAC48, 832)
    ∷ (0x2EB585, 1280)
    ∷ (0x2EB8AF, 1248)
    ∷ (0x2EBB74, 1216)
    ∷ (0x2EC792, 1344)
    ∷ (0x2ECABB, 1312)
    ∷ (0x2ECD82, 1600)
    ∷ (0x2ED432, 1216)
    ∷ (0x2ED6EF, 1216)
    ∷ (0x2ED9BA, 1504)
    ∷ (0x2EDCEF, 1600)
    ∷ (0x2EE02D, 1600)
    ∷ (0x2EE34B, 1312)
    ∷ (0x2EE621, 1600)
    ∷ (0x2EE97B, 1792)
    ∷ (0x2F0064, 704)
    ∷ (0x2F163D, 1600)
    ∷ (0x2F19DC, 1056)
    ∷ (0x2F1C58, 928)
    ∷ (0x2F1E9A, 1024)
    ∷ (0x2F2108, 2048)
    ∷ (0x2F2550, 1920)
    ∷ (0x2F298D, 1920)
    ∷ (0x2F2DB5, 1984)
    ∷ (0x2F3201, 1504)
    ∷ (0x2F3555, 1600)
    ∷ (0x2F38A7, 640)
    ∷ (0x2F399B, 1600)
    ∷ (0x2F3CEB, 1984)
    ∷ (0x2F411F, 1984)
    ∷ (0x2F4522, 1728)
    ∷ (0x2F48C0, 1792)
    ∷ (0x2F4C9B, 1952)
    ∷ (0x2F5370, 1216)
    ∷ (0x2F5629, 1248)
    ∷ (0x2F6BD1, 1664)
    ∷ (0x2F6F4F, 1024)
    ∷ (0x2F71AE, 1344)
    ∷ (0x2F74D0, 1664)
    ∷ (0x2F7831, 768)
    ∷ (0x2F79F4, 1664)
    ∷ (0x2F7D71, 832)
    ∷ (0x2F7F6B, 1792)
    ∷ (0x2F846B, 768)
    ∷ (0x2FAAF7, 1664)
    ∷ (0x2FAEAD, 1856)
    ∷ (0x2FB259, 1792)
    ∷ (0x2FB634, 1728)
    ∷ (0x2FB9E7, 1408)
    ∷ (0x2FBD0E, 768)
    ∷ (0x2FBEA8, 1600)
    ∷ (0x2FC1A6, 1664)
    ∷ (0x2FC54F, 1600)
    ∷ (0x2FC87C, 1728)
    ∷ (0x2FCBC0, 1728)
    ∷ (0x2FD3D1, 1792)
    ∷ (0x2FDAD4, 1728)
    ∷ (0x2FDE86, 1280)
    ∷ (0x2FE157, 1920)
    ∷ (0x2FE5A1, 2048)
    ∷ (0x2FEA41, 1984)
    ∷ (0x2FEE20, 1856)
    ∷ (0x2FF1F7, 2048)
    ∷ (0x2FF64D, 1024)
    ∷ (0x2FF87B, 2048)
    ∷ (0x3007B6, 1312)
    ∷ (0x300AAF, 1856)
    ∷ (0x300E7D, 2016)
    ∷ (0x301330, 1856)
    ∷ (0x3016E7, 2048)
    ∷ (0x301B32, 1920)
    ∷ (0x301F6D, 704)
    ∷ (0x302EA4, 1440)
    ∷ (0x3031CB, 1600)
    ∷ (0x303509, 1216)
    ∷ (0x3037B5, 1440)
    ∷ (0x303AEC, 1152)
    ∷ (0x304EDF, 1024)
    ∷ (0x305395, 1664)
    ∷ (0x3056CE, 640)
    ∷ (0x3057D4, 1728)
    ∷ (0x305B1E, 1024)
    ∷ (0x305D5B, 1824)
    ∷ (0x306156, 1024)
    ∷ (0x3087C3, 1824)
    ∷ (0x308BDF, 2176)
    ∷ (0x309039, 1184)
    ∷ (0x3092A7, 992)
    ∷ (0x30CEA9, 2336)
    ∷ (0x30D385, 2240)
    ∷ (0x321FAE, 1984)
    ∷ (0x322548, 2080)
    ∷ (0x322AF4, 1984)
    ∷ (0x323074, 1792)
    ∷ (0x323523, 2208)
    ∷ (0x323AC4, 2176)
    ∷ (0x32403B, 2176)
    ∷ (0x3245C6, 2304)
    ∷ (0x324B87, 2112)
    ∷ (0x3250C0, 2176)
    ∷ (0x325651, 2016)
    ∷ (0x325B7F, 1792)
    ∷ (0x325FA6, 1664)
    ∷ (0x326375, 1728)
    ∷ (0x326755, 2176)
    ∷ (0x326F52, 896)
    ∷ (0x329D18, 2208)
    ∷ (0x32A2E0, 2624)
    ∷ (0x32A93D, 2048)
    ∷ (0x32AEAB, 2272)
    ∷ (0x32B47B, 1984)
    ∷ (0x32B996, 1216)
    ∷ (0x32BD12, 1728)
    ∷ (0x32C19B, 1952)
    ∷ (0x32D168, 1824)
    ∷ (0x32D68C, 2368)
    ∷ (0x32EE0E, 2624)
    ∷ (0x32FAB0, 2144)
    ∷ (0x330000, 2048)
    ∷ (0x330526, 1664)
    ∷ (0x330880, 2048)
    ∷ (0x330E0E, 2432)
    ∷ (0x33141B, 1760)
    ∷ (0x3318FF, 1024)
    ∷ (0x331F26, 1472)
    ∷ (0x33223E, 2112)
    ∷ []
