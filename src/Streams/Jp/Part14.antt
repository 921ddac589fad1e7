-- ===== src/Streams/Jp/Part14.antt =====
-- jpstreams.py, lines 2015 to 2154: sources and lengths.
use street_fighter_alpha_2_n.Base.{ℕ, List, [], ◌∷◌}

unfoldable pub jp_streams_14 : List (ℕ × ℕ)
jp_streams_14 =
    (0x2F6F4F, 1024)
    ∷ (0x2F71AE, 1344)
    ∷ (0x2F74D0, 1664)
    ∷ (0x2F7831, 768)
    ∷ (0x2F79F4, 1664)
    ∷ (0x2F7D71, 832)
    ∷ (0x2F7F6B, 1792)
    ∷ (0x2F82DD, 832)
    ∷ (0x2F846B, 768)
    ∷ (0x2F85B5, 1152)
    ∷ (0x2F8840, 1152)
    ∷ (0x2F8AC0, 1120)
    ∷ (0x2F8D4F, 1152)
    ∷ (0x2F8FDD, 2048)
    ∷ (0x2F9425, 352)
    ∷ (0x2F94DE, 352)
    ∷ (0x2F9597, 352)
    ∷ (0x2F964D, 352)
    ∷ (0x2F970B, 352)
    ∷ (0x2F97CA, 1728)
    ∷ (0x2F9B83, 1664)
    ∷ (0x2F9F28, 448)
    ∷ (0x2F9FEB, 468)
    ∷ (0x2FA170, 1728)
    ∷ (0x2FA535, 1216)
    ∷ (0x2FA80B, 1120)
    ∷ (0x2FAAF7, 1664)
    ∷ (0x2FAEAD, 1856)
    ∷ (0x2FB259, 1792)
    ∷ (0x2FB634, 1728)
    ∷ (0x2FB9E7, 1408)
    ∷ (0x2FBD0E, 768)
    ∷ (0x2FBEA8, 1600)
    ∷ (0x2FC1A6, 1664)
    ∷ (0x2FC54F, 1600)
    ∷ (0x2FC87C, 1728)
    ∷ (0x2FCBC0, 1728)
    ∷ (0x2FCF7C, 864)
    ∷ (0x2FD1A5, 928)
    ∷ (0x2FD3D1, 1792)
    ∷ (0x2FD79B, 1728)
    ∷ (0x2FDAD4, 1728)
    ∷ (0x2FDE86, 1280)
    ∷ (0x2FE157, 1920)
    ∷ (0x2FE5A1, 2048)
    ∷ (0x2FEA41, 1984)
    ∷ (0x2FEE20, 1856)
    ∷ (0x2FF1F7, 2048)
    ∷ (0x2FF64D, 1024)
    ∷ (0x2FF87B, 2048)
    ∷ (0x2FFC9D, 1440)
    ∷ (0x300000, 2048)
    ∷ (0x3003CF, 1728)
    ∷ (0x3007B6, 1312)
    ∷ (0x300AAF, 1856)
    ∷ (0x300E7D, 2016)
    ∷ (0x301330, 1856)
    ∷ (0x3016E7, 2048)
    ∷ (0x301B32, 1920)
    ∷ (0x301F6D, 704)
    ∷ (0x3020C2, 768)
    ∷ (0x30223C, 1280)
    ∷ (0x302523, 1920)
    ∷ (0x30292F, 1024)
    ∷ (0x302B7F, 1728)
    ∷ (0x302EA4, 1440)
    ∷ (0x3031CB, 1600)
    ∷ (0x303509, 1216)
    ∷ (0x3037B5, 1440)
    ∷ (0x303AEC, 1152)
    ∷ (0x303D6C, 1600)
    ∷ (0x3040A2, 1376)
    ∷ (0x304393, 1408)
    ∷ (0x3046D4, 2048)
    ∷ (0x304AC3, 2048)
    ∷ (0x304EDF, 1792)
    ∷ (0x30521F, 832)
    ∷ (0x305395, 1664)
    ∷ (0x3056CE, 640)
    ∷ (0x3057D4, 1728)
    ∷ (0x305B1E, 1024)
    ∷ (0x305D5B, 1824)
    ∷ (0x306156, 1024)
    ∷ (0x30638E, 2144)
    ∷ (0x306810, 2080)
    ∷ (0x306C52, 2048)
    ∷ (0x307075, 2048)
    ∷ (0x30744A, 1728)
    ∷ (0x3077C5, 1728)
    ∷ (0x307B08, 1952)
    ∷ (0x307EF3, 2112)
    ∷ (0x3082DD, 1280)
    ∷ (0x30855A, 1184)
    ∷ (0x3087C3, 1824)
    ∷ (0x308BDF, 2176)
    ∷ (0x309039, 1184)
    ∷ (0x3092A7, 992)
    ∷ (0x3094A6, 1184)
    ∷ (0x3096CB, 1664)
    ∷ (0x309A77, 1920)
    ∷ (0x309E54, 2208)
    ∷ (0x30A280, 2048)
    ∷ (0x30A664, 1696)
    ∷ (0x30A9F5, 672)
    ∷ (0x30AB6B, 1920)
    ∷ (0x30AF86, 1664)
    ∷ (0x30B317, 1600)
    ∷ (0x30B6C1, 1664)
    ∷ (0x30BA4B, 864)
    ∷ (0x30BC4C, 1312)
    ∷ (0x30BF83, 1600)
    ∷ (0x30C282, 1600)
    ∷ (0x30C55F, 704)
    ∷ (0x30C6E4, 1792)
    ∷ (0x30CAC5, 1792)
    ∷ (0x30CEA9, 2336)
    ∷ (0x30D385, 2240)
    ∷ (0x30DA16, 1312)
    ∷ (0x30DD1A, 1312)
    ∷ (0x30E029, 1376)
    ∷ (0x30E333, 1152)
    ∷ (0x30E60C, 1152)
    ∷ (0x30E8D4, 1152)
    ∷ (0x30EB91, 1056)
    ∷ (0x30EE30, 1248)
    ∷ (0x30F10B, 1088)
    ∷ (0x30F3B0, 1088)
    ∷ (0x30F62F, 832)
    ∷ (0x30F80F, 960)
    ∷ (0x30FA5A, 1248)
    ∷ (0x30FCF6, 1312)
    ∷ (0x310000, 1792)
    ∷ (0x3103ED, 864)
    ∷ (0x3105F0, 1056)
    ∷ (0x310855, 832)
    ∷ (0x3109ED, 704)
    ∷ (0x310AE8, 1504)
    ∷ (0x310E76, 1728)
    ∷ []
