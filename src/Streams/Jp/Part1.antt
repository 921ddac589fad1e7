-- ===== src/Streams/Jp/Part1.antt =====
-- jpstreams.py, lines 195 to 334: sources and lengths.
use street_fighter_alpha_2_n.Base.{ℕ, List, [], ◌∷◌}

unfoldable pub jp_streams_1 : List (ℕ × ℕ)
jp_streams_1 =
    (0x1978EA, 3584)
    ∷ (0x197D3B, 480)
    ∷ (0x197E06, 7360)
    ∷ (0x198A11, 832)
    ∷ (0x198B2B, 3584)
    ∷ (0x199229, 4096)
    ∷ (0x19994F, 2048)
    ∷ (0x199D30, 768)
    ∷ (0x199EBB, 1120)
    ∷ (0x19A0F0, 1024)
    ∷ (0x19A380, 800)
    ∷ (0x19A579, 1088)
    ∷ (0x19A80C, 1184)
    ∷ (0x19ABC6, 832)
    ∷ (0x19ADA3, 800)
    ∷ (0x19AF2C, 1280)
    ∷ (0x19B1D6, 1664)
    ∷ (0x19B4B8, 6144)
    ∷ (0x19BEA7, 2048)
    ∷ (0x19C45E, 2048)
    ∷ (0x19C795, 6656)
    ∷ (0x19D94C, 2048)
    ∷ (0x19DBAE, 2048)
    ∷ (0x19DCA5, 2112)
    ∷ (0x19E218, 3104)
    ∷ (0x19E510, 640)
    ∷ (0x19E557, 8192)
    ∷ (0x19F6E0, 1024)
    ∷ (0x19F7E5, 1024)
    ∷ (0x19F8E5, 3072)
    ∷ (0x19FD0A, 960)
    ∷ (0x1A0008, 2656)
    ∷ (0x1A052A, 2048)
    ∷ (0x1A05DC, 1024)
    ∷ (0x1A06E4, 2048)
    ∷ (0x1A07B5, 4608)
    ∷ (0x1A0F51, 3072)
    ∷ (0x1A1515, 1344)
    ∷ (0x1A1596, 768)
    ∷ (0x1A1798, 768)
    ∷ (0x1A19F0, 8576)
    ∷ (0x1A19F1, 1600)
    ∷ (0x1A2243, 256)
    ∷ (0x1A2248, 3936)
    ∷ (0x1A29A9, 2048)
    ∷ (0x1A2A1F, 64)
    ∷ (0x1A2A4E, 4032)
    ∷ (0x1A3041, 3168)
    ∷ (0x1A37FC, 1024)
    ∷ (0x1A39B6, 3008)
    ∷ (0x1A44B7, 3328)
    ∷ (0x1A4C0B, 3520)
    ∷ (0x1A539B, 3904)
    ∷ (0x1A5C72, 3552)
    ∷ (0x1A64D6, 3872)
    ∷ (0x1A6D88, 3456)
    ∷ (0x1A754D, 4064)
    ∷ (0x1A86EC, 3936)
    ∷ (0x1A90CE, 3488)
    ∷ (0x1A987E, 2784)
    ∷ (0x1A9E7D, 4096)
    ∷ (0x1AA810, 3808)
    ∷ (0x1AB661, 704)
    ∷ (0x1AB840, 704)
    ∷ (0x1AB945, 704)
    ∷ (0x1ABA27, 704)
    ∷ (0x1ABB1D, 704)
    ∷ (0x1ABC0B, 704)
    ∷ (0x1ABCFB, 704)
    ∷ (0x1ABE05, 704)
    ∷ (0x1ABEFD, 704)
    ∷ (0x1AC0F5, 704)
    ∷ (0x1AC1E9, 704)
    ∷ (0x1AC2DD, 704)
    ∷ (0x1AC3CF, 704)
    ∷ (0x1AC4BC, 704)
    ∷ (0x1AC5A6, 704)
    ∷ (0x1AC86D, 3986)
    ∷ (0x1ACCD0, 4132)
    ∷ (0x1ACCD1, 6144)
    ∷ (0x1AD536, 1088)
    ∷ (0x1AD6C9, 128)
    ∷ (0x1B0000, 32)
    ∷ (0x1B0015, 3552)
    ∷ (0x1B0748, 1568)
    ∷ (0x1B0ACD, 1664)
    ∷ (0x1B0DC3, 2944)
    ∷ (0x1B13FB, 736)
    ∷ (0x1B159D, 13056)
    ∷ (0x1B1E34, 400)
    ∷ (0x1B1EFA, 6848)
    ∷ (0x1B2E58, 2944)
    ∷ (0x1B3570, 2176)
    ∷ (0x1B3A66, 8992)
    ∷ (0x1B4EED, 3040)
    ∷ (0x1B5622, 4224)
    ∷ (0x1B5F70, 3392)
    ∷ (0x1B678B, 3168)
    ∷ (0x1B6EB8, 2592)
    ∷ (0x1B74E7, 2976)
    ∷ (0x1B7C7F, 2656)
    ∷ (0x1B82AF, 3584)
    ∷ (0x1B8B4D, 6752)
    ∷ (0x1B9BBC, 3424)
    ∷ (0x1BA41A, 1664)
    ∷ (0x1BA810, 1824)
    ∷ (0x1BAC08, 1312)
    ∷ (0x1BAEF9, 2720)
    ∷ (0x1BB457, 2048)
    ∷ (0x1BB735, 832)
    ∷ (0x1BB7BA, 832)
    ∷ (0x1BB87B, 832)
    ∷ (0x1BB8BC, 832)
    ∷ (0x1BB960, 832)
    ∷ (0x1BB9E5, 832)
    ∷ (0x1BBA2A, 440)
    ∷ (0x1BBAB0, 832)
    ∷ (0x1BBAF8, 832)
    ∷ (0x1BBB3A, 832)
    ∷ (0x1BBBE4, 832)
    ∷ (0x1BBD3C, 832)
    ∷ (0x1BBDBE, 832)
    ∷ (0x1BBE70, 832)
    ∷ (0x1BBF62, 832)
    ∷ (0x1BBFBC, 832)
    ∷ (0x1BC040, 832)
    ∷ (0x1BC122, 832)
    ∷ (0x1BC185, 832)
    ∷ (0x1BC25F, 832)
    ∷ (0x1BC347, 832)
    ∷ (0x1BC3F0, 832)
    ∷ (0x1BC45C, 832)
    ∷ (0x1BC4BD, 832)
    ∷ (0x1BC54F, 832)
    ∷ (0x1BC5CD, 560)
    ∷ (0x1BC5FD, 2)
    ∷ (0x1BC600, 4096)
    ∷ (0x1BCCCE, 4096)
    ∷ []
