-- ===== src/Streams/Tagged/Part8.antt =====
-- usastreams.py, lines 1144 to 1283: sources and lengths.
use street_fighter_alpha_2_n.Base.{ℕ, List, [], ◌∷◌}

unfoldable pub tagged_8 : List (ℕ × ℕ)
tagged_8 =
    (0x257345, 1312)
    ∷ (0x257625, 1344)
    ∷ (0x257931, 1248)
    ∷ (0x257C21, 1184)
    ∷ (0x257ECD, 1248)
    ∷ (0x2581AE, 1664)
    ∷ (0x2584DA, 1248)
    ∷ (0x2587B9, 1056)
    ∷ (0x258A15, 1184)
    ∷ (0x258CCC, 1600)
    ∷ (0x258FE1, 1248)
    ∷ (0x25929C, 1152)
    ∷ (0x25952E, 1376)
    ∷ (0x259831, 1152)
    ∷ (0x259B01, 1152)
    ∷ (0x259DAC, 1120)
    ∷ (0x25A030, 1312)
    ∷ (0x25A31C, 832)
    ∷ (0x25A51B, 1248)
    ∷ (0x25A7DF, 1120)
    ∷ (0x25AA8D, 1344)
    ∷ (0x25AD74, 1664)
    ∷ (0x25B0BE, 1248)
    ∷ (0x25B3A6, 1312)
    ∷ (0x25B6CB, 1984)
    ∷ (0x25BB54, 1600)
    ∷ (0x25BF64, 1664)
    ∷ (0x25C372, 1728)
    ∷ (0x25C7AC, 2048)
    ∷ (0x25CD21, 2048)
    ∷ (0x25D1C6, 1024)
    ∷ (0x25D41F, 1856)
    ∷ (0x25D8A6, 864)
    ∷ (0x25DAC2, 1664)
    ∷ (0x25DEF2, 1952)
    ∷ (0x25E2D3, 1312)
    ∷ (0x25E656, 1856)
    ∷ (0x25EAE3, 2048)
    ∷ (0x25F04D, 1312)
    ∷ (0x25F3D5, 1664)
    ∷ (0x25FAE4, 1952)
    ∷ (0x260000, 1952)
    ∷ (0x2604CB, 1312)
    ∷ (0x260811, 960)
    ∷ (0x260A9B, 1888)
    ∷ (0x260F6B, 1856)
    ∷ (0x261355, 768)
    ∷ (0x261558, 1600)
    ∷ (0x261C68, 1728)
    ∷ (0x262044, 1792)
    ∷ (0x2624B5, 768)
    ∷ (0x26268D, 1824)
    ∷ (0x262B02, 1664)
    ∷ (0x262EE2, 1216)
    ∷ (0x263257, 1664)
    ∷ (0x263664, 1248)
    ∷ (0x2639B1, 1312)
    ∷ (0x263D19, 1216)
    ∷ (0x264053, 1728)
    ∷ (0x264488, 1728)
    ∷ (0x264872, 1728)
    ∷ (0x264CA8, 1728)
    ∷ (0x2650F6, 1312)
    ∷ (0x265456, 1312)
    ∷ (0x26577B, 1184)
    ∷ (0x265A71, 1600)
    ∷ (0x265E37, 1600)
    ∷ (0x2661EE, 1600)
    ∷ (0x2665F2, 1312)
    ∷ (0x26696C, 1664)
    ∷ (0x266D88, 1664)
    ∷ (0x26718D, 1696)
    ∷ (0x267607, 1216)
    ∷ (0x267964, 1600)
    ∷ (0x267D20, 1664)
    ∷ (0x2680E3, 1376)
    ∷ (0x2684AD, 1600)
    ∷ (0x2688E5, 1664)
    ∷ (0x268CEB, 1248)
    ∷ (0x269077, 1600)
    ∷ (0x269455, 1280)
    ∷ (0x2697FB, 1664)
    ∷ (0x269C4E, 1600)
    ∷ (0x269FDD, 1664)
    ∷ (0x26A3AD, 1600)
    ∷ (0x26A71D, 1600)
    ∷ (0x26AB02, 2048)
    ∷ (0x26B024, 1664)
    ∷ (0x26B3F7, 1248)
    ∷ (0x26B749, 1664)
    ∷ (0x26BB4D, 1312)
    ∷ (0x26BEC4, 1312)
    ∷ (0x26C230, 1600)
    ∷ (0x26C615, 1600)
    ∷ (0x26C97B, 1664)
    ∷ (0x26CD84, 1248)
    ∷ (0x26D0DA, 1600)
    ∷ (0x26D4B3, 1600)
    ∷ (0x26D877, 2016)
    ∷ (0x26DD4F, 1184)
    ∷ (0x26E044, 1984)
    ∷ (0x26E56E, 1728)
    ∷ (0x26E9C5, 1664)
    ∷ (0x26EDB1, 1344)
    ∷ (0x26F0EE, 1600)
    ∷ (0x26F472, 1664)
    ∷ (0x26F878, 1376)
    ∷ (0x26FBAF, 1728)
    ∷ (0x270000, 1536)
    ∷ (0x270383, 1664)
    ∷ (0x270769, 1536)
    ∷ (0x270B4B, 1920)
    ∷ (0x270F10, 1600)
    ∷ (0x2712D2, 1504)
    ∷ (0x2716B4, 1600)
    ∷ (0x271A8F, 1248)
    ∷ (0x271E1A, 1600)
    ∷ (0x2721AB, 1728)
    ∷ (0x2725A2, 704)
    ∷ (0x2726EC, 1408)
    ∷ (0x272A88, 1984)
    ∷ (0x272F9D, 2016)
    ∷ (0x2734BA, 864)
    ∷ (0x2736EB, 1088)
    ∷ (0x2739B8, 832)
    ∷ (0x273BD9, 1024)
    ∷ (0x273E81, 1344)
    ∷ (0x274189, 1536)
    ∷ (0x274500, 1600)
    ∷ (0x2748D1, 1728)
    ∷ (0x274CC1, 1792)
    ∷ (0x2750CD, 768)
    ∷ (0x2752AA, 768)
    ∷ (0x2754AA, 768)
    ∷ (0x2756AE, 832)
    ∷ (0x2758F3, 1728)
    ∷ (0x275CEB, 1792)
    ∷ (0x27613C, 1600)
    ∷ []
