-- ===== src/Streams/Requests/Part5.antt =====
-- requests_jp.py, lines 730 to 869: sources and lengths.
use street_fighter_alpha_2_n.Base.{ℕ, List, [], ◌∷◌}

unfoldable pub jp_requests_5 : List (ℕ × ℕ)
jp_requests_5 =
    (0x2450A8, 1600)
    ∷ (0x245436, 1920)
    ∷ (0x24582D, 1664)
    ∷ (0x245B62, 1664)
    ∷ (0x245F3E, 1408)
    ∷ (0x24625B, 1792)
    ∷ (0x24665A, 1696)
    ∷ (0x246A2C, 1344)
    ∷ (0x246D94, 1984)
    ∷ (0x24728B, 1728)
    ∷ (0x24766C, 1280)
    ∷ (0x24796F, 1600)
    ∷ (0x247C79, 1600)
    ∷ (0x247F94, 1216)
    ∷ (0x248283, 1920)
    ∷ (0x2486F1, 1952)
    ∷ (0x248B67, 1856)
    ∷ (0x248F9E, 1952)
    ∷ (0x249420, 1088)
    ∷ (0x2496B0, 1056)
    ∷ (0x249B3A, 960)
    ∷ (0x249DA2, 1184)
    ∷ (0x24A06F, 832)
    ∷ (0x24A278, 1216)
    ∷ (0x24A52E, 832)
    ∷ (0x24A6D0, 768)
    ∷ (0x24B2C8, 1248)
    ∷ (0x24B5BE, 2048)
    ∷ (0x24BA4E, 1184)
    ∷ (0x24BD06, 1280)
    ∷ (0x24C013, 2048)
    ∷ (0x24C4A0, 1728)
    ∷ (0x24C7E2, 1600)
    ∷ (0x24CDDA, 1280)
    ∷ (0x24D086, 1248)
    ∷ (0x24D36C, 1152)
    ∷ (0x24DAD0, 896)
    ∷ (0x24DD12, 960)
    ∷ (0x24E319, 1152)
    ∷ (0x24E5DA, 1248)
    ∷ (0x24E8C7, 864)
    ∷ (0x24EAE5, 1024)
    ∷ (0x24ED29, 1600)
    ∷ (0x24F076, 1664)
    ∷ (0x24F3CD, 1312)
    ∷ (0x24F694, 1344)
    ∷ (0x24F966, 1600)
    ∷ (0x24FCBB, 1280)
    ∷ (0x250000, 1216)
    ∷ (0x2502B6, 1120)
    ∷ (0x250540, 1664)
    ∷ (0x25084A, 1600)
    ∷ (0x250B5A, 1120)
    ∷ (0x250DD6, 928)
    ∷ (0x250FD4, 1920)
    ∷ (0x251455, 1088)
    ∷ (0x2516F4, 1120)
    ∷ (0x2519CC, 1216)
    ∷ (0x251CD2, 1280)
    ∷ (0x251FF0, 928)
    ∷ (0x252258, 1024)
    ∷ (0x2524FC, 832)
    ∷ (0x252709, 1120)
    ∷ (0x25299C, 896)
    ∷ (0x252BC6, 1024)
    ∷ (0x252E48, 1184)
    ∷ (0x25310E, 1600)
    ∷ (0x25465E, 1056)
    ∷ (0x254904, 1280)
    ∷ (0x254C14, 1152)
    ∷ (0x254ED8, 1248)
    ∷ (0x2551C6, 1120)
    ∷ (0x255DBB, 1664)
    ∷ (0x25614B, 640)
    ∷ (0x256268, 768)
    ∷ (0x2563DF, 704)
    ∷ (0x25650B, 1664)
    ∷ (0x25683E, 768)
    ∷ (0x2569C3, 992)
    ∷ (0x256C1E, 1184)
    ∷ (0x256EDE, 992)
    ∷ (0x25711C, 960)
    ∷ (0x257345, 1312)
    ∷ (0x257625, 1344)
    ∷ (0x257931, 1248)
    ∷ (0x257C21, 1184)
    ∷ (0x257ECD, 1248)
    ∷ (0x2581AE, 1664)
    ∷ (0x2584DA, 1248)
    ∷ (0x2587B9, 1056)
    ∷ (0x258A15, 1184)
    ∷ (0x258CCC, 1600)
    ∷ (0x258FE1, 1248)
    ∷ (0x25929C, 1152)
    ∷ (0x25952E, 1376)
    ∷ (0x259DAC, 1120)
    ∷ (0x25A51B, 1248)
    ∷ (0x25A7DF, 1120)
    ∷ (0x25AA8D, 1344)
    ∷ (0x25AD74, 1664)
    ∷ (0x25B0BE, 1248)
    ∷ (0x25B6CB, 1984)
    ∷ (0x25BB54, 1600)
    ∷ (0x25BF64, 1664)
    ∷ (0x25C372, 1728)
    ∷ (0x25C7AC, 2048)
    ∷ (0x25CD21, 2048)
    ∷ (0x25D1C6, 1024)
    ∷ (0x25D41F, 1856)
    ∷ (0x25D8A6, 864)
    ∷ (0x25DAC2, 1664)
    ∷ (0x25DEF2, 1952)
    ∷ (0x25E2D3, 1312)
    ∷ (0x25E656, 1856)
    ∷ (0x25EAE3, 2048)
    ∷ (0x25F04D, 1312)
    ∷ (0x25F3D5, 1664)
    ∷ (0x25FAE4, 1952)
    ∷ (0x2604CB, 1312)
    ∷ (0x260811, 960)
    ∷ (0x261558, 1600)
    ∷ (0x261C68, 1728)
    ∷ (0x262044, 1792)
    ∷ (0x2624B5, 768)
    ∷ (0x26268D, 1824)
    ∷ (0x262B02, 1664)
    ∷ (0x262EE2, 1216)
    ∷ (0x263257, 1664)
    ∷ (0x263664, 1248)
    ∷ (0x2639B1, 1312)
    ∷ (0x263D19, 1216)
    ∷ (0x264053, 1728)
    ∷ (0x264488, 1728)
    ∷ (0x264872, 1728)
    ∷ (0x264CA8, 1728)
    ∷ (0x2650F6, 1312)
    ∷ (0x265456, 1312)
    ∷ (0x26577B, 1184)
    ∷ (0x265A71, 1600)
    ∷ (0x265E37, 1600)
    ∷ []
