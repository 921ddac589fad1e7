-- ===== src/Streams/Tagged/Part17.antt =====
-- usastreams.py, lines 2404 to 2543: sources and lengths.
use street_fighter_alpha_2_n.Base.{ℕ, List, [], ◌∷◌}

unfoldable pub tagged_17 : List (ℕ × ℕ)
tagged_17 =
    (0x359BD3, 2944)
    ∷ (0x35A239, 1024)
    ∷ (0x35A397, 1024)
    ∷ (0x35A568, 1024)
    ∷ (0x35A657, 1024)
    ∷ (0x35A881, 2048)
    ∷ (0x35AD18, 2560)
    ∷ (0x35B1FA, 1024)
    ∷ (0x35B3B9, 1344)
    ∷ (0x35B6AA, 2048)
    ∷ (0x35BB35, 2048)
    ∷ (0x35BEE8, 2880)
    ∷ (0x35C50D, 2304)
    ∷ (0x35C9C2, 1024)
    ∷ (0x35CB85, 3008)
    ∷ (0x35D1DB, 2112)
    ∷ (0x35D665, 2112)
    ∷ (0x35DB2F, 3008)
    ∷ (0x35E1E9, 2944)
    ∷ (0x35E816, 1280)
    ∷ (0x35EAFB, 1600)
    ∷ (0x35EE11, 1024)
    ∷ (0x35F01E, 1024)
    ∷ (0x35F217, 2560)
    ∷ (0x35F7B1, 2624)
    ∷ (0x35FD19, 1280)
    ∷ (0x360000, 2432)
    ∷ (0x36053A, 1728)
    ∷ (0x3608C2, 1024)
    ∷ (0x360AB5, 2624)
    ∷ (0x36108B, 1920)
    ∷ (0x361480, 2048)
    ∷ (0x361789, 2048)
    ∷ (0x361BFE, 1152)
    ∷ (0x361E92, 1216)
    ∷ (0x362177, 1344)
    ∷ (0x3624BC, 1984)
    ∷ (0x362950, 2560)
    ∷ (0x362EB8, 1280)
    ∷ (0x363162, 1600)
    ∷ (0x363442, 2496)
    ∷ (0x3639AF, 2048)
    ∷ (0x363E0B, 2880)
    ∷ (0x3643FD, 2752)
    ∷ (0x364A00, 1024)
    ∷ (0x364BC5, 1536)
    ∷ (0x364EE2, 2688)
    ∷ (0x365518, 2368)
    ∷ (0x365A9D, 2560)
    ∷ (0x36601C, 2048)
    ∷ (0x36649C, 2432)
    ∷ (0x3669BE, 2688)
    ∷ (0x366F9E, 2368)
    ∷ (0x367481, 2304)
    ∷ (0x36793F, 2432)
    ∷ (0x367E34, 1024)
    ∷ (0x368085, 1216)
    ∷ (0x36830B, 1024)
    ∷ (0x368546, 1344)
    ∷ (0x368825, 1536)
    ∷ (0x368AD6, 2048)
    ∷ (0x368FF6, 2048)
    ∷ (0x369530, 2112)
    ∷ (0x369A64, 2112)
    ∷ (0x369F9D, 1920)
    ∷ (0x36A3FE, 2048)
    ∷ (0x36A899, 1984)
    ∷ (0x36ACEF, 1792)
    ∷ (0x36B0C7, 1920)
    ∷ (0x36B514, 1856)
    ∷ (0x36B903, 1984)
    ∷ (0x36BD66, 1984)
    ∷ (0x36C1C0, 2304)
    ∷ (0x36C6DE, 2048)
    ∷ (0x36CBAD, 1856)
    ∷ (0x36CFCF, 1024)
    ∷ (0x36D241, 1664)
    ∷ (0x36D54A, 1024)
    ∷ (0x36D783, 1024)
    ∷ (0x36D9E3, 2944)
    ∷ (0x36E0A5, 832)
    ∷ (0x36E2A3, 2048)
    ∷ (0x36E5CF, 2048)
    ∷ (0x36EBBC, 1024)
    ∷ (0x36ED62, 1216)
    ∷ (0x36F087, 2048)
    ∷ (0x36F3B9, 832)
    ∷ (0x36F57C, 1024)
    ∷ (0x36F79E, 1920)
    ∷ (0x36FBAA, 1024)
    ∷ (0x36FDAB, 960)
    ∷ (0x370000, 2944)
    ∷ (0x370673, 1728)
    ∷ (0x370972, 1024)
    ∷ (0x370FA8, 1024)
    ∷ (0x3711D0, 1728)
    ∷ (0x371534, 1024)
    ∷ (0x37178F, 3072)
    ∷ (0x371D35, 1664)
    ∷ (0x372023, 2752)
    ∷ (0x37260C, 2112)
    ∷ (0x372B01, 1856)
    ∷ (0x372F44, 896)
    ∷ (0x37310C, 1728)
    ∷ (0x37343B, 1856)
    ∷ (0x373801, 1920)
    ∷ (0x373C31, 1856)
    ∷ (0x374012, 1920)
    ∷ (0x374465, 1344)
    ∷ (0x37479C, 1280)
    ∷ (0x374AEF, 1984)
    ∷ (0x374FC9, 1920)
    ∷ (0x375727, 1664)
    ∷ (0x375A35, 1920)
    ∷ (0x375EF2, 1024)
    ∷ (0x37611A, 1664)
    ∷ (0x3763E7, 1536)
    ∷ (0x37667D, 1664)
    ∷ (0x376969, 1728)
    ∷ (0x376CE6, 1024)
    ∷ (0x376EDC, 960)
    ∷ (0x377196, 1536)
    ∷ (0x377428, 1024)
    ∷ (0x37761A, 1536)
    ∷ (0x377934, 2176)
    ∷ (0x377EB2, 2944)
    ∷ (0x378531, 2048)
    ∷ (0x3789CD, 2816)
    ∷ (0x378F82, 2048)
    ∷ (0x37946B, 2048)
    ∷ (0x379918, 1088)
    ∷ (0x379B25, 1088)
    ∷ (0x379D31, 1920)
    ∷ (0x37A16C, 2240)
    ∷ (0x37A6A0, 2048)
    ∷ (0x37AB4C, 1024)
    ∷ (0x37AD96, 1856)
    ∷ (0x37B21A, 1984)
    ∷ []
