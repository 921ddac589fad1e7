-- ===== src/Streams/Requests/Part10.antt =====
-- requests_jp.py, lines 1430 to 1569: sources and lengths.
use street_fighter_alpha_2_n.Base.{ℕ, List, [], ◌∷◌}

unfoldable pub jp_requests_10 : List (ℕ × ℕ)
jp_requests_10 =
    (0x332758, 2432)
    ∷ (0x332CEC, 2272)
    ∷ (0x3332E4, 1024)
    ∷ (0x333DB6, 768)
    ∷ (0x3348DD, 1728)
    ∷ (0x334D38, 2496)
    ∷ (0x335DAF, 1792)
    ∷ (0x336219, 2144)
    ∷ (0x3371C9, 2176)
    ∷ (0x3376AE, 2272)
    ∷ (0x337C08, 1792)
    ∷ (0x338A38, 1952)
    ∷ (0x338F2C, 2496)
    ∷ (0x33953D, 2176)
    ∷ (0x339A44, 2080)
    ∷ (0x339FC9, 2624)
    ∷ (0x33A5CA, 2368)
    ∷ (0x33ABBD, 2624)
    ∷ (0x33B1F6, 2624)
    ∷ (0x33BC91, 2272)
    ∷ (0x33C1D2, 2368)
    ∷ (0x33C711, 2624)
    ∷ (0x33CCB6, 1600)
    ∷ (0x33CFF2, 2208)
    ∷ (0x33D509, 2080)
    ∷ (0x33DA49, 2112)
    ∷ (0x33EFBB, 2912)
    ∷ (0x33F6AE, 1664)
    ∷ (0x33F9BD, 1248)
    ∷ (0x340000, 2272)
    ∷ (0x34054C, 2144)
    ∷ (0x340A24, 1984)
    ∷ (0x340E8F, 1312)
    ∷ (0x34115E, 2368)
    ∷ (0x3416FB, 2368)
    ∷ (0x343126, 2624)
    ∷ (0x343756, 2624)
    ∷ (0x343D5A, 2464)
    ∷ (0x34430E, 2880)
    ∷ (0x34496F, 2688)
    ∷ (0x344F3D, 2624)
    ∷ (0x3459C2, 1024)
    ∷ (0x3460B6, 1216)
    ∷ (0x34631B, 1280)
    ∷ (0x346595, 1280)
    ∷ (0x346806, 1856)
    ∷ (0x346B50, 1728)
    ∷ (0x346DF4, 1152)
    ∷ (0x3499F4, 1024)
    ∷ (0x34C9D1, 1856)
    ∷ (0x35188F, 2048)
    ∷ (0x354951, 2048)
    ∷ (0x354D79, 2048)
    ∷ (0x357489, 1536)
    ∷ (0x359417, 1600)
    ∷ (0x35978C, 1888)
    ∷ (0x35A657, 1024)
    ∷ (0x368AD6, 2048)
    ∷ (0x368FF6, 2048)
    ∷ (0x369530, 2112)
    ∷ (0x369A64, 2112)
    ∷ (0x369F9D, 1920)
    ∷ (0x36A3FE, 2048)
    ∷ (0x36A899, 1984)
    ∷ (0x36ACEF, 1792)
    ∷ (0x36B0C7, 1920)
    ∷ (0x36BD66, 1984)
    ∷ (0x36C1C0, 2304)
    ∷ (0x36C6DE, 2048)
    ∷ (0x36CBAD, 1856)
    ∷ (0x36CFCF, 1024)
    ∷ (0x36D241, 1664)
    ∷ (0x36D783, 1024)
    ∷ (0x36E0A5, 832)
    ∷ (0x36E2A3, 2048)
    ∷ (0x36E5CF, 2048)
    ∷ (0x36EBBC, 1024)
    ∷ (0x36ED62, 1216)
    ∷ (0x36F087, 2048)
    ∷ (0x36F3B9, 832)
    ∷ (0x36F57C, 1024)
    ∷ (0x36F79E, 1920)
    ∷ (0x36FBAA, 1024)
    ∷ (0x36FDAB, 960)
    ∷ (0x370000, 2944)
    ∷ (0x370673, 1728)
    ∷ (0x370972, 1024)
    ∷ (0x370B7A, 1856)
    ∷ (0x370FA8, 1024)
    ∷ (0x3711D0, 1728)
    ∷ (0x371534, 1024)
    ∷ (0x37178F, 1024)
    ∷ (0x371D35, 1664)
    ∷ (0x372023, 2752)
    ∷ (0x37260C, 2112)
    ∷ (0x37310C, 1728)
    ∷ (0x37343B, 1856)
    ∷ (0x373801, 1920)
    ∷ (0x373C31, 1856)
    ∷ (0x374012, 1920)
    ∷ (0x375727, 1664)
    ∷ (0x375EF2, 1024)
    ∷ (0x37611A, 1664)
    ∷ (0x3763E7, 1536)
    ∷ (0x37667D, 1664)
    ∷ (0x376969, 1728)
    ∷ (0x376CE6, 1024)
    ∷ (0x376EDC, 960)
    ∷ (0x377196, 1536)
    ∷ (0x377428, 1024)
    ∷ (0x37761A, 1536)
    ∷ (0x377934, 2176)
    ∷ (0x378F82, 2048)
    ∷ (0x37946B, 2048)
    ∷ (0x379D31, 1920)
    ∷ (0x37A16C, 2240)
    ∷ (0x37A6A0, 2048)
    ∷ (0x37AB4C, 1024)
    ∷ (0x37AD96, 1856)
    ∷ (0x37B21A, 1984)
    ∷ (0x37B72D, 2176)
    ∷ (0x37BC5E, 1792)
    ∷ (0x37BFFF, 1920)
    ∷ (0x37C403, 1856)
    ∷ (0x37D85D, 1856)
    ∷ (0x37DBFB, 2112)
    ∷ (0x37E0D2, 1984)
    ∷ (0x37E51C, 1920)
    ∷ (0x37E901, 2240)
    ∷ (0x37EE4B, 2176)
    ∷ (0x37F343, 2816)
    ∷ (0x37F974, 768)
    ∷ (0x37FB3B, 1920)
    ∷ (0x380000, 2048)
    ∷ (0x381233, 1920)
    ∷ (0x38168F, 1152)
    ∷ (0x381973, 1344)
    ∷ (0x381D2B, 1408)
    ∷ (0x382099, 1408)
    ∷ (0x3823F9, 1920)
    ∷ []
