-- ===== src/Streams/Tagged/Part18.antt =====
-- usastreams.py, lines 2544 to 2683: sources and lengths.
use street_fighter_alpha_2_n.Base.{ℕ, List, [], ◌∷◌}

unfoldable pub tagged_18 : List (ℕ × ℕ)
tagged_18 =
    (0x37B72D, 2176)
    ∷ (0x37BC5E, 1792)
    ∷ (0x37BFFF, 1920)
    ∷ (0x37C403, 1856)
    ∷ (0x37C7AB, 1984)
    ∷ (0x37CC50, 2240)
    ∷ (0x37D16D, 1024)
    ∷ (0x37D361, 1536)
    ∷ (0x37D5F5, 1088)
    ∷ (0x37D85D, 1856)
    ∷ (0x37DBFB, 2112)
    ∷ (0x37E0D2, 1984)
    ∷ (0x37E51C, 1920)
    ∷ (0x37E901, 2240)
    ∷ (0x37EE4B, 2176)
    ∷ (0x37F343, 2816)
    ∷ (0x37F974, 768)
    ∷ (0x37FB3B, 1920)
    ∷ (0x380000, 2048)
    ∷ (0x3804B3, 1536)
    ∷ (0x380785, 2176)
    ∷ (0x380C95, 2624)
    ∷ (0x381233, 1920)
    ∷ (0x38168F, 1152)
    ∷ (0x381973, 1344)
    ∷ (0x381D2B, 1408)
    ∷ (0x382099, 1408)
    ∷ (0x3823F9, 1920)
    ∷ (0x3828C5, 1920)
    ∷ (0x382D6F, 2048)
    ∷ (0x383186, 1024)
    ∷ (0x3833C5, 2048)
    ∷ (0x38374D, 1536)
    ∷ (0x3839D0, 1472)
    ∷ (0x383D0D, 2048)
    ∷ (0x384232, 1024)
    ∷ (0x3844AD, 1984)
    ∷ (0x38495E, 1024)
    ∷ (0x384B53, 2304)
    ∷ (0x38509D, 1024)
    ∷ (0x3852C1, 2240)
    ∷ (0x385799, 2112)
    ∷ (0x385C5A, 1984)
    ∷ (0x3860FA, 1728)
    ∷ (0x386438, 1728)
    ∷ (0x386763, 1728)
    ∷ (0x386A86, 1728)
    ∷ (0x386DB3, 1216)
    ∷ (0x38706C, 1024)
    ∷ (0x3871E9, 1152)
    ∷ (0x387422, 1024)
    ∷ (0x38763F, 960)
    ∷ (0x387826, 1024)
    ∷ (0x387A23, 960)
    ∷ (0x387BFA, 1024)
    ∷ (0x387E24, 1024)
    ∷ (0x38801C, 1024)
    ∷ (0x388175, 896)
    ∷ (0x3882E7, 1088)
    ∷ (0x388577, 1024)
    ∷ (0x388754, 1152)
    ∷ (0x388973, 1024)
    ∷ (0x388A52, 1024)
    ∷ (0x388C2E, 896)
    ∷ (0x388DCA, 896)
    ∷ (0x388FA8, 1024)
    ∷ (0x38915D, 832)
    ∷ (0x3892D8, 832)
    ∷ (0x389456, 832)
    ∷ (0x3895D8, 1024)
    ∷ (0x3896EC, 2048)
    ∷ (0x389856, 960)
    ∷ (0x389A6A, 896)
    ∷ (0x389C10, 1792)
    ∷ (0x389F66, 1728)
    ∷ (0x38A250, 1024)
    ∷ (0x38A3B0, 1792)
    ∷ (0x38A6DA, 1088)
    ∷ (0x38A8FF, 1728)
    ∷ (0x38AC61, 1728)
    ∷ (0x38AF8B, 1728)
    ∷ (0x38B282, 896)
    ∷ (0x38B416, 960)
    ∷ (0x38B602, 896)
    ∷ (0x38B7D3, 1216)
    ∷ (0x38BA79, 1088)
    ∷ (0x38BCF6, 1792)
    ∷ (0x38C052, 1856)
    ∷ (0x38C3CA, 1792)
    ∷ (0x38C70F, 1920)
    ∷ (0x38CAA9, 1856)
    ∷ (0x38CDFA, 1856)
    ∷ (0x38D149, 1792)
    ∷ (0x38D482, 1984)
    ∷ (0x38D837, 2048)
    ∷ (0x38DC32, 1792)
    ∷ (0x38DF86, 1024)
    ∷ (0x38E0BF, 1856)
    ∷ (0x38E3F9, 1280)
    ∷ (0x38E619, 1664)
    ∷ (0x38E8C1, 1792)
    ∷ (0x38EC1F, 1856)
    ∷ (0x38EFA6, 1024)
    ∷ (0x38F0EF, 832)
    ∷ (0x38F28E, 896)
    ∷ (0x38F45E, 1344)
    ∷ (0x38F73F, 1792)
    ∷ (0x38FD1B, 1280)
    ∷ (0x390000, 2048)
    ∷ (0x3903F3, 1792)
    ∷ (0x3906E8, 1600)
    ∷ (0x3909FA, 1664)
    ∷ (0x390D0B, 1856)
    ∷ (0x3910BF, 1024)
    ∷ (0x39126C, 1280)
    ∷ (0x391569, 896)
    ∷ (0x3916F8, 1792)
    ∷ (0x391A31, 1536)
    ∷ (0x391C5A, 1344)
    ∷ (0x391F2A, 768)
    ∷ (0x392054, 1984)
    ∷ (0x392425, 1920)
    ∷ (0x3927AB, 1984)
    ∷ (0x392B81, 1856)
    ∷ (0x392EB4, 1024)
    ∷ (0x39301E, 1792)
    ∷ (0x393336, 896)
    ∷ (0x393530, 1664)
    ∷ (0x39383D, 1984)
    ∷ (0x393C68, 1728)
    ∷ (0x393F5C, 1728)
    ∷ (0x394286, 1856)
    ∷ (0x3945BC, 1280)
    ∷ (0x3948B9, 2048)
    ∷ (0x394C25, 896)
    ∷ (0x394DD2, 2048)
    ∷ (0x3950D2, 832)
    ∷ (0x395228, 832)
    ∷ []
