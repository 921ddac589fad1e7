-- ===== src/Streams/Jp/Part18.antt =====
-- jpstreams.py, lines 2575 to 2714: sources and lengths.
use street_fighter_alpha_2_n.Base.{ℕ, List, [], ◌∷◌}

unfoldable pub jp_streams_18 : List (ℕ × ℕ)
jp_streams_18 =
    (0x37547E, 1728)
    ∷ (0x375727, 1664)
    ∷ (0x375A35, 1920)
    ∷ (0x375EF2, 1024)
    ∷ (0x37611A, 1664)
    ∷ (0x3763E7, 1536)
    ∷ (0x37667D, 1664)
    ∷ (0x376969, 1728)
    ∷ (0x376CE6, 1024)
    ∷ (0x376EDC, 960)
    ∷ (0x377196, 1536)
    ∷ (0x377428, 1024)
    ∷ (0x37761A, 1536)
    ∷ (0x377934, 2176)
    ∷ (0x377EB2, 2944)
    ∷ (0x378531, 2048)
    ∷ (0x3789CD, 2816)
    ∷ (0x378F82, 2048)
    ∷ (0x37946B, 2048)
    ∷ (0x379918, 1088)
    ∷ (0x379B25, 1088)
    ∷ (0x379D31, 1920)
    ∷ (0x37A16C, 2240)
    ∷ (0x37A6A0, 2048)
    ∷ (0x37AB4C, 1024)
    ∷ (0x37AD96, 1856)
    ∷ (0x37B21A, 1984)
    ∷ (0x37B72D, 2176)
    ∷ (0x37BC5E, 1792)
    ∷ (0x37BFFF, 1920)
    ∷ (0x37C403, 1856)
    ∷ (0x37C7AB, 1984)
    ∷ (0x37CC50, 2240)
    ∷ (0x37D16D, 1024)
    ∷ (0x37D361, 1536)
    ∷ (0x37D5F5, 1088)
    ∷ (0x37D85D, 1856)
    ∷ (0x37DBFB, 2112)
    ∷ (0x37E0D2, 1984)
    ∷ (0x37E51C, 1920)
    ∷ (0x37E901, 2240)
    ∷ (0x37EE4B, 2176)
    ∷ (0x37F343, 2816)
    ∷ (0x37F974, 768)
    ∷ (0x37FB3B, 1920)
    ∷ (0x380000, 2048)
    ∷ (0x3804B3, 1536)
    ∷ (0x380785, 2176)
    ∷ (0x380C95, 2624)
    ∷ (0x381233, 1920)
    ∷ (0x38168F, 1152)
    ∷ (0x381973, 1344)
    ∷ (0x381D2B, 1408)
    ∷ (0x382099, 1408)
    ∷ (0x3823F9, 1920)
    ∷ (0x3828C5, 1920)
    ∷ (0x382D6F, 2048)
    ∷ (0x383186, 1024)
    ∷ (0x3833C5, 2048)
    ∷ (0x38374D, 1536)
    ∷ (0x3839D0, 1472)
    ∷ (0x383D0D, 2048)
    ∷ (0x384232, 1024)
    ∷ (0x3844AD, 1984)
    ∷ (0x38495E, 1024)
    ∷ (0x384B53, 2304)
    ∷ (0x38509D, 1024)
    ∷ (0x3852C1, 2240)
    ∷ (0x385799, 2112)
    ∷ (0x385C5A, 1984)
    ∷ (0x3860FA, 1728)
    ∷ (0x386438, 1728)
    ∷ (0x386763, 1728)
    ∷ (0x386A86, 1728)
    ∷ (0x386DB3, 1216)
    ∷ (0x38706C, 1024)
    ∷ (0x3871E9, 1152)
    ∷ (0x387422, 1024)
    ∷ (0x38763F, 960)
    ∷ (0x387826, 1024)
    ∷ (0x387A23, 960)
    ∷ (0x387BFA, 1024)
    ∷ (0x387E24, 1024)
    ∷ (0x38801C, 1024)
    ∷ (0x388175, 896)
    ∷ (0x3882E7, 1088)
    ∷ (0x388577, 1024)
    ∷ (0x388754, 1152)
    ∷ (0x388973, 1024)
    ∷ (0x388A52, 1024)
    ∷ (0x388C2E, 896)
    ∷ (0x388DCA, 896)
    ∷ (0x388FA8, 1024)
    ∷ (0x38915D, 832)
    ∷ (0x3892D8, 832)
    ∷ (0x389456, 832)
    ∷ (0x3895D8, 1024)
    ∷ (0x3896EC, 2048)
    ∷ (0x389856, 960)
    ∷ (0x389A6A, 896)
    ∷ (0x389C10, 1792)
    ∷ (0x389F66, 1728)
    ∷ (0x38A250, 1024)
    ∷ (0x38A3B0, 1792)
    ∷ (0x38A6DA, 1088)
    ∷ (0x38A8FF, 1728)
    ∷ (0x38AC61, 1728)
    ∷ (0x38AF8B, 1728)
    ∷ (0x38B282, 896)
    ∷ (0x38B416, 960)
    ∷ (0x38B602, 896)
    ∷ (0x38B7D3, 1216)
    ∷ (0x38BA79, 1088)
    ∷ (0x38BCF6, 1792)
    ∷ (0x38C052, 1856)
    ∷ (0x38C3CA, 1792)
    ∷ (0x38C70F, 1920)
    ∷ (0x38CAA9, 1856)
    ∷ (0x38CDFA, 1856)
    ∷ (0x38D149, 1792)
    ∷ (0x38D482, 1984)
    ∷ (0x38D837, 2048)
    ∷ (0x38DC32, 1792)
    ∷ (0x38DF86, 1024)
    ∷ (0x38E0BF, 1856)
    ∷ (0x38E3F9, 1280)
    ∷ (0x38E619, 1664)
    ∷ (0x38E8C1, 1792)
    ∷ (0x38EC1F, 1856)
    ∷ (0x38EFA6, 1024)
    ∷ (0x38F0EF, 832)
    ∷ (0x38F28E, 896)
    ∷ (0x38F45E, 1344)
    ∷ (0x38F73F, 1792)
    ∷ (0x38FA69, 912)
    ∷ (0x38FD1B, 1280)
    ∷ (0x390000, 2048)
    ∷ (0x3903F3, 1792)
    ∷ []
