-- ===== src/Streams/Jp/Part15.antt =====
-- jpstreams.py, lines 2155 to 2294: sources and lengths.
use street_fighter_alpha_2_n.Base.{ℕ, List, [], ◌∷◌}

unfoldable pub jp_streams_15 : List (ℕ × ℕ)
jp_streams_15 =
    (0x31129F, 1248)
    ∷ (0x31154E, 1792)
    ∷ (0x3118C0, 704)
    ∷ (0x3119C3, 640)
    ∷ (0x311AA2, 640)
    ∷ (0x311BC2, 640)
    ∷ (0x311CBB, 768)
    ∷ (0x311E35, 1152)
    ∷ (0x312100, 1152)
    ∷ (0x3123D0, 1024)
    ∷ (0x312618, 992)
    ∷ (0x312853, 992)
    ∷ (0x312A8F, 1184)
    ∷ (0x312D18, 1152)
    ∷ (0x312FBC, 960)
    ∷ (0x3131F4, 1120)
    ∷ (0x313495, 1056)
    ∷ (0x3136FD, 960)
    ∷ (0x31393A, 1152)
    ∷ (0x313BE3, 1472)
    ∷ (0x313F25, 1280)
    ∷ (0x3141E1, 1248)
    ∷ (0x3144C0, 1120)
    ∷ (0x314707, 960)
    ∷ (0x31494B, 1408)
    ∷ (0x314C61, 1376)
    ∷ (0x314F8C, 1184)
    ∷ (0x31522A, 1248)
    ∷ (0x3154E8, 1280)
    ∷ (0x31578E, 1440)
    ∷ (0x315AC0, 1184)
    ∷ (0x315D8E, 1056)
    ∷ (0x316014, 1216)
    ∷ (0x31630C, 1248)
    ∷ (0x3165F5, 1184)
    ∷ (0x31688C, 832)
    ∷ (0x316A77, 1280)
    ∷ (0x316D93, 1344)
    ∷ (0x3170C7, 1280)
    ∷ (0x3173D3, 1280)
    ∷ (0x3176DE, 1120)
    ∷ (0x317985, 1824)
    ∷ (0x317DC4, 2048)
    ∷ (0x318244, 1248)
    ∷ (0x318511, 1664)
    ∷ (0x31883B, 992)
    ∷ (0x318AB9, 1120)
    ∷ (0x318D49, 832)
    ∷ (0x318F31, 1088)
    ∷ (0x31918B, 960)
    ∷ (0x3193A0, 1056)
    ∷ (0x319611, 1248)
    ∷ (0x3198EA, 1600)
    ∷ (0x319C2F, 832)
    ∷ (0x319E19, 1600)
    ∷ (0x31A125, 960)
    ∷ (0x31A38A, 1184)
    ∷ (0x31A661, 1056)
    ∷ (0x31A8DC, 1216)
    ∷ (0x31AB8B, 1600)
    ∷ (0x31AEA0, 1088)
    ∷ (0x31B106, 1344)
    ∷ (0x31B3F3, 1120)
    ∷ (0x31B673, 1248)
    ∷ (0x31B91F, 1152)
    ∷ (0x31BBB1, 1312)
    ∷ (0x31BEA1, 1600)
    ∷ (0x31C1B7, 1120)
    ∷ (0x31C49C, 1984)
    ∷ (0x31C835, 768)
    ∷ (0x31C994, 768)
    ∷ (0x31CB45, 704)
    ∷ (0x31CC90, 1728)
    ∷ (0x31CFBC, 768)
    ∷ (0x31D15F, 1120)
    ∷ (0x31D3D9, 1280)
    ∷ (0x31D6BB, 1024)
    ∷ (0x31D905, 1024)
    ∷ (0x31DB12, 1600)
    ∷ (0x31DE4F, 1280)
    ∷ (0x31E147, 1312)
    ∷ (0x31E41E, 1248)
    ∷ (0x31E6B4, 1312)
    ∷ (0x31E967, 1600)
    ∷ (0x31EC4B, 1280)
    ∷ (0x31EEF4, 1152)
    ∷ (0x31F13E, 1120)
    ∷ (0x31F3C0, 1600)
    ∷ (0x31F6CB, 1216)
    ∷ (0x31F944, 1792)
    ∷ (0x31FDA1, 1088)
    ∷ (0x320000, 1152)
    ∷ (0x320283, 1600)
    ∷ (0x32058F, 1152)
    ∷ (0x32080D, 1216)
    ∷ (0x320A8E, 1056)
    ∷ (0x320D0E, 1280)
    ∷ (0x320FBB, 768)
    ∷ (0x321188, 1184)
    ∷ (0x32144D, 1376)
    ∷ (0x321735, 1504)
    ∷ (0x321A28, 1184)
    ∷ (0x321CDB, 1376)
    ∷ (0x321FAE, 1984)
    ∷ (0x322548, 2080)
    ∷ (0x322AF4, 1984)
    ∷ (0x323074, 1792)
    ∷ (0x323523, 2208)
    ∷ (0x323AC4, 2176)
    ∷ (0x32403B, 2176)
    ∷ (0x3245C6, 2304)
    ∷ (0x324B87, 2112)
    ∷ (0x3250C0, 2176)
    ∷ (0x325651, 2016)
    ∷ (0x325B7F, 1792)
    ∷ (0x325FA6, 1664)
    ∷ (0x326375, 1728)
    ∷ (0x326755, 2176)
    ∷ (0x326CB0, 992)
    ∷ (0x326F52, 896)
    ∷ (0x3271C7, 1920)
    ∷ (0x3276B5, 2912)
    ∷ (0x327D67, 640)
    ∷ (0x327EB7, 704)
    ∷ (0x327FBC, 704)
    ∷ (0x3280F6, 1952)
    ∷ (0x3285AF, 960)
    ∷ (0x328768, 640)
    ∷ (0x3288BD, 416)
    ∷ (0x328997, 2912)
    ∷ (0x32908E, 1664)
    ∷ (0x3294CB, 1728)
    ∷ (0x32991B, 1728)
    ∷ (0x329D18, 2208)
    ∷ (0x32A2E0, 2624)
    ∷ (0x32A93D, 2048)
    ∷ (0x32AEAB, 2272)
    ∷ (0x32B47B, 1984)
    ∷ (0x32B996, 1216)
    ∷ []
