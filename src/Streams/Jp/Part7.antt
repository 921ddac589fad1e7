-- ===== src/Streams/Jp/Part7.antt =====
-- jpstreams.py, lines 1035 to 1174: sources and lengths.
use street_fighter_alpha_2_n.Base.{ℕ, List, [], ◌∷◌}

unfoldable pub jp_streams_7 : List (ℕ × ℕ)
jp_streams_7 =
    (0x23ABAB, 1792)
    ∷ (0x23AFDF, 896)
    ∷ (0x23B1EB, 1664)
    ∷ (0x23B5E5, 1824)
    ∷ (0x23BA43, 1824)
    ∷ (0x23BEA7, 1792)
    ∷ (0x23C2EA, 1856)
    ∷ (0x23C713, 1728)
    ∷ (0x23CAFE, 1600)
    ∷ (0x23CE4C, 2016)
    ∷ (0x23D318, 1600)
    ∷ (0x23D6DE, 1664)
    ∷ (0x23DABF, 1216)
    ∷ (0x23DDB2, 1216)
    ∷ (0x23E06F, 1760)
    ∷ (0x23E470, 1760)
    ∷ (0x23E85E, 1920)
    ∷ (0x23ED1A, 1792)
    ∷ (0x23F177, 1824)
    ∷ (0x23F5E1, 1600)
    ∷ (0x23F93B, 1024)
    ∷ (0x23FBDE, 376)
    ∷ (0x23FD32, 992)
    ∷ (0x240000, 1344)
    ∷ (0x240367, 640)
    ∷ (0x240483, 1408)
    ∷ (0x2407D2, 1280)
    ∷ (0x240B01, 1312)
    ∷ (0x240E15, 1184)
    ∷ (0x2410FC, 1504)
    ∷ (0x24147D, 1760)
    ∷ (0x24187C, 1280)
    ∷ (0x241BC3, 1600)
    ∷ (0x241F62, 1792)
    ∷ (0x24231B, 1280)
    ∷ (0x2425EC, 1600)
    ∷ (0x2429E7, 1440)
    ∷ (0x242D6F, 1664)
    ∷ (0x243133, 1664)
    ∷ (0x2434FC, 1696)
    ∷ (0x2438E2, 1888)
    ∷ (0x243D75, 1952)
    ∷ (0x244240, 1664)
    ∷ (0x244652, 1888)
    ∷ (0x244A6C, 832)
    ∷ (0x244C0D, 1760)
    ∷ (0x2450A8, 1600)
    ∷ (0x245436, 1920)
    ∷ (0x24582D, 1664)
    ∷ (0x245B62, 1664)
    ∷ (0x245F3E, 1408)
    ∷ (0x24625B, 1792)
    ∷ (0x24665A, 1696)
    ∷ (0x246A2C, 1344)
    ∷ (0x246D94, 1984)
    ∷ (0x24728B, 1728)
    ∷ (0x24766C, 1280)
    ∷ (0x24796F, 1600)
    ∷ (0x247C79, 1600)
    ∷ (0x247F94, 1216)
    ∷ (0x248283, 1920)
    ∷ (0x2486F1, 1952)
    ∷ (0x248B67, 1856)
    ∷ (0x248F9E, 1952)
    ∷ (0x249420, 1088)
    ∷ (0x2496B0, 1056)
    ∷ (0x249945, 832)
    ∷ (0x249B3A, 960)
    ∷ (0x249DA2, 1184)
    ∷ (0x24A06F, 832)
    ∷ (0x24A278, 1216)
    ∷ (0x24A52E, 832)
    ∷ (0x24A6D0, 768)
    ∷ (0x24A82C, 2048)
    ∷ (0x24ACF3, 1792)
    ∷ (0x24B08B, 704)
    ∷ (0x24B1AD, 640)
    ∷ (0x24B2C8, 1248)
    ∷ (0x24B5BE, 2048)
    ∷ (0x24BA4E, 1184)
    ∷ (0x24BD06, 1280)
    ∷ (0x24C013, 2048)
    ∷ (0x24C4A0, 1728)
    ∷ (0x24C7E2, 1600)
    ∷ (0x24CAEF, 1024)
    ∷ (0x24CCEE, 238)
    ∷ (0x24CDDA, 1280)
    ∷ (0x24D086, 1248)
    ∷ (0x24D36C, 1152)
    ∷ (0x24D63A, 832)
    ∷ (0x24D829, 1152)
    ∷ (0x24DAD0, 896)
    ∷ (0x24DD12, 960)
    ∷ (0x24DF7B, 832)
    ∷ (0x24E158, 704)
    ∷ (0x24E319, 1152)
    ∷ (0x24E5DA, 1248)
    ∷ (0x24E8C7, 864)
    ∷ (0x24EAE5, 1024)
    ∷ (0x24ED29, 1600)
    ∷ (0x24F076, 1664)
    ∷ (0x24F3CD, 1312)
    ∷ (0x24F694, 1344)
    ∷ (0x24F966, 1600)
    ∷ (0x24FCBB, 1280)
    ∷ (0x250000, 1216)
    ∷ (0x2502B6, 1120)
    ∷ (0x250540, 1664)
    ∷ (0x25084A, 1600)
    ∷ (0x250B5A, 1120)
    ∷ (0x250DD6, 928)
    ∷ (0x250FD4, 1920)
    ∷ (0x251455, 1088)
    ∷ (0x2516F4, 1120)
    ∷ (0x2519CC, 1216)
    ∷ (0x251CD2, 1280)
    ∷ (0x251FF0, 928)
    ∷ (0x252258, 1024)
    ∷ (0x2524FC, 832)
    ∷ (0x252709, 1120)
    ∷ (0x25299C, 896)
    ∷ (0x252BC6, 1024)
    ∷ (0x252E48, 1184)
    ∷ (0x25310E, 1600)
    ∷ (0x25345A, 768)
    ∷ (0x253639, 1280)
    ∷ (0x253934, 896)
    ∷ (0x253B60, 1248)
    ∷ (0x253E59, 1120)
    ∷ (0x2540D2, 1152)
    ∷ (0x25435D, 1280)
    ∷ (0x25465E, 1056)
    ∷ (0x254904, 1280)
    ∷ (0x254C14, 1152)
    ∷ (0x254ED8, 1248)
    ∷ (0x2551C6, 1120)
    ∷ (0x255477, 1248)
    ∷ (0x25578D, 1664)
    ∷ []
