-- ===== src/Streams/Requests/Part4.antt =====
-- requests_jp.py, lines 590 to 729: sources and lengths.
use street_fighter_alpha_2_n.Base.{ℕ, List, [], ◌∷◌}

unfoldable pub jp_requests_4 : List (ℕ × ℕ)
jp_requests_4 =
    (0x227B09, 384)
    ∷ (0x227C29, 704)
    ∷ (0x227DF4, 640)
    ∷ (0x227F68, 704)
    ∷ (0x228139, 736)
    ∷ (0x228337, 736)
    ∷ (0x228528, 320)
    ∷ (0x2285F8, 544)
    ∷ (0x22873A, 384)
    ∷ (0x22884B, 640)
    ∷ (0x2289BC, 640)
    ∷ (0x228AB3, 352)
    ∷ (0x228BAA, 352)
    ∷ (0x228CB1, 576)
    ∷ (0x228E0A, 512)
    ∷ (0x229A40, 736)
    ∷ (0x229C3E, 896)
    ∷ (0x229E83, 800)
    ∷ (0x22A083, 864)
    ∷ (0x22A8A8, 320)
    ∷ (0x22A989, 352)
    ∷ (0x22AA81, 352)
    ∷ (0x22AB72, 320)
    ∷ (0x22AC4D, 640)
    ∷ (0x22AD95, 288)
    ∷ (0x22AE73, 320)
    ∷ (0x22AF4E, 384)
    ∷ (0x22B052, 640)
    ∷ (0x22B1E9, 352)
    ∷ (0x22B2EA, 1280)
    ∷ (0x22B60A, 1664)
    ∷ (0x22BA03, 512)
    ∷ (0x22C1C9, 1024)
    ∷ (0x22C498, 960)
    ∷ (0x22CA36, 576)
    ∷ (0x22CB51, 608)
    ∷ (0x22CCF0, 512)
    ∷ (0x22CE62, 576)
    ∷ (0x22CFEE, 256)
    ∷ (0x22D0AE, 416)
    ∷ (0x22D281, 64)
    ∷ (0x22D2BA, 320)
    ∷ (0x22D6BB, 384)
    ∷ (0x22D7C4, 480)
    ∷ (0x22D90B, 288)
    ∷ (0x22DE59, 928)
    ∷ (0x22E5F3, 768)
    ∷ (0x22F362, 288)
    ∷ (0x22F5C4, 640)
    ∷ (0x22F6DC, 864)
    ∷ (0x22F932, 288)
    ∷ (0x22FA13, 704)
    ∷ (0x22FBD0, 256)
    ∷ (0x22FDFD, 352)
    ∷ (0x22FEF5, 384)
    ∷ (0x23071C, 1024)
    ∷ (0x230975, 608)
    ∷ (0x230B1B, 256)
    ∷ (0x230BC6, 704)
    ∷ (0x230D99, 448)
    ∷ (0x230EB7, 704)
    ∷ (0x231060, 704)
    ∷ (0x23122B, 384)
    ∷ (0x231348, 544)
    ∷ (0x2314B9, 672)
    ∷ (0x231664, 1088)
    ∷ (0x23194D, 1920)
    ∷ (0x231D5D, 1600)
    ∷ (0x23214C, 1664)
    ∷ (0x23254E, 1216)
    ∷ (0x232884, 1728)
    ∷ (0x232C96, 1792)
    ∷ (0x2330B3, 1792)
    ∷ (0x2334C9, 1760)
    ∷ (0x2338E9, 1728)
    ∷ (0x233D0A, 1984)
    ∷ (0x234445, 1536)
    ∷ (0x23477F, 1472)
    ∷ (0x234AC8, 1728)
    ∷ (0x234E0D, 1728)
    ∷ (0x2351CC, 832)
    ∷ (0x2353D4, 832)
    ∷ (0x2355B8, 1728)
    ∷ (0x2359A4, 1664)
    ∷ (0x235D4F, 704)
    ∷ (0x235ED3, 704)
    ∷ (0x23604C, 1600)
    ∷ (0x2363E4, 576)
    ∷ (0x23654C, 2048)
    ∷ (0x236ABA, 2016)
    ∷ (0x236FB4, 1728)
    ∷ (0x2373DE, 1728)
    ∷ (0x2377DF, 1792)
    ∷ (0x237BE8, 1728)
    ∷ (0x238007, 1696)
    ∷ (0x23840A, 1920)
    ∷ (0x23887D, 1408)
    ∷ (0x238BEC, 1600)
    ∷ (0x238F43, 1376)
    ∷ (0x2392C3, 1984)
    ∷ (0x2397D1, 832)
    ∷ (0x239A0D, 864)
    ∷ (0x23A012, 1696)
    ∷ (0x23A40D, 1728)
    ∷ (0x23A833, 1664)
    ∷ (0x23ABAB, 1792)
    ∷ (0x23B1EB, 1664)
    ∷ (0x23B5E5, 1824)
    ∷ (0x23BA43, 1824)
    ∷ (0x23BEA7, 1792)
    ∷ (0x23C713, 1728)
    ∷ (0x23CAFE, 1600)
    ∷ (0x23D318, 1600)
    ∷ (0x23D6DE, 1664)
    ∷ (0x23DDB2, 1216)
    ∷ (0x23E06F, 1760)
    ∷ (0x23E470, 1760)
    ∷ (0x23E85E, 1920)
    ∷ (0x23ED1A, 1792)
    ∷ (0x23F177, 1824)
    ∷ (0x23F93B, 1024)
    ∷ (0x23FD32, 992)
    ∷ (0x240000, 1344)
    ∷ (0x240367, 640)
    ∷ (0x24147D, 1760)
    ∷ (0x24187C, 1280)
    ∷ (0x241BC3, 1600)
    ∷ (0x241F62, 1792)
    ∷ (0x24231B, 1280)
    ∷ (0x2425EC, 1600)
    ∷ (0x2429E7, 1440)
    ∷ (0x242D6F, 1664)
    ∷ (0x243133, 1664)
    ∷ (0x2434FC, 1696)
    ∷ (0x2438E2, 1888)
    ∷ (0x243D75, 1952)
    ∷ (0x244240, 1664)
    ∷ (0x244652, 1888)
    ∷ (0x244A6C, 832)
    ∷ (0x244C0D, 1760)
    ∷ []
