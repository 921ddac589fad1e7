-- ===== src/Streams/Jp/Part6.antt =====
-- jpstreams.py, lines 895 to 1034: sources and lengths.
use street_fighter_alpha_2_n.Base.{ℕ, List, [], ◌∷◌}

unfoldable pub jp_streams_6 : List (ℕ × ℕ)
jp_streams_6 =
    (0x227961, 704)
    ∷ (0x227B09, 384)
    ∷ (0x227C29, 704)
    ∷ (0x227DF4, 640)
    ∷ (0x227F68, 704)
    ∷ (0x228139, 736)
    ∷ (0x228337, 736)
    ∷ (0x228528, 320)
    ∷ (0x2285F8, 544)
    ∷ (0x22873A, 384)
    ∷ (0x22884B, 640)
    ∷ (0x2289BC, 640)
    ∷ (0x228AB3, 352)
    ∷ (0x228BAA, 352)
    ∷ (0x228CB1, 576)
    ∷ (0x228E0A, 512)
    ∷ (0x228F4C, 992)
    ∷ (0x2291B8, 640)
    ∷ (0x229341, 1664)
    ∷ (0x2296F8, 1600)
    ∷ (0x229A40, 736)
    ∷ (0x229C3E, 896)
    ∷ (0x229E83, 800)
    ∷ (0x22A083, 864)
    ∷ (0x22A2C6, 640)
    ∷ (0x22A441, 672)
    ∷ (0x22A608, 992)
    ∷ (0x22A8A8, 320)
    ∷ (0x22A989, 352)
    ∷ (0x22AA81, 352)
    ∷ (0x22AB72, 320)
    ∷ (0x22AC4D, 640)
    ∷ (0x22AD95, 288)
    ∷ (0x22AE73, 320)
    ∷ (0x22AF4E, 384)
    ∷ (0x22B052, 640)
    ∷ (0x22B1E9, 352)
    ∷ (0x22B2EA, 1280)
    ∷ (0x22B60A, 1664)
    ∷ (0x22BA03, 512)
    ∷ (0x22BB47, 1152)
    ∷ (0x22BE56, 1280)
    ∷ (0x22C1C9, 1024)
    ∷ (0x22C498, 960)
    ∷ (0x22C705, 1344)
    ∷ (0x22CA36, 576)
    ∷ (0x22CB51, 608)
    ∷ (0x22CCF0, 512)
    ∷ (0x22CE62, 576)
    ∷ (0x22CFEE, 256)
    ∷ (0x22D0AE, 416)
    ∷ (0x22D1CD, 288)
    ∷ (0x22D281, 64)
    ∷ (0x22D2BA, 320)
    ∷ (0x22D39B, 704)
    ∷ (0x22D58B, 448)
    ∷ (0x22D6BB, 384)
    ∷ (0x22D7C4, 480)
    ∷ (0x22D90B, 288)
    ∷ (0x22D9D9, 768)
    ∷ (0x22DBD6, 992)
    ∷ (0x22DE59, 928)
    ∷ (0x22E07D, 832)
    ∷ (0x22E26D, 1600)
    ∷ (0x22E5F3, 768)
    ∷ (0x22E7F8, 1248)
    ∷ (0x22EAFD, 480)
    ∷ (0x22EC25, 384)
    ∷ (0x22ED18, 384)
    ∷ (0x22EDFE, 1184)
    ∷ (0x22F0DA, 448)
    ∷ (0x22F206, 480)
    ∷ (0x22F362, 288)
    ∷ (0x22F437, 704)
    ∷ (0x22F5C4, 640)
    ∷ (0x22F6DC, 864)
    ∷ (0x22F932, 288)
    ∷ (0x22FA13, 704)
    ∷ (0x22FBD0, 256)
    ∷ (0x22FC78, 384)
    ∷ (0x22FD5F, 224)
    ∷ (0x22FDFD, 352)
    ∷ (0x22FEF5, 384)
    ∷ (0x230000, 1024)
    ∷ (0x2302BA, 480)
    ∷ (0x2303F3, 704)
    ∷ (0x23058B, 768)
    ∷ (0x23071C, 1024)
    ∷ (0x230975, 608)
    ∷ (0x230B1B, 256)
    ∷ (0x230BC6, 704)
    ∷ (0x230D99, 448)
    ∷ (0x230EB7, 704)
    ∷ (0x231060, 704)
    ∷ (0x23122B, 384)
    ∷ (0x231348, 544)
    ∷ (0x2314B9, 672)
    ∷ (0x231664, 1088)
    ∷ (0x23194D, 1920)
    ∷ (0x231D5D, 1600)
    ∷ (0x23214C, 1664)
    ∷ (0x23254E, 1216)
    ∷ (0x232884, 1728)
    ∷ (0x232C96, 1792)
    ∷ (0x2330B3, 1792)
    ∷ (0x2334C9, 1760)
    ∷ (0x2338E9, 1728)
    ∷ (0x233D0A, 1984)
    ∷ (0x23417E, 1152)
    ∷ (0x234445, 1536)
    ∷ (0x23477F, 1472)
    ∷ (0x234AC8, 1728)
    ∷ (0x234E0D, 1728)
    ∷ (0x2351CC, 832)
    ∷ (0x2353D4, 832)
    ∷ (0x2355B8, 1728)
    ∷ (0x2359A4, 1664)
    ∷ (0x235D4F, 704)
    ∷ (0x235ED3, 704)
    ∷ (0x23604C, 1600)
    ∷ (0x2363E4, 576)
    ∷ (0x23654C, 2048)
    ∷ (0x236ABA, 2016)
    ∷ (0x236FB4, 1728)
    ∷ (0x2373DE, 1728)
    ∷ (0x2377DF, 1792)
    ∷ (0x237BE8, 1728)
    ∷ (0x238007, 1696)
    ∷ (0x23840A, 1920)
    ∷ (0x23887D, 1408)
    ∷ (0x238BEC, 1600)
    ∷ (0x238F43, 1376)
    ∷ (0x2392C3, 1984)
    ∷ (0x2397D1, 864)
    ∷ (0x239A0D, 864)
    ∷ (0x239C41, 1664)
    ∷ (0x23A012, 1696)
    ∷ (0x23A40D, 1728)
    ∷ (0x23A833, 1664)
    ∷ []
