-- ===== src/Streams/Jp/Part9.antt =====
-- jpstreams.py, lines 1315 to 1454: sources and lengths.
use street_fighter_alpha_2_n.Base.{ℕ, List, [], ◌∷◌}

unfoldable pub jp_streams_9 : List (ℕ × ℕ)
jp_streams_9 =
    (0x273E81, 1344)
    ∷ (0x274189, 1536)
    ∷ (0x274500, 1600)
    ∷ (0x2748D1, 1728)
    ∷ (0x274CC1, 1792)
    ∷ (0x2750CD, 768)
    ∷ (0x2752AA, 768)
    ∷ (0x2754AA, 768)
    ∷ (0x2756AE, 832)
    ∷ (0x2758F3, 1728)
    ∷ (0x275CEB, 1792)
    ∷ (0x27613C, 1600)
    ∷ (0x276514, 768)
    ∷ (0x2766ED, 832)
    ∷ (0x276902, 1664)
    ∷ (0x276D07, 1600)
    ∷ (0x2770F4, 1728)
    ∷ (0x277549, 1600)
    ∷ (0x277918, 1024)
    ∷ (0x277A5B, 1024)
    ∷ (0x277BCD, 1024)
    ∷ (0x277D61, 1024)
    ∷ (0x277F3D, 1024)
    ∷ (0x2780FE, 960)
    ∷ (0x2782EB, 1024)
    ∷ (0x278421, 1024)
    ∷ (0x278578, 224)
    ∷ (0x27863A, 1024)
    ∷ (0x27875A, 1024)
    ∷ (0x278947, 1024)
    ∷ (0x278AE7, 960)
    ∷ (0x278CDC, 1024)
    ∷ (0x278DBD, 1024)
    ∷ (0x278E97, 1024)
    ∷ (0x2790BF, 1024)
    ∷ (0x279273, 1024)
    ∷ (0x2793BD, 1024)
    ∷ (0x27958A, 1024)
    ∷ (0x279745, 348)
    ∷ (0x279887, 1024)
    ∷ (0x279AE0, 960)
    ∷ (0x279D2A, 1024)
    ∷ (0x279FD3, 896)
    ∷ (0x27A1DA, 896)
    ∷ (0x27A3B5, 768)
    ∷ (0x27A546, 832)
    ∷ (0x27A702, 960)
    ∷ (0x27A8A9, 832)
    ∷ (0x27AA00, 896)
    ∷ (0x27ABD5, 896)
    ∷ (0x27AE13, 896)
    ∷ (0x27AFE9, 1088)
    ∷ (0x27B296, 960)
    ∷ (0x27B514, 896)
    ∷ (0x27B756, 768)
    ∷ (0x27B8D7, 896)
    ∷ (0x27BAD5, 1728)
    ∷ (0x27BE59, 768)
    ∷ (0x27BFD1, 768)
    ∷ (0x27C122, 1024)
    ∷ (0x27C39D, 768)
    ∷ (0x27C4BB, 768)
    ∷ (0x27C643, 768)
    ∷ (0x27C7D4, 768)
    ∷ (0x27C963, 1152)
    ∷ (0x27CC33, 1024)
    ∷ (0x27CEE3, 1280)
    ∷ (0x27D227, 1216)
    ∷ (0x27D53F, 832)
    ∷ (0x27D70D, 832)
    ∷ (0x27D8D7, 896)
    ∷ (0x27DB19, 1216)
    ∷ (0x27DDE7, 896)
    ∷ (0x27E002, 832)
    ∷ (0x27E207, 1088)
    ∷ (0x27E4FD, 1024)
    ∷ (0x27E7E1, 1152)
    ∷ (0x27EAE9, 1344)
    ∷ (0x27EE49, 1216)
    ∷ (0x27F165, 896)
    ∷ (0x27F3B3, 1280)
    ∷ (0x27F709, 1728)
    ∷ (0x27FAA2, 1344)
    ∷ (0x27FDE6, 896)
    ∷ (0x280000, 1728)
    ∷ (0x28037D, 1728)
    ∷ (0x280709, 1792)
    ∷ (0x280AA8, 1792)
    ∷ (0x280E7C, 1344)
    ∷ (0x2811CB, 1280)
    ∷ (0x281535, 768)
    ∷ (0x2816D2, 832)
    ∷ (0x28185F, 832)
    ∷ (0x2819D9, 832)
    ∷ (0x281B6F, 1280)
    ∷ (0x281E95, 1344)
    ∷ (0x2821C0, 1728)
    ∷ (0x282513, 1088)
    ∷ (0x2827CA, 1216)
    ∷ (0x282ABA, 1024)
    ∷ (0x282DA6, 1408)
    ∷ (0x283121, 1408)
    ∷ (0x283493, 1088)
    ∷ (0x28374C, 1216)
    ∷ (0x283A70, 1024)
    ∷ (0x283D39, 1216)
    ∷ (0x28403F, 896)
    ∷ (0x28426F, 960)
    ∷ (0x2844D1, 1024)
    ∷ (0x284748, 1088)
    ∷ (0x284A1E, 896)
    ∷ (0x284C39, 1216)
    ∷ (0x284F66, 1280)
    ∷ (0x28528B, 1600)
    ∷ (0x2855D3, 1280)
    ∷ (0x2858AC, 1216)
    ∷ (0x285B92, 1664)
    ∷ (0x285EE5, 1088)
    ∷ (0x2861B0, 1728)
    ∷ (0x28651B, 1728)
    ∷ (0x2868D0, 1088)
    ∷ (0x286BB8, 1152)
    ∷ (0x286E97, 1344)
    ∷ (0x2871B9, 896)
    ∷ (0x2873A4, 960)
    ∷ (0x2875C1, 1216)
    ∷ (0x287893, 704)
    ∷ (0x28795A, 768)
    ∷ (0x287ACD, 1792)
    ∷ (0x287E9B, 1792)
    ∷ (0x288267, 704)
    ∷ (0x288328, 768)
    ∷ (0x288468, 1216)
    ∷ (0x28874A, 1728)
    ∷ (0x288AE5, 1152)
    ∷ (0x288DC2, 1728)
    ∷ (0x2890F3, 1792)
    ∷ (0x2894D3, 1728)
    ∷ (0x289831, 1216)
    ∷ []
