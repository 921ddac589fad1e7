-- ===== src/Streams/Jp/Part19.antt =====
-- jpstreams.py, lines 2715 to 2854: sources and lengths.
use street_fighter_alpha_2_n.Base.{ℕ, List, [], ◌∷◌}

unfoldable pub jp_streams_19 : List (ℕ × ℕ)
jp_streams_19 =
    (0x3906E8, 1600)
    ∷ (0x3909FA, 1664)
    ∷ (0x390D0B, 1856)
    ∷ (0x3910BF, 1024)
    ∷ (0x39126C, 1280)
    ∷ (0x391569, 896)
    ∷ (0x3916F8, 1792)
    ∷ (0x391A31, 1536)
    ∷ (0x391C5A, 1344)
    ∷ (0x391F2A, 768)
    ∷ (0x392054, 1984)
    ∷ (0x392425, 1920)
    ∷ (0x3927AB, 1984)
    ∷ (0x392B81, 1856)
    ∷ (0x392EB4, 1024)
    ∷ (0x39301E, 1792)
    ∷ (0x393336, 896)
    ∷ (0x393530, 1664)
    ∷ (0x39383D, 1984)
    ∷ (0x393C68, 1728)
    ∷ (0x393F5C, 1728)
    ∷ (0x394286, 1856)
    ∷ (0x3945BC, 1280)
    ∷ (0x3948B9, 2048)
    ∷ (0x394C25, 896)
    ∷ (0x394DD2, 2048)
    ∷ (0x3950D2, 832)
    ∷ (0x395228, 832)
    ∷ (0x395381, 768)
    ∷ (0x3954B9, 768)
    ∷ (0x3955B7, 768)
    ∷ (0x3956F4, 832)
    ∷ (0x395837, 768)
    ∷ (0x395973, 2112)
    ∷ (0x395DA3, 2144)
    ∷ (0x3961DA, 1856)
    ∷ (0x3964E9, 1856)
    ∷ (0x3967EA, 1216)
    ∷ (0x396A41, 1920)
    ∷ (0x396DDA, 1280)
    ∷ (0x397023, 1984)
    ∷ (0x3973E6, 1792)
    ∷ (0x397758, 1728)
    ∷ (0x397A6A, 1024)
    ∷ (0x397CD1, 1088)
    ∷ (0x397F11, 640)
    ∷ (0x397FFC, 1280)
    ∷ (0x3982E3, 1024)
    ∷ (0x3984BA, 960)
    ∷ (0x39865C, 1024)
    ∷ (0x398881, 1024)
    ∷ (0x398A4F, 1024)
    ∷ (0x398C24, 1792)
    ∷ (0x398F6B, 1856)
    ∷ (0x3992CE, 1856)
    ∷ (0x39960C, 1856)
    ∷ (0x39999C, 1408)
    ∷ (0x399C7A, 1408)
    ∷ (0x399F38, 1024)
    ∷ (0x39A005, 1024)
    ∷ (0x39A153, 1024)
    ∷ (0x39A36C, 1472)
    ∷ (0x39A6A6, 1408)
    ∷ (0x39A9CD, 1856)
    ∷ (0x39AD13, 1344)
    ∷ (0x39AFF2, 1728)
    ∷ (0x39B30C, 1664)
    ∷ (0x39B60E, 1728)
    ∷ (0x39B90B, 1664)
    ∷ (0x39BC0A, 1152)
    ∷ (0x39BEE3, 704)
    ∷ (0x39BFD8, 1024)
    ∷ (0x39C1FA, 1024)
    ∷ (0x39C3A2, 1792)
    ∷ (0x39C6ED, 1856)
    ∷ (0x39CA7E, 1920)
    ∷ (0x39CE53, 1920)
    ∷ (0x39D1FA, 1984)
    ∷ (0x39D5CA, 1792)
    ∷ (0x39D8EE, 1344)
    ∷ (0x39DB9C, 1920)
    ∷ (0x39DF47, 1792)
    ∷ (0x39E27E, 1856)
    ∷ (0x39E5D4, 1792)
    ∷ (0x39E8FA, 1728)
    ∷ (0x39EC36, 1856)
    ∷ (0x39F007, 1664)
    ∷ (0x39F2E6, 1984)
    ∷ (0x39F6B2, 1920)
    ∷ (0x39FA69, 1088)
    ∷ (0x39FCD5, 1664)
    ∷ (0x3A0000, 1792)
    ∷ (0x3A0319, 1728)
    ∷ (0x3A065A, 1856)
    ∷ (0x3A0A3D, 1920)
    ∷ (0x3A0E0E, 1664)
    ∷ (0x3A1121, 1792)
    ∷ (0x3A14A4, 1600)
    ∷ (0x3A16F4, 1920)
    ∷ (0x3A1A98, 1792)
    ∷ (0x3A1DC4, 1728)
    ∷ (0x3A20A5, 1792)
    ∷ (0x3A23DE, 1728)
    ∷ (0x3A2708, 1664)
    ∷ (0x3A29FC, 1792)
    ∷ (0x3A2D45, 1664)
    ∷ (0x3A304B, 1088)
    ∷ (0x3A32FA, 1664)
    ∷ (0x3A360F, 1024)
    ∷ (0x3A3741, 1920)
    ∷ (0x3A3AEB, 2048)
    ∷ (0x3A3EEA, 1728)
    ∷ (0x3A4235, 1664)
    ∷ (0x3A4510, 1856)
    ∷ (0x3A4886, 1792)
    ∷ (0x3A4B33, 1792)
    ∷ (0x3A4E41, 1600)
    ∷ (0x3A509D, 1664)
    ∷ (0x3A5357, 1792)
    ∷ (0x3A567A, 1856)
    ∷ (0x3A59A6, 1280)
    ∷ (0x3A5C5E, 1024)
    ∷ (0x3A5E85, 1408)
    ∷ (0x3A614D, 960)
    ∷ (0x3A6344, 1792)
    ∷ (0x3A6686, 1856)
    ∷ (0x3A6A3C, 1664)
    ∷ (0x3A6D0E, 1728)
    ∷ (0x3A6FFE, 1280)
    ∷ (0x3A7283, 1024)
    ∷ (0x3A7477, 1152)
    ∷ (0x3A76D2, 1024)
    ∷ (0x3A78BF, 1472)
    ∷ (0x3A7BF2, 1600)
    ∷ (0x3A7F96, 2048)
    ∷ (0x3A83DB, 6056)
    ∷ (0x3A8C9C, 2816)
    ∷ (0x3A920E, 2816)
    ∷ (0x3A978C, 2816)
    ∷ []
