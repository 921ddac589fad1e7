-- ===== src/Streams/Jp/Part12.antt =====
-- jpstreams.py, lines 1735 to 1874: sources and lengths.
use street_fighter_alpha_2_n.Base.{ℕ, List, [], ◌∷◌}

unfoldable pub jp_streams_12 : List (ℕ × ℕ)
jp_streams_12 =
    (0x2C2B76, 1472)
    ∷ (0x2C2ECD, 1472)
    ∷ (0x2C3245, 736)
    ∷ (0x2C3478, 1280)
    ∷ (0x2C37AB, 1056)
    ∷ (0x2C3A45, 928)
    ∷ (0x2C3CB3, 1376)
    ∷ (0x2C4016, 1088)
    ∷ (0x2C42EB, 1472)
    ∷ (0x2C461B, 1024)
    ∷ (0x2C4882, 928)
    ∷ (0x2C4AA7, 1088)
    ∷ (0x2C4D4B, 1728)
    ∷ (0x2C5101, 1120)
    ∷ (0x2C5399, 1088)
    ∷ (0x2C564F, 1824)
    ∷ (0x2C5AA8, 1056)
    ∷ (0x2C5D41, 1184)
    ∷ (0x2C5FE7, 864)
    ∷ (0x2C622A, 1152)
    ∷ (0x2C64FD, 992)
    ∷ (0x2C6763, 1152)
    ∷ (0x2C6A0C, 1088)
    ∷ (0x2C6CB1, 704)
    ∷ (0x2C6E9C, 992)
    ∷ (0x2C7134, 960)
    ∷ (0x2C735F, 928)
    ∷ (0x2C75C1, 1920)
    ∷ (0x2C7A5E, 832)
    ∷ (0x2C7C27, 1600)
    ∷ (0x2C7F30, 1600)
    ∷ (0x2C8286, 1184)
    ∷ (0x2C8575, 1216)
    ∷ (0x2C8831, 864)
    ∷ (0x2C8A79, 896)
    ∷ (0x2C8CF5, 1376)
    ∷ (0x2C9045, 1344)
    ∷ (0x2C9385, 1024)
    ∷ (0x2C962F, 896)
    ∷ (0x2C9899, 992)
    ∷ (0x2C9B29, 1152)
    ∷ (0x2C9E5D, 1184)
    ∷ (0x2CA13F, 1152)
    ∷ (0x2CA402, 1184)
    ∷ (0x2CA6FA, 1376)
    ∷ (0x2CAA2A, 1376)
    ∷ (0x2CAD6F, 1312)
    ∷ (0x2CB09B, 1248)
    ∷ (0x2CB3C4, 1344)
    ∷ (0x2CB6ED, 1152)
    ∷ (0x2CB98F, 1056)
    ∷ (0x2CBC2C, 1344)
    ∷ (0x2CBF22, 1376)
    ∷ (0x2CC224, 1248)
    ∷ (0x2CC4FF, 1408)
    ∷ (0x2CC808, 1600)
    ∷ (0x2CCB25, 1120)
    ∷ (0x2CCDB9, 1376)
    ∷ (0x2CD0EB, 1088)
    ∷ (0x2CD38A, 896)
    ∷ (0x2CD5C3, 1248)
    ∷ (0x2CD88C, 1056)
    ∷ (0x2CDB28, 1792)
    ∷ (0x2CDF0A, 1056)
    ∷ (0x2CE1DA, 1440)
    ∷ (0x2CE577, 1152)
    ∷ (0x2CE867, 1024)
    ∷ (0x2CEB13, 1248)
    ∷ (0x2CEE11, 1280)
    ∷ (0x2CF0FE, 1600)
    ∷ (0x2CF444, 1376)
    ∷ (0x2CF783, 1184)
    ∷ (0x2CFA78, 992)
    ∷ (0x2CFCDA, 1088)
    ∷ (0x2D0000, 1120)
    ∷ (0x2D02C5, 1184)
    ∷ (0x2D055E, 1184)
    ∷ (0x2D07E8, 1184)
    ∷ (0x2D0AAF, 1248)
    ∷ (0x2D0D75, 1120)
    ∷ (0x2D100D, 1088)
    ∷ (0x2D12BC, 992)
    ∷ (0x2D1542, 1024)
    ∷ (0x2D17AF, 1408)
    ∷ (0x2D1AD6, 1184)
    ∷ (0x2D1DCA, 1152)
    ∷ (0x2D2079, 1152)
    ∷ (0x2D231E, 1056)
    ∷ (0x2D2597, 1184)
    ∷ (0x2D2888, 1184)
    ∷ (0x2D2BA2, 928)
    ∷ (0x2D2E22, 1056)
    ∷ (0x2D30EE, 832)
    ∷ (0x2D3326, 1088)
    ∷ (0x2D35D0, 896)
    ∷ (0x2D37FC, 800)
    ∷ (0x2D3A2B, 1088)
    ∷ (0x2D3CD0, 864)
    ∷ (0x2D3F19, 832)
    ∷ (0x2D4151, 960)
    ∷ (0x2D43D2, 1120)
    ∷ (0x2D468C, 928)
    ∷ (0x2D48C2, 1600)
    ∷ (0x2D4C7D, 1120)
    ∷ (0x2D4F10, 832)
    ∷ (0x2D5160, 1088)
    ∷ (0x2D53FA, 1056)
    ∷ (0x2D5684, 928)
    ∷ (0x2D58D3, 960)
    ∷ (0x2D5B45, 928)
    ∷ (0x2D5DD1, 1728)
    ∷ (0x2D6262, 1024)
    ∷ (0x2D64D4, 1248)
    ∷ (0x2D67CC, 1152)
    ∷ (0x2D6A98, 1824)
    ∷ (0x2D6ED9, 1248)
    ∷ (0x2D71C3, 1152)
    ∷ (0x2D7484, 1280)
    ∷ (0x2D77E0, 1216)
    ∷ (0x2D7A8F, 1024)
    ∷ (0x2D7CDE, 928)
    ∷ (0x2D7EFF, 960)
    ∷ (0x2D816D, 1088)
    ∷ (0x2D83F5, 1248)
    ∷ (0x2D86E8, 1376)
    ∷ (0x2D8A72, 1056)
    ∷ (0x2D8D04, 1056)
    ∷ (0x2D8FA2, 1312)
    ∷ (0x2D92E9, 2048)
    ∷ (0x2D95E3, 2048)
    ∷ (0x2D990B, 768)
    ∷ (0x2D9A9E, 672)
    ∷ (0x2D9BA0, 1600)
    ∷ (0x2D9E9E, 2048)
    ∷ (0x2DA26F, 768)
    ∷ (0x2DA402, 1696)
    ∷ (0x2DA832, 1760)
    ∷ (0x2DAC66, 1760)
    ∷ (0x2DB06F, 1696)
    ∷ []
