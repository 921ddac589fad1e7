-- ===== src/Streams/Requests/Part8.antt =====
-- requests_jp.py, lines 1150 to 1289: sources and lengths.
use street_fighter_alpha_2_n.Base.{ℕ, List, [], ◌∷◌}

unfoldable pub jp_requests_8 : List (ℕ × ℕ)
jp_requests_8 =
    (0x2C1EDA, 1408)
    ∷ (0x2C2230, 1216)
    ∷ (0x2C2547, 1024)
    ∷ (0x2C282B, 1344)
    ∷ (0x2C2B76, 1472)
    ∷ (0x2C2ECD, 1472)
    ∷ (0x2C3245, 736)
    ∷ (0x2C3478, 1280)
    ∷ (0x2C37AB, 1056)
    ∷ (0x2C3A45, 928)
    ∷ (0x2C3CB3, 1376)
    ∷ (0x2C4016, 1088)
    ∷ (0x2C42EB, 1472)
    ∷ (0x2C461B, 1024)
    ∷ (0x2C4882, 928)
    ∷ (0x2C4AA7, 1088)
    ∷ (0x2C4D4B, 1728)
    ∷ (0x2C5101, 1120)
    ∷ (0x2C5399, 1088)
    ∷ (0x2C564F, 1824)
    ∷ (0x2C5AA8, 1056)
    ∷ (0x2C5D41, 1184)
    ∷ (0x2C5FE7, 864)
    ∷ (0x2C622A, 1152)
    ∷ (0x2C64FD, 992)
    ∷ (0x2C6763, 1152)
    ∷ (0x2C6A0C, 1088)
    ∷ (0x2C6CB1, 704)
    ∷ (0x2C6E9C, 992)
    ∷ (0x2C7134, 960)
    ∷ (0x2C735F, 928)
    ∷ (0x2C75C1, 1920)
    ∷ (0x2C7A5E, 832)
    ∷ (0x2C7C27, 1600)
    ∷ (0x2C7F30, 1600)
    ∷ (0x2C8286, 1184)
    ∷ (0x2C8575, 1216)
    ∷ (0x2C8831, 864)
    ∷ (0x2C8A79, 896)
    ∷ (0x2C8CF5, 1376)
    ∷ (0x2C9045, 1344)
    ∷ (0x2C9385, 1024)
    ∷ (0x2C962F, 896)
    ∷ (0x2C9899, 992)
    ∷ (0x2C9E5D, 1184)
    ∷ (0x2CA13F, 1152)
    ∷ (0x2CA402, 1184)
    ∷ (0x2CA6FA, 1376)
    ∷ (0x2CAA2A, 1376)
    ∷ (0x2CAD6F, 1312)
    ∷ (0x2CB09B, 1248)
    ∷ (0x2CB6ED, 1152)
    ∷ (0x2CB98F, 1056)
    ∷ (0x2CBC2C, 1344)
    ∷ (0x2CBF22, 1376)
    ∷ (0x2CC224, 1248)
    ∷ (0x2CC4FF, 1408)
    ∷ (0x2CC808, 1600)
    ∷ (0x2CCB25, 1120)
    ∷ (0x2CCDB9, 1376)
    ∷ (0x2CD0EB, 1088)
    ∷ (0x2CD38A, 896)
    ∷ (0x2CD5C3, 1248)
    ∷ (0x2CD88C, 1056)
    ∷ (0x2CDB28, 1792)
    ∷ (0x2CDF0A, 1056)
    ∷ (0x2CE1DA, 1440)
    ∷ (0x2CE577, 1152)
    ∷ (0x2CE867, 1024)
    ∷ (0x2CEB13, 1248)
    ∷ (0x2CEE11, 1280)
    ∷ (0x2CF0FE, 1600)
    ∷ (0x2CF444, 1376)
    ∷ (0x2CF783, 1184)
    ∷ (0x2D17AF, 1408)
    ∷ (0x2D1AD6, 1184)
    ∷ (0x2D1DCA, 1152)
    ∷ (0x2D2079, 1152)
    ∷ (0x2D231E, 1056)
    ∷ (0x2D2597, 1184)
    ∷ (0x2D2888, 1184)
    ∷ (0x2D30EE, 832)
    ∷ (0x2D3326, 1088)
    ∷ (0x2D35D0, 896)
    ∷ (0x2D37FC, 800)
    ∷ (0x2D3A2B, 1088)
    ∷ (0x2D3CD0, 864)
    ∷ (0x2D3F19, 832)
    ∷ (0x2D6262, 1024)
    ∷ (0x2D64D4, 1248)
    ∷ (0x2D67CC, 1152)
    ∷ (0x2D6A98, 1824)
    ∷ (0x2D6ED9, 1248)
    ∷ (0x2D71C3, 1152)
    ∷ (0x2D7484, 1280)
    ∷ (0x2D8D04, 1056)
    ∷ (0x2D92E9, 2048)
    ∷ (0x2D95E3, 2048)
    ∷ (0x2D990B, 768)
    ∷ (0x2D9A9E, 672)
    ∷ (0x2D9BA0, 1600)
    ∷ (0x2D9E9E, 2048)
    ∷ (0x2DA26F, 768)
    ∷ (0x2DA402, 1696)
    ∷ (0x2DA832, 1760)
    ∷ (0x2DAC66, 1760)
    ∷ (0x2DB06F, 1696)
    ∷ (0x2DB458, 1088)
    ∷ (0x2DB740, 1664)
    ∷ (0x2DBB08, 1888)
    ∷ (0x2DBEA7, 1504)
    ∷ (0x2DC41B, 1600)
    ∷ (0x2DC7FF, 1600)
    ∷ (0x2DCBA0, 1600)
    ∷ (0x2DCEF1, 1472)
    ∷ (0x2DD5C1, 1312)
    ∷ (0x2DD909, 1600)
    ∷ (0x2DDD44, 1856)
    ∷ (0x2DE8DC, 1216)
    ∷ (0x2DEC15, 1728)
    ∷ (0x2DF041, 1792)
    ∷ (0x2DF427, 1728)
    ∷ (0x2DF819, 1664)
    ∷ (0x2DFBCE, 1920)
    ∷ (0x2E0000, 1952)
    ∷ (0x2E0471, 864)
    ∷ (0x2E0666, 1216)
    ∷ (0x2E0940, 1216)
    ∷ (0x2E1B51, 1792)
    ∷ (0x2E1F4D, 1152)
    ∷ (0x2E222C, 1248)
    ∷ (0x2E2511, 1344)
    ∷ (0x2E2812, 1760)
    ∷ (0x2E2C4C, 1856)
    ∷ (0x2E309D, 1600)
    ∷ (0x2E348F, 1984)
    ∷ (0x2E3850, 704)
    ∷ (0x2E44D0, 1600)
    ∷ (0x2E483D, 1184)
    ∷ (0x2E4B1B, 2048)
    ∷ []
