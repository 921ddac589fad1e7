-- ===== src/Streams/Tagged/Part13.antt =====
-- usastreams.py, lines 1844 to 1983: sources and lengths.
use street_fighter_alpha_2_n.Base.{ℕ, List, [], ◌∷◌}

unfoldable pub tagged_13 : List (ℕ × ℕ)
tagged_13 =
    (0x2DF041, 1792)
    ∷ (0x2DF427, 1728)
    ∷ (0x2DF819, 1664)
    ∷ (0x2DFBCE, 1920)
    ∷ (0x2E0000, 1952)
    ∷ (0x2E0471, 864)
    ∷ (0x2E0666, 1216)
    ∷ (0x2E0940, 1216)
    ∷ (0x2E0C36, 928)
    ∷ (0x2E0E5B, 928)
    ∷ (0x2E1081, 1728)
    ∷ (0x2E1474, 1664)
    ∷ (0x2E1851, 1184)
    ∷ (0x2E1B51, 1792)
    ∷ (0x2E1F4D, 1152)
    ∷ (0x2E222C, 1248)
    ∷ (0x2E2511, 1344)
    ∷ (0x2E2812, 1760)
    ∷ (0x2E2C4C, 1856)
    ∷ (0x2E309D, 1600)
    ∷ (0x2E348F, 1984)
    ∷ (0x2E3850, 704)
    ∷ (0x2E396D, 2048)
    ∷ (0x2E3D81, 704)
    ∷ (0x2E3F06, 2048)
    ∷ (0x2E437B, 832)
    ∷ (0x2E44D0, 1600)
    ∷ (0x2E483D, 1184)
    ∷ (0x2E4B1B, 2048)
    ∷ (0x2E4F81, 800)
    ∷ (0x2E511B, 1600)
    ∷ (0x2E54D6, 1184)
    ∷ (0x2E57E5, 1376)
    ∷ (0x2E5B78, 1280)
    ∷ (0x2E5EA7, 1696)
    ∷ (0x2E6271, 640)
    ∷ (0x2E63FE, 1088)
    ∷ (0x2E66D9, 1312)
    ∷ (0x2E6A1C, 1184)
    ∷ (0x2E6D23, 1152)
    ∷ (0x2E7013, 1600)
    ∷ (0x2E73B2, 2048)
    ∷ (0x2E7849, 640)
    ∷ (0x2E79AD, 1952)
    ∷ (0x2E7E2B, 736)
    ∷ (0x2E7FD0, 704)
    ∷ (0x2E8117, 1664)
    ∷ (0x2E84F8, 1664)
    ∷ (0x2E88EB, 1664)
    ∷ (0x2E8A39, 1600)
    ∷ (0x2E8E0B, 1728)
    ∷ (0x2E9237, 1664)
    ∷ (0x2E962D, 1888)
    ∷ (0x2E9A15, 1792)
    ∷ (0x2E9E65, 1664)
    ∷ (0x2EA23E, 1760)
    ∷ (0x2EA65C, 800)
    ∷ (0x2EA899, 1248)
    ∷ (0x2EABC6, 1472)
    ∷ (0x2EAC48, 832)
    ∷ (0x2EAC99, 1536)
    ∷ (0x2EAF93, 1344)
    ∷ (0x2EB2AC, 1248)
    ∷ (0x2EB585, 1280)
    ∷ (0x2EB8AF, 1248)
    ∷ (0x2EBB74, 1216)
    ∷ (0x2EBE41, 1600)
    ∷ (0x2EC186, 1344)
    ∷ (0x2EC488, 1600)
    ∷ (0x2EC792, 1344)
    ∷ (0x2ECABB, 1312)
    ∷ (0x2ECD82, 1600)
    ∷ (0x2ED0A6, 1664)
    ∷ (0x2ED432, 1216)
    ∷ (0x2ED6EF, 1216)
    ∷ (0x2ED9BA, 1504)
    ∷ (0x2EDCEF, 1600)
    ∷ (0x2EE02D, 1600)
    ∷ (0x2EE34B, 1312)
    ∷ (0x2EE621, 1600)
    ∷ (0x2EE97B, 1792)
    ∷ (0x2EED8D, 1856)
    ∷ (0x2EF218, 1760)
    ∷ (0x2EF67B, 1600)
    ∷ (0x2EFA3B, 1920)
    ∷ (0x2EFE81, 768)
    ∷ (0x2F0064, 704)
    ∷ (0x2F00A3, 1664)
    ∷ (0x2F049A, 2048)
    ∷ (0x2F08FE, 1600)
    ∷ (0x2F0CC3, 1664)
    ∷ (0x2F1099, 1792)
    ∷ (0x2F14BD, 640)
    ∷ (0x2F163D, 1600)
    ∷ (0x2F19DC, 1056)
    ∷ (0x2F1C58, 928)
    ∷ (0x2F1E9A, 1024)
    ∷ (0x2F2108, 2048)
    ∷ (0x2F2550, 1920)
    ∷ (0x2F298D, 1920)
    ∷ (0x2F2DB5, 1984)
    ∷ (0x2F3201, 1504)
    ∷ (0x2F3555, 1600)
    ∷ (0x2F38A7, 640)
    ∷ (0x2F399B, 1600)
    ∷ (0x2F3CEB, 1984)
    ∷ (0x2F411F, 1984)
    ∷ (0x2F4522, 1728)
    ∷ (0x2F48C0, 1792)
    ∷ (0x2F4C9B, 1952)
    ∷ (0x2F50BB, 1152)
    ∷ (0x2F5370, 1216)
    ∷ (0x2F5629, 1248)
    ∷ (0x2F58FA, 1216)
    ∷ (0x2F5BC8, 1216)
    ∷ (0x2F5E62, 1152)
    ∷ (0x2F60FE, 1216)
    ∷ (0x2F63B5, 1216)
    ∷ (0x2F666C, 1280)
    ∷ (0x2F6923, 1216)
    ∷ (0x2F6BD1, 1664)
    ∷ (0x2F6F4F, 1024)
    ∷ (0x2F71AE, 1344)
    ∷ (0x2F74D0, 1664)
    ∷ (0x2F7831, 768)
    ∷ (0x2F79F4, 1664)
    ∷ (0x2F7D71, 832)
    ∷ (0x2F7F6B, 1792)
    ∷ (0x2F82DD, 832)
    ∷ (0x2F846B, 768)
    ∷ (0x2F85B5, 1152)
    ∷ (0x2F8840, 1152)
    ∷ (0x2F8AC0, 1120)
    ∷ (0x2F8D4F, 1152)
    ∷ (0x2F8FDD, 2048)
    ∷ (0x2F9425, 352)
    ∷ (0x2F94DE, 352)
    ∷ (0x2F9597, 352)
    ∷ []
