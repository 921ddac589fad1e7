-- ===== src/Streams/Jp/Part4.antt =====
-- jpstreams.py, lines 615 to 754: sources and lengths.
use street_fighter_alpha_2_n.Base.{ℕ, List, [], ◌∷◌}

unfoldable pub jp_streams_4 : List (ℕ × ℕ)
jp_streams_4 =
    (0x1E4ED8, 1920)
    ∷ (0x1E5136, 3648)
    ∷ (0x1E5764, 2688)
    ∷ (0x1E5A08, 1536)
    ∷ (0x1E5D27, 2048)
    ∷ (0x1E5E2A, 2048)
    ∷ (0x1E5EE0, 2048)
    ∷ (0x1E5F8A, 2048)
    ∷ (0x1E5FF7, 2048)
    ∷ (0x1E613E, 2048)
    ∷ (0x1E628D, 2048)
    ∷ (0x1E643E, 2048)
    ∷ (0x1E6636, 9600)
    ∷ (0x1E6B31, 2048)
    ∷ (0x1E6C9B, 672)
    ∷ (0x1E6E5B, 2048)
    ∷ (0x1E6F70, 1088)
    ∷ (0x1E707D, 2048)
    ∷ (0x1E7196, 2048)
    ∷ (0x1E7245, 4608)
    ∷ (0x1E7A45, 8192)
    ∷ (0x1E86DB, 3680)
    ∷ (0x1E8E07, 3072)
    ∷ (0x1E9362, 3072)
    ∷ (0x1E97CC, 4096)
    ∷ (0x1EA053, 2048)
    ∷ (0x1EA445, 1024)
    ∷ (0x1EA62C, 2048)
    ∷ (0x1EA854, 2048)
    ∷ (0x1EAAA3, 2048)
    ∷ (0x1EADA7, 2048)
    ∷ (0x1EAFB2, 2048)
    ∷ (0x1EB1D5, 64)
    ∷ (0x1EB1EB, 320)
    ∷ (0x1EB236, 4608)
    ∷ (0x1EBBAC, 2048)
    ∷ (0x1EBCA8, 22464)
    ∷ (0x1EF0D8, 2048)
    ∷ (0x1EF2B8, 2048)
    ∷ (0x1EF4A3, 2048)
    ∷ (0x1EF6E0, 2048)
    ∷ (0x1EF953, 2048)
    ∷ (0x1EFA55, 2048)
    ∷ (0x1EFB57, 4096)
    ∷ (0x1EFEDB, 512)
    ∷ (0x200000, 1568)
    ∷ (0x200427, 1600)
    ∷ (0x200865, 1664)
    ∷ (0x200CAD, 1472)
    ∷ (0x20106F, 1280)
    ∷ (0x201416, 1504)
    ∷ (0x2017FD, 1632)
    ∷ (0x201BEF, 1664)
    ∷ (0x20202E, 1920)
    ∷ (0x20246A, 1184)
    ∷ (0x2027AB, 992)
    ∷ (0x202A75, 1664)
    ∷ (0x202E09, 1440)
    ∷ (0x2031C8, 1536)
    ∷ (0x2035D1, 1888)
    ∷ (0x203AAB, 1728)
    ∷ (0x203F23, 1888)
    ∷ (0x2043EA, 1888)
    ∷ (0x204914, 1664)
    ∷ (0x204D0D, 1024)
    ∷ (0x204FBD, 768)
    ∷ (0x2051AF, 1632)
    ∷ (0x20560B, 2016)
    ∷ (0x205B3D, 1408)
    ∷ (0x205EEC, 1632)
    ∷ (0x206312, 1472)
    ∷ (0x206704, 1248)
    ∷ (0x206A4C, 1088)
    ∷ (0x206D51, 1152)
    ∷ (0x20704D, 1120)
    ∷ (0x207371, 1216)
    ∷ (0x2076A9, 1248)
    ∷ (0x2079FD, 1888)
    ∷ (0x207F56, 1504)
    ∷ (0x208334, 1504)
    ∷ (0x2086D3, 1536)
    ∷ (0x208ADD, 1088)
    ∷ (0x208DD3, 1504)
    ∷ (0x2091B8, 960)
    ∷ (0x209439, 1600)
    ∷ (0x20986E, 1696)
    ∷ (0x209C7F, 1664)
    ∷ (0x20A0A6, 1792)
    ∷ (0x20A51B, 1024)
    ∷ (0x20A7EE, 1600)
    ∷ (0x20ABC9, 1184)
    ∷ (0x20AEA1, 1248)
    ∷ (0x20B198, 1120)
    ∷ (0x20B453, 1600)
    ∷ (0x20B753, 1344)
    ∷ (0x20BA54, 1184)
    ∷ (0x20BD3A, 1152)
    ∷ (0x20C079, 1248)
    ∷ (0x20C3DF, 1024)
    ∷ (0x20C68A, 234)
    ∷ (0x20C757, 1664)
    ∷ (0x20CBAD, 1824)
    ∷ (0x20D03D, 1248)
    ∷ (0x20D3CB, 1280)
    ∷ (0x20D73E, 1024)
    ∷ (0x20DA2A, 120)
    ∷ (0x20DA9E, 1600)
    ∷ (0x20DE96, 1120)
    ∷ (0x20E18A, 1536)
    ∷ (0x20E562, 1024)
    ∷ (0x20E829, 102)
    ∷ (0x20E887, 1376)
    ∷ (0x20EC15, 1280)
    ∷ (0x20EF6E, 1536)
    ∷ (0x20F30D, 1344)
    ∷ (0x20F688, 1024)
    ∷ (0x20F941, 1280)
    ∷ (0x20FC7A, 1472)
    ∷ (0x210000, 1216)
    ∷ (0x210366, 1536)
    ∷ (0x210757, 1248)
    ∷ (0x210AB0, 1376)
    ∷ (0x210E14, 1536)
    ∷ (0x2111B3, 1088)
    ∷ (0x211484, 1472)
    ∷ (0x211855, 1184)
    ∷ (0x211B60, 992)
    ∷ (0x211E18, 1216)
    ∷ (0x21214E, 1312)
    ∷ (0x2124A5, 1248)
    ∷ (0x21280D, 1824)
    ∷ (0x212CAA, 1504)
    ∷ (0x213094, 1248)
    ∷ (0x2133B7, 1376)
    ∷ (0x213755, 1088)
    ∷ (0x213A3F, 1600)
    ∷ (0x213DDE, 1152)
    ∷ (0x2140B3, 1024)
    ∷ []
