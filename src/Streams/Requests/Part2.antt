-- ===== src/Streams/Requests/Part2.antt =====
-- requests_jp.py, lines 310 to 449: sources and lengths.
use street_fighter_alpha_2_n.Base.{ℕ, List, [], ◌∷◌}

unfoldable pub jp_requests_2 : List (ℕ × ℕ)
jp_requests_2 =
    (0x1D47A4, 768)
    ∷ (0x1D492D, 768)
    ∷ (0x1D4A5C, 832)
    ∷ (0x1D4C46, 768)
    ∷ (0x1D4DCE, 832)
    ∷ (0x1D4F5F, 928)
    ∷ (0x1D5110, 896)
    ∷ (0x1D5846, 768)
    ∷ (0x1D5958, 768)
    ∷ (0x1D5AF9, 768)
    ∷ (0x1D5C92, 768)
    ∷ (0x1D5E28, 768)
    ∷ (0x1D5FA3, 768)
    ∷ (0x1D609C, 576)
    ∷ (0x1D6189, 640)
    ∷ (0x1D6269, 704)
    ∷ (0x1D639B, 928)
    ∷ (0x1D6554, 800)
    ∷ (0x1D6695, 768)
    ∷ (0x1D6826, 704)
    ∷ (0x1D7169, 1184)
    ∷ (0x1D739A, 1504)
    ∷ (0x1D76C8, 1536)
    ∷ (0x1DA0E1, 1024)
    ∷ (0x1DA2E7, 768)
    ∷ (0x1DA43A, 768)
    ∷ (0x1DA581, 768)
    ∷ (0x1DBAE7, 1024)
    ∷ (0x1DBD8F, 288)
    ∷ (0x1DBE33, 1024)
    ∷ (0x1DC939, 960)
    ∷ (0x1DCB61, 1024)
    ∷ (0x1DCDA6, 320)
    ∷ (0x1DF578, 2592)
    ∷ (0x1DF9D9, 640)
    ∷ (0x1DFB04, 2048)
    ∷ (0x1DFC0B, 2048)
    ∷ (0x1DFD5E, 2048)
    ∷ (0x1DFEAB, 2048)
    ∷ (0x1DFFF1, 64)
    ∷ (0x1E0000, 10752)
    ∷ (0x1E18F8, 22400)
    ∷ (0x1E3E22, 2048)
    ∷ (0x1E3FA6, 2048)
    ∷ (0x1E40AF, 2048)
    ∷ (0x1E41C7, 256)
    ∷ (0x1E421C, 2048)
    ∷ (0x1E42D4, 864)
    ∷ (0x1E446F, 6976)
    ∷ (0x1E4ED8, 1920)
    ∷ (0x1E5136, 3648)
    ∷ (0x1E5764, 2688)
    ∷ (0x1E5A08, 1536)
    ∷ (0x1E5D27, 2048)
    ∷ (0x1E5E2A, 2048)
    ∷ (0x1E5EE0, 2048)
    ∷ (0x1E5F8A, 2048)
    ∷ (0x1E5FF7, 2048)
    ∷ (0x1E613E, 2048)
    ∷ (0x1E628D, 2048)
    ∷ (0x1E643E, 2048)
    ∷ (0x1E6B31, 2048)
    ∷ (0x1E6C9B, 672)
    ∷ (0x1E6E5B, 2048)
    ∷ (0x1E6F70, 1088)
    ∷ (0x1E707D, 2048)
    ∷ (0x1E7196, 2048)
    ∷ (0x1E7245, 4608)
    ∷ (0x1E7A45, 8192)
    ∷ (0x1E86DB, 3680)
    ∷ (0x1E8E07, 3072)
    ∷ (0x1E9362, 3072)
    ∷ (0x1E97CC, 4096)
    ∷ (0x1EA053, 2048)
    ∷ (0x1EA445, 1024)
    ∷ (0x1EA62C, 2048)
    ∷ (0x1EA854, 2048)
    ∷ (0x1EAAA3, 2048)
    ∷ (0x1EADA7, 2048)
    ∷ (0x1EAFB2, 2048)
    ∷ (0x1EB1D5, 64)
    ∷ (0x1EB1EB, 320)
    ∷ (0x1EB236, 4608)
    ∷ (0x1EBBAC, 2048)
    ∷ (0x1EBCA8, 22464)
    ∷ (0x1EF0D8, 2048)
    ∷ (0x1EF2B8, 2048)
    ∷ (0x1EF4A3, 2048)
    ∷ (0x1EF6E0, 2048)
    ∷ (0x1EF953, 2048)
    ∷ (0x1EFA55, 2048)
    ∷ (0x1EFB57, 4096)
    ∷ (0x1EFEDB, 512)
    ∷ (0x200000, 1568)
    ∷ (0x200427, 1600)
    ∷ (0x200865, 1664)
    ∷ (0x200CAD, 1472)
    ∷ (0x20106F, 1280)
    ∷ (0x201416, 1504)
    ∷ (0x2017FD, 1632)
    ∷ (0x201BEF, 1664)
    ∷ (0x20202E, 1920)
    ∷ (0x20246A, 1184)
    ∷ (0x2027AB, 992)
    ∷ (0x202A75, 1664)
    ∷ (0x202E09, 1440)
    ∷ (0x2031C8, 1536)
    ∷ (0x2035D1, 1888)
    ∷ (0x203AAB, 1728)
    ∷ (0x203F23, 1888)
    ∷ (0x2043EA, 1888)
    ∷ (0x204914, 1664)
    ∷ (0x204D0D, 1024)
    ∷ (0x204FBD, 768)
    ∷ (0x2051AF, 1632)
    ∷ (0x20560B, 2016)
    ∷ (0x205B3D, 1408)
    ∷ (0x205EEC, 1632)
    ∷ (0x206312, 1024)
    ∷ (0x206704, 1024)
    ∷ (0x206A4C, 1088)
    ∷ (0x206D51, 1152)
    ∷ (0x20704D, 1120)
    ∷ (0x207371, 1216)
    ∷ (0x2076A9, 1248)
    ∷ (0x2079FD, 1888)
    ∷ (0x207F56, 1504)
    ∷ (0x208334, 1504)
    ∷ (0x2086D3, 1536)
    ∷ (0x208ADD, 1088)
    ∷ (0x208DD3, 1504)
    ∷ (0x209439, 1600)
    ∷ (0x20986E, 1696)
    ∷ (0x209C7F, 1024)
    ∷ (0x20A0A6, 1024)
    ∷ (0x20A51B, 1024)
    ∷ (0x20ABC9, 1184)
    ∷ (0x20AEA1, 1248)
    ∷ (0x20B198, 1120)
    ∷ (0x20B453, 1600)
    ∷ []
