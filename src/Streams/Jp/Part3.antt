-- ===== src/Streams/Jp/Part3.antt =====
-- jpstreams.py, lines 475 to 614: sources and lengths.
use street_fighter_alpha_2_n.Base.{ℕ, List, [], ◌∷◌}

unfoldable pub jp_streams_3 : List (ℕ × ℕ)
jp_streams_3 =
    (0x1D0000, 1024)
    ∷ (0x1D021C, 2184)
    ∷ (0x1D04C3, 640)
    ∷ (0x1D0611, 992)
    ∷ (0x1D0837, 864)
    ∷ (0x1D0999, 896)
    ∷ (0x1D0B34, 896)
    ∷ (0x1D0C90, 1408)
    ∷ (0x1D0F01, 1312)
    ∷ (0x1D1224, 832)
    ∷ (0x1D1367, 640)
    ∷ (0x1D144A, 1344)
    ∷ (0x1D175D, 960)
    ∷ (0x1D18F4, 896)
    ∷ (0x1D1AC5, 1024)
    ∷ (0x1D1D1A, 1024)
    ∷ (0x1D1F89, 1408)
    ∷ (0x1D226D, 972)
    ∷ (0x1D257E, 832)
    ∷ (0x1D265A, 1024)
    ∷ (0x1D28B5, 896)
    ∷ (0x1D2A96, 1152)
    ∷ (0x1D2D56, 640)
    ∷ (0x1D2E19, 1024)
    ∷ (0x1D30BD, 896)
    ∷ (0x1D3303, 928)
    ∷ (0x1D34C0, 896)
    ∷ (0x1D3667, 1024)
    ∷ (0x1D386B, 672)
    ∷ (0x1D3985, 416)
    ∷ (0x1D3A49, 928)
    ∷ (0x1D3C50, 768)
    ∷ (0x1D3E40, 896)
    ∷ (0x1D4081, 1024)
    ∷ (0x1D42D3, 1024)
    ∷ (0x1D4552, 992)
    ∷ (0x1D47A4, 768)
    ∷ (0x1D492D, 768)
    ∷ (0x1D4A5C, 832)
    ∷ (0x1D4C46, 768)
    ∷ (0x1D4DCE, 832)
    ∷ (0x1D4F5F, 928)
    ∷ (0x1D5110, 896)
    ∷ (0x1D518C, 1744)
    ∷ (0x1D523C, 960)
    ∷ (0x1D54AA, 896)
    ∷ (0x1D5680, 704)
    ∷ (0x1D57C4, 320)
    ∷ (0x1D5846, 768)
    ∷ (0x1D5958, 768)
    ∷ (0x1D5AF9, 768)
    ∷ (0x1D5C92, 768)
    ∷ (0x1D5E28, 768)
    ∷ (0x1D5FA3, 768)
    ∷ (0x1D609C, 576)
    ∷ (0x1D6111, 320)
    ∷ (0x1D6189, 640)
    ∷ (0x1D6269, 704)
    ∷ (0x1D639B, 928)
    ∷ (0x1D6554, 800)
    ∷ (0x1D6695, 768)
    ∷ (0x1D6826, 704)
    ∷ (0x1D6905, 896)
    ∷ (0x1D6AB9, 768)
    ∷ (0x1D6C06, 992)
    ∷ (0x1D6DCF, 1536)
    ∷ (0x1D703E, 768)
    ∷ (0x1D7169, 1184)
    ∷ (0x1D739A, 1504)
    ∷ (0x1D76C8, 1536)
    ∷ (0x1D7A26, 1152)
    ∷ (0x1D7CE3, 1024)
    ∷ (0x1D7ED6, 960)
    ∷ (0x1D80C4, 704)
    ∷ (0x1D8202, 768)
    ∷ (0x1D8358, 1184)
    ∷ (0x1D856F, 1344)
    ∷ (0x1D87D9, 864)
    ∷ (0x1D8970, 640)
    ∷ (0x1D8A19, 832)
    ∷ (0x1D8BCB, 1120)
    ∷ (0x1D8D87, 960)
    ∷ (0x1D8F3F, 834)
    ∷ (0x1D9087, 1440)
    ∷ (0x1D92FD, 1504)
    ∷ (0x1D9552, 1024)
    ∷ (0x1D9765, 1120)
    ∷ (0x1D997D, 1024)
    ∷ (0x1D9A64, 72)
    ∷ (0x1D9AA3, 640)
    ∷ (0x1D9BA8, 896)
    ∷ (0x1D9D99, 992)
    ∷ (0x1D9FB7, 192)
    ∷ (0x1DA026, 768)
    ∷ (0x1DA0E1, 1024)
    ∷ (0x1DA2E7, 768)
    ∷ (0x1DA43A, 768)
    ∷ (0x1DA581, 768)
    ∷ (0x1DA6BD, 17664)
    ∷ (0x1DAFF5, 128)
    ∷ (0x1DB016, 704)
    ∷ (0x1DB14C, 704)
    ∷ (0x1DB281, 224)
    ∷ (0x1DB2F3, 640)
    ∷ (0x1DB37F, 832)
    ∷ (0x1DB4BE, 704)
    ∷ (0x1DB58B, 896)
    ∷ (0x1DB6B4, 640)
    ∷ (0x1DB73F, 832)
    ∷ (0x1DB842, 576)
    ∷ (0x1DB8B6, 832)
    ∷ (0x1DB9D7, 512)
    ∷ (0x1DBAE7, 1024)
    ∷ (0x1DBD8F, 288)
    ∷ (0x1DBE33, 1024)
    ∷ (0x1DBFC5, 1152)
    ∷ (0x1DC1F3, 1280)
    ∷ (0x1DC44E, 1216)
    ∷ (0x1DC65B, 960)
    ∷ (0x1DC7D3, 1024)
    ∷ (0x1DC939, 960)
    ∷ (0x1DCB61, 1024)
    ∷ (0x1DCDA6, 320)
    ∷ (0x1DF578, 2592)
    ∷ (0x1DF9D9, 640)
    ∷ (0x1DFB04, 2048)
    ∷ (0x1DFC0B, 2048)
    ∷ (0x1DFD5E, 2048)
    ∷ (0x1DFEAB, 2048)
    ∷ (0x1DFFF1, 64)
    ∷ (0x1E0000, 10752)
    ∷ (0x1E18F8, 22400)
    ∷ (0x1E3E22, 2048)
    ∷ (0x1E3FA6, 2048)
    ∷ (0x1E40AF, 2048)
    ∷ (0x1E41C7, 256)
    ∷ (0x1E421C, 2048)
    ∷ (0x1E42D4, 864)
    ∷ (0x1E446F, 6976)
    ∷ []
