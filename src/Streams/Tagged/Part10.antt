-- ===== src/Streams/Tagged/Part10.antt =====
-- usastreams.py, lines 1424 to 1563: sources and lengths.
use street_fighter_alpha_2_n.Base.{ℕ, List, [], ◌∷◌}

unfoldable pub tagged_10 : List (ℕ × ℕ)
tagged_10 =
    (0x28C7E6, 1152)
    ∷ (0x28CAC1, 1664)
    ∷ (0x28CDFF, 1152)
    ∷ (0x28D0BB, 1280)
    ∷ (0x28D40A, 1792)
    ∷ (0x28D7C1, 1408)
    ∷ (0x28DB1F, 1216)
    ∷ (0x28DE37, 1216)
    ∷ (0x28E144, 1984)
    ∷ (0x28E5FE, 1984)
    ∷ (0x28EABC, 1920)
    ∷ (0x28EF67, 1536)
    ∷ (0x28F326, 2048)
    ∷ (0x28F7F6, 2048)
    ∷ (0x28FC86, 1408)
    ∷ (0x290000, 2304)
    ∷ (0x290553, 2048)
    ∷ (0x290A1A, 1856)
    ∷ (0x290E59, 1216)
    ∷ (0x29117B, 1856)
    ∷ (0x291582, 1408)
    ∷ (0x2918EE, 1216)
    ∷ (0x291C05, 1024)
    ∷ (0x291E6F, 960)
    ∷ (0x29207D, 1024)
    ∷ (0x2921A9, 1984)
    ∷ (0x292604, 1344)
    ∷ (0x292986, 1280)
    ∷ (0x292CCC, 1280)
    ∷ (0x29300C, 1216)
    ∷ (0x293333, 2048)
    ∷ (0x2937D8, 1024)
    ∷ (0x2939B6, 1024)
    ∷ (0x293B96, 1024)
    ∷ (0x293CD9, 1344)
    ∷ (0x293FEA, 1472)
    ∷ (0x29433A, 2048)
    ∷ (0x2947C2, 1920)
    ∷ (0x294C14, 896)
    ∷ (0x294E57, 1152)
    ∷ (0x295101, 1920)
    ∷ (0x2954F6, 1408)
    ∷ (0x2957C9, 1408)
    ∷ (0x295ADF, 1984)
    ∷ (0x295F54, 960)
    ∷ (0x29615A, 1024)
    ∷ (0x296358, 1920)
    ∷ (0x296799, 1984)
    ∷ (0x296C0E, 2176)
    ∷ (0x2970EF, 1664)
    ∷ (0x2974B6, 1408)
    ∷ (0x2977D1, 1984)
    ∷ (0x297C22, 2176)
    ∷ (0x298127, 2560)
    ∷ (0x2986E8, 2176)
    ∷ (0x298BD2, 2176)
    ∷ (0x299069, 960)
    ∷ (0x29926C, 1920)
    ∷ (0x29969A, 1920)
    ∷ (0x299ADC, 1024)
    ∷ (0x299CD2, 768)
    ∷ (0x299DD6, 1856)
    ∷ (0x29A1DC, 1536)
    ∷ (0x29A490, 1408)
    ∷ (0x29A7C9, 1984)
    ∷ (0x29ABE8, 1920)
    ∷ (0x29AFE8, 1408)
    ∷ (0x29B32F, 1536)
    ∷ (0x29B6DF, 1152)
    ∷ (0x29B997, 1792)
    ∷ (0x29BD61, 1472)
    ∷ (0x29C0F7, 1984)
    ∷ (0x29C57E, 1920)
    ∷ (0x29C9E1, 1856)
    ∷ (0x29CE22, 1984)
    ∷ (0x29D2D3, 1280)
    ∷ (0x29D5E6, 1920)
    ∷ (0x29D9F8, 2048)
    ∷ (0x29DED2, 2560)
    ∷ (0x29E4B0, 384)
    ∷ (0x29E59D, 384)
    ∷ (0x29E679, 960)
    ∷ (0x29E8D4, 1536)
    ∷ (0x29EC88, 1024)
    ∷ (0x29EE86, 1024)
    ∷ (0x29F039, 1024)
    ∷ (0x29F1D2, 1280)
    ∷ (0x29F4D3, 1280)
    ∷ (0x29F7AB, 1408)
    ∷ (0x29FABB, 832)
    ∷ (0x29FCBF, 832)
    ∷ (0x29FECB, 704)
    ∷ (0x2A0000, 896)
    ∷ (0x2A0219, 1408)
    ∷ (0x2A0580, 1920)
    ∷ (0x2A096F, 1984)
    ∷ (0x2A0DB7, 1920)
    ∷ (0x2A11C3, 1920)
    ∷ (0x2A15F5, 1216)
    ∷ (0x2A18B8, 1920)
    ∷ (0x2A1CAC, 1536)
    ∷ (0x2A202F, 1024)
    ∷ (0x2A216E, 960)
    ∷ (0x2A23AE, 1024)
    ∷ (0x2A25A6, 1024)
    ∷ (0x2A2835, 320)
    ∷ (0x2A28EE, 1920)
    ∷ (0x2A2D19, 1216)
    ∷ (0x2A2FE3, 832)
    ∷ (0x2A31B4, 256)
    ∷ (0x2A3628, 2048)
    ∷ (0x2A3B10, 1216)
    ∷ (0x2A3DC9, 1152)
    ∷ (0x2A405E, 1216)
    ∷ (0x2A42F0, 1536)
    ∷ (0x2A45C8, 1728)
    ∷ (0x2A4A36, 1280)
    ∷ (0x2A4D69, 1216)
    ∷ (0x2A5074, 1216)
    ∷ (0x2A5376, 1024)
    ∷ (0x2A554E, 1600)
    ∷ (0x2A58FB, 1760)
    ∷ (0x2A5D2E, 1888)
    ∷ (0x2A61BE, 1664)
    ∷ (0x2A65D5, 1600)
    ∷ (0x2A6914, 1856)
    ∷ (0x2A6C93, 1856)
    ∷ (0x2A7004, 1664)
    ∷ (0x2A7350, 1920)
    ∷ (0x2A76F9, 1856)
    ∷ (0x2A7A71, 1600)
    ∷ (0x2A7DFC, 1952)
    ∷ (0x2A8252, 2016)
    ∷ (0x2A85F1, 1696)
    ∷ (0x2A898F, 1600)
    ∷ (0x2A8CFB, 1664)
    ∷ (0x2A904B, 1760)
    ∷ (0x2A93C1, 1600)
    ∷ []
