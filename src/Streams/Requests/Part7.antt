-- ===== src/Streams/Requests/Part7.antt =====
-- requests_jp.py, lines 1010 to 1149: sources and lengths.
use street_fighter_alpha_2_n.Base.{ℕ, List, [], ◌∷◌}

unfoldable pub jp_requests_7 : List (ℕ × ℕ)
jp_requests_7 =
    (0x28CAC1, 1664)
    ∷ (0x28CDFF, 1152)
    ∷ (0x28DB1F, 1216)
    ∷ (0x28DE37, 1216)
    ∷ (0x28E144, 1984)
    ∷ (0x28E5FE, 1984)
    ∷ (0x28EABC, 1920)
    ∷ (0x28EF67, 1536)
    ∷ (0x28F326, 2048)
    ∷ (0x28F7F6, 2048)
    ∷ (0x290000, 2304)
    ∷ (0x290553, 2048)
    ∷ (0x290A1A, 1856)
    ∷ (0x290E59, 1216)
    ∷ (0x29117B, 1856)
    ∷ (0x291582, 1408)
    ∷ (0x2939B6, 1024)
    ∷ (0x293B96, 1024)
    ∷ (0x293FEA, 1472)
    ∷ (0x29433A, 2048)
    ∷ (0x2947C2, 1920)
    ∷ (0x294C14, 896)
    ∷ (0x294E57, 1152)
    ∷ (0x295101, 1920)
    ∷ (0x2954F6, 1408)
    ∷ (0x2957C9, 1408)
    ∷ (0x295ADF, 1984)
    ∷ (0x296C0E, 2176)
    ∷ (0x2970EF, 1664)
    ∷ (0x2974B6, 1408)
    ∷ (0x2977D1, 1984)
    ∷ (0x297C22, 2176)
    ∷ (0x298127, 2560)
    ∷ (0x2986E8, 2176)
    ∷ (0x298BD2, 2176)
    ∷ (0x299069, 960)
    ∷ (0x29926C, 1920)
    ∷ (0x29969A, 1920)
    ∷ (0x299ADC, 1024)
    ∷ (0x29B6DF, 1152)
    ∷ (0x29B997, 1792)
    ∷ (0x29D2D3, 1280)
    ∷ (0x29EC88, 1024)
    ∷ (0x29EE86, 1024)
    ∷ (0x29F039, 1024)
    ∷ (0x29F1D2, 1280)
    ∷ (0x29F4D3, 1280)
    ∷ (0x29F7AB, 1408)
    ∷ (0x29FABB, 832)
    ∷ (0x29FCBF, 832)
    ∷ (0x2A0000, 896)
    ∷ (0x2A0219, 1408)
    ∷ (0x2A0580, 1920)
    ∷ (0x2A096F, 1984)
    ∷ (0x2A0DB7, 1920)
    ∷ (0x2A11C3, 1920)
    ∷ (0x2A15F5, 1216)
    ∷ (0x2A18B8, 1920)
    ∷ (0x2A1CAC, 1536)
    ∷ (0x2A554E, 1600)
    ∷ (0x2A58FB, 1760)
    ∷ (0x2A5D2E, 1888)
    ∷ (0x2A61BE, 1664)
    ∷ (0x2A65D5, 1600)
    ∷ (0x2A7DFC, 1952)
    ∷ (0x2A8252, 2016)
    ∷ (0x2A85F1, 1696)
    ∷ (0x2A898F, 1600)
    ∷ (0x2A8CFB, 1664)
    ∷ (0x2A904B, 1760)
    ∷ (0x2A93C1, 1600)
    ∷ (0x2A96AF, 1728)
    ∷ (0x2AA172, 1536)
    ∷ (0x2AB299, 2240)
    ∷ (0x2ABE58, 1504)
    ∷ (0x2AC1B7, 1600)
    ∷ (0x2AC4EB, 1600)
    ∷ (0x2AC835, 1344)
    ∷ (0x2ACB63, 1600)
    ∷ (0x2ACE88, 1600)
    ∷ (0x2AD1DA, 1664)
    ∷ (0x2AD4FD, 1728)
    ∷ (0x2AD8AF, 1184)
    ∷ (0x2ADB09, 1216)
    ∷ (0x2AEFDF, 1728)
    ∷ (0x2AF397, 2048)
    ∷ (0x2AF781, 2048)
    ∷ (0x2AFC33, 1728)
    ∷ (0x2B0398, 2240)
    ∷ (0x2B0826, 1728)
    ∷ (0x2B1FF3, 1664)
    ∷ (0x2B267D, 1600)
    ∷ (0x2B298D, 1216)
    ∷ (0x2B2C63, 2048)
    ∷ (0x2B3106, 1952)
    ∷ (0x2B3B9B, 1632)
    ∷ (0x2B4238, 1312)
    ∷ (0x2B44FD, 1952)
    ∷ (0x2B5ED9, 1216)
    ∷ (0x2B618C, 1600)
    ∷ (0x2B64F0, 1056)
    ∷ (0x2B6769, 1728)
    ∷ (0x2B6ACA, 1888)
    ∷ (0x2B6EC0, 2496)
    ∷ (0x2B738B, 1984)
    ∷ (0x2B77D6, 2112)
    ∷ (0x2BA3DE, 1760)
    ∷ (0x2BA7AD, 1600)
    ∷ (0x2BAAA9, 1376)
    ∷ (0x2BADA7, 1664)
    ∷ (0x2BB15A, 1408)
    ∷ (0x2BB4B1, 1664)
    ∷ (0x2BBFC7, 1728)
    ∷ (0x2BC333, 1792)
    ∷ (0x2BC6AF, 1600)
    ∷ (0x2BC9D9, 1664)
    ∷ (0x2BCD33, 1696)
    ∷ (0x2BD08A, 1824)
    ∷ (0x2BD42F, 1664)
    ∷ (0x2BD7BB, 1792)
    ∷ (0x2BDBB6, 1792)
    ∷ (0x2BDF6B, 1920)
    ∷ (0x2BE28C, 1728)
    ∷ (0x2BE5B8, 704)
    ∷ (0x2BEB02, 1760)
    ∷ (0x2BEE86, 2752)
    ∷ (0x2BF377, 1760)
    ∷ (0x2BF718, 1600)
    ∷ (0x2BFA39, 1184)
    ∷ (0x2BFCD3, 1248)
    ∷ (0x2C0000, 1280)
    ∷ (0x2C02CD, 1376)
    ∷ (0x2C05D1, 1280)
    ∷ (0x2C08C6, 1344)
    ∷ (0x2C0C1F, 1312)
    ∷ (0x2C0F4B, 1344)
    ∷ (0x2C1286, 1312)
    ∷ (0x2C15BA, 1344)
    ∷ (0x2C18F1, 1280)
    ∷ (0x2C1C12, 1024)
    ∷ []
