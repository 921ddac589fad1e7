-- ===== src/Streams/Jp/Part11.antt =====
-- jpstreams.py, lines 1595 to 1734: sources and lengths.
use street_fighter_alpha_2_n.Base.{ℕ, List, [], ◌∷◌}

unfoldable pub jp_streams_11 : List (ℕ × ℕ)
jp_streams_11 =
    (0x2A5D2E, 1888)
    ∷ (0x2A61BE, 1664)
    ∷ (0x2A65D5, 1600)
    ∷ (0x2A6914, 1856)
    ∷ (0x2A6C93, 1856)
    ∷ (0x2A7004, 1664)
    ∷ (0x2A7350, 1920)
    ∷ (0x2A76F9, 1856)
    ∷ (0x2A7A71, 1600)
    ∷ (0x2A7DFC, 1952)
    ∷ (0x2A8252, 2016)
    ∷ (0x2A85F1, 1696)
    ∷ (0x2A898F, 1600)
    ∷ (0x2A8CFB, 1664)
    ∷ (0x2A904B, 1760)
    ∷ (0x2A93C1, 1600)
    ∷ (0x2A96AF, 1728)
    ∷ (0x2A9A0E, 1984)
    ∷ (0x2A9E44, 1312)
    ∷ (0x2AA172, 1536)
    ∷ (0x2AA4DD, 1760)
    ∷ (0x2AA8B6, 1920)
    ∷ (0x2AACD2, 2496)
    ∷ (0x2AB299, 2240)
    ∷ (0x2AB705, 1600)
    ∷ (0x2ABAA2, 1760)
    ∷ (0x2ABE58, 1504)
    ∷ (0x2AC1B7, 1600)
    ∷ (0x2AC4EB, 1600)
    ∷ (0x2AC835, 1344)
    ∷ (0x2ACB63, 1600)
    ∷ (0x2ACE88, 1600)
    ∷ (0x2AD1DA, 1664)
    ∷ (0x2AD4FD, 1728)
    ∷ (0x2AD8AF, 1184)
    ∷ (0x2ADB09, 1216)
    ∷ (0x2ADD86, 1664)
    ∷ (0x2AE103, 1728)
    ∷ (0x2AE4B7, 1824)
    ∷ (0x2AE860, 1856)
    ∷ (0x2AEC39, 1728)
    ∷ (0x2AEFDF, 1728)
    ∷ (0x2AF397, 2048)
    ∷ (0x2AF781, 2048)
    ∷ (0x2AFC33, 1728)
    ∷ (0x2B0000, 1792)
    ∷ (0x2B0398, 2240)
    ∷ (0x2B0826, 1728)
    ∷ (0x2B0BCA, 1760)
    ∷ (0x2B0F35, 1664)
    ∷ (0x2B1293, 1600)
    ∷ (0x2B15ED, 1664)
    ∷ (0x2B192D, 1408)
    ∷ (0x2B1C41, 1760)
    ∷ (0x2B1FF3, 1664)
    ∷ (0x2B2336, 1760)
    ∷ (0x2B267D, 1600)
    ∷ (0x2B298D, 1216)
    ∷ (0x2B2C63, 2048)
    ∷ (0x2B3106, 1952)
    ∷ (0x2B34A6, 1664)
    ∷ (0x2B3817, 1664)
    ∷ (0x2B3B9B, 1632)
    ∷ (0x2B3F09, 1440)
    ∷ (0x2B4238, 1312)
    ∷ (0x2B44FD, 1952)
    ∷ (0x2B48FD, 1600)
    ∷ (0x2B4C4A, 1408)
    ∷ (0x2B4F62, 1664)
    ∷ (0x2B52C9, 1536)
    ∷ (0x2B55EF, 2016)
    ∷ (0x2B5A7E, 1056)
    ∷ (0x2B5D12, 832)
    ∷ (0x2B5ED9, 1216)
    ∷ (0x2B618C, 1600)
    ∷ (0x2B64F0, 1056)
    ∷ (0x2B6769, 1728)
    ∷ (0x2B6ACA, 1888)
    ∷ (0x2B6EC0, 2496)
    ∷ (0x2B738B, 1984)
    ∷ (0x2B77D6, 2112)
    ∷ (0x2B7C7F, 1952)
    ∷ (0x2B8011, 928)
    ∷ (0x2B8221, 768)
    ∷ (0x2B83E8, 928)
    ∷ (0x2B860F, 864)
    ∷ (0x2B882B, 768)
    ∷ (0x2B89ED, 1664)
    ∷ (0x2B8D85, 1664)
    ∷ (0x2B90FB, 1952)
    ∷ (0x2B9502, 1664)
    ∷ (0x2B9860, 256)
    ∷ (0x2B98EC, 288)
    ∷ (0x2B9974, 1760)
    ∷ (0x2B9CF2, 1696)
    ∷ (0x2BA077, 1664)
    ∷ (0x2BA3DE, 1760)
    ∷ (0x2BA7AD, 1600)
    ∷ (0x2BAAA9, 1376)
    ∷ (0x2BADA7, 1664)
    ∷ (0x2BB15A, 1408)
    ∷ (0x2BB4B1, 1664)
    ∷ (0x2BB816, 1344)
    ∷ (0x2BBAE7, 2048)
    ∷ (0x2BBE21, 832)
    ∷ (0x2BBFC7, 1728)
    ∷ (0x2BC333, 1792)
    ∷ (0x2BC6AF, 1600)
    ∷ (0x2BC9D9, 1664)
    ∷ (0x2BCD33, 1696)
    ∷ (0x2BD08A, 1824)
    ∷ (0x2BD42F, 1664)
    ∷ (0x2BD7BB, 1792)
    ∷ (0x2BDBB6, 1792)
    ∷ (0x2BDF6B, 1920)
    ∷ (0x2BE28C, 1728)
    ∷ (0x2BE5B8, 704)
    ∷ (0x2BE747, 1664)
    ∷ (0x2BEB02, 1760)
    ∷ (0x2BEE86, 2752)
    ∷ (0x2BF377, 1760)
    ∷ (0x2BF718, 1600)
    ∷ (0x2BFA39, 1184)
    ∷ (0x2BFCD3, 1248)
    ∷ (0x2C0000, 1280)
    ∷ (0x2C02CD, 1376)
    ∷ (0x2C05D1, 1280)
    ∷ (0x2C08C6, 1344)
    ∷ (0x2C0C1F, 1312)
    ∷ (0x2C0F4B, 1344)
    ∷ (0x2C1286, 1312)
    ∷ (0x2C15BA, 1344)
    ∷ (0x2C18F1, 1280)
    ∷ (0x2C1C12, 1024)
    ∷ (0x2C1EDA, 1408)
    ∷ (0x2C2230, 1216)
    ∷ (0x2C2547, 1024)
    ∷ (0x2C282B, 1344)
    ∷ []
