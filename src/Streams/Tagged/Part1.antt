-- ===== src/Streams/Tagged/Part1.antt =====
-- usastreams.py, lines 164 to 303: sources and lengths.
use street_fighter_alpha_2_n.Base.{ℕ, List, [], ◌∷◌}

unfoldable pub tagged_1 : List (ℕ × ℕ)
tagged_1 =
    (0x195F02, 7360)
    ∷ (0x196B0D, 832)
    ∷ (0x196C27, 3584)
    ∷ (0x197325, 4096)
    ∷ (0x197A4B, 2048)
    ∷ (0x197E2C, 768)
    ∷ (0x197FB7, 1120)
    ∷ (0x1981EC, 1024)
    ∷ (0x19847C, 800)
    ∷ (0x198675, 1088)
    ∷ (0x198908, 1184)
    ∷ (0x198CC2, 832)
    ∷ (0x198E9F, 800)
    ∷ (0x199028, 1280)
    ∷ (0x1992D2, 1664)
    ∷ (0x1995B4, 6144)
    ∷ (0x199FA3, 2048)
    ∷ (0x19A55A, 2048)
    ∷ (0x19A891, 2112)
    ∷ (0x19AE04, 3104)
    ∷ (0x19B0FC, 640)
    ∷ (0x19B143, 8192)
    ∷ (0x19C2CC, 1024)
    ∷ (0x19C3D1, 1024)
    ∷ (0x19CC09, 2656)
    ∷ (0x19D12B, 2048)
    ∷ (0x19D1DD, 1024)
    ∷ (0x19D2E5, 5120)
    ∷ (0x19DB10, 2048)
    ∷ (0x19DBE1, 4608)
    ∷ (0x19E941, 1344)
    ∷ (0x19E9C2, 768)
    ∷ (0x19EBC4, 768)
    ∷ (0x19EE1D, 1600)
    ∷ (0x19F630, 960)
    ∷ (0x19F903, 3328)
    ∷ (0x1A000D, 3936)
    ∷ (0x1A07E4, 64)
    ∷ (0x1A0813, 4032)
    ∷ (0x1A0D24, 3584)
    ∷ (0x1A1458, 1024)
    ∷ (0x1A1634, 3904)
    ∷ (0x1A1C01, 3072)
    ∷ (0x1A2196, 3104)
    ∷ (0x1A2750, 3424)
    ∷ (0x1A2F54, 3392)
    ∷ (0x1A36F5, 2944)
    ∷ (0x1A3CFE, 3584)
    ∷ (0x1A4488, 3968)
    ∷ (0x1A4D32, 3776)
    ∷ (0x1A54EE, 3520)
    ∷ (0x1A5CC1, 3680)
    ∷ (0x1A644D, 3872)
    ∷ (0x1A6CE4, 3872)
    ∷ (0x1A749D, 3744)
    ∷ (0x1A7DF0, 3168)
    ∷ (0x1A8477, 2752)
    ∷ (0x1A8A2E, 3680)
    ∷ (0x1A9225, 3488)
    ∷ (0x1A9A2D, 3456)
    ∷ (0x1AA190, 2112)
    ∷ (0x1AA5B1, 704)
    ∷ (0x1AA69F, 704)
    ∷ (0x1AA786, 704)
    ∷ (0x1AA889, 704)
    ∷ (0x1AA996, 704)
    ∷ (0x1AAA79, 704)
    ∷ (0x1AAB7F, 704)
    ∷ (0x1AAC70, 704)
    ∷ (0x1AAD65, 704)
    ∷ (0x1AAE78, 704)
    ∷ (0x1AAF75, 704)
    ∷ (0x1AB073, 704)
    ∷ (0x1AB17B, 704)
    ∷ (0x1AB274, 704)
    ∷ (0x1AB369, 704)
    ∷ (0x1AB45D, 704)
    ∷ (0x1AB54C, 704)
    ∷ (0x1AB640, 704)
    ∷ (0x1AB747, 704)
    ∷ (0x1AB82E, 2048)
    ∷ (0x1AB938, 3986)
    ∷ (0x1ABD9C, 6144)
    ∷ (0x1AC22B, 1088)
    ∷ (0x1AC3BE, 128)
    ∷ (0x1AC800, 3584)
    ∷ (0x1ACC76, 2048)
    ∷ (0x1B0000, 32)
    ∷ (0x1B0015, 3552)
    ∷ (0x1B0748, 1568)
    ∷ (0x1B0ACD, 1664)
    ∷ (0x1B0DC3, 2944)
    ∷ (0x1B13FB, 736)
    ∷ (0x1B159D, 2400)
    ∷ (0x1B1A06, 400)
    ∷ (0x1B1ACC, 6848)
    ∷ (0x1B2A2A, 2176)
    ∷ (0x1B2F17, 8992)
    ∷ (0x1B439E, 3040)
    ∷ (0x1B4AD3, 4224)
    ∷ (0x1B5421, 3392)
    ∷ (0x1B5BA4, 3168)
    ∷ (0x1B62D1, 2592)
    ∷ (0x1B6900, 2976)
    ∷ (0x1B7098, 2656)
    ∷ (0x1B76C8, 3584)
    ∷ (0x1B7F66, 6752)
    ∷ (0x1B8FD5, 3424)
    ∷ (0x1B9833, 1664)
    ∷ (0x1B9C1E, 1824)
    ∷ (0x1BA016, 2944)
    ∷ (0x1BA72E, 1312)
    ∷ (0x1BAA1F, 2720)
    ∷ (0x1BAF7D, 2048)
    ∷ (0x1BB25B, 832)
    ∷ (0x1BB2E0, 832)
    ∷ (0x1BB3A1, 832)
    ∷ (0x1BB3E2, 832)
    ∷ (0x1BB486, 832)
    ∷ (0x1BB50B, 832)
    ∷ (0x1BB551, 832)
    ∷ (0x1BB5D3, 832)
    ∷ (0x1BB61B, 832)
    ∷ (0x1BB65D, 832)
    ∷ (0x1BB707, 832)
    ∷ (0x1BB85F, 832)
    ∷ (0x1BB8E1, 832)
    ∷ (0x1BB993, 832)
    ∷ (0x1BBA85, 832)
    ∷ (0x1BBADF, 832)
    ∷ (0x1BBB63, 832)
    ∷ (0x1BBC45, 832)
    ∷ (0x1BBCA8, 832)
    ∷ (0x1BBD82, 832)
    ∷ (0x1BBE6A, 832)
    ∷ (0x1BBF13, 832)
    ∷ (0x1BBF7F, 832)
    ∷ (0x1BBFE0, 832)
    ∷ []
