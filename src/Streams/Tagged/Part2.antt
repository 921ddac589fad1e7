-- ===== src/Streams/Tagged/Part2.antt =====
-- usastreams.py, lines 304 to 443: sources and lengths.
use street_fighter_alpha_2_n.Base.{ℕ, List, [], ◌∷◌}

unfoldable pub tagged_2 : List (ℕ × ℕ)
tagged_2 =
    (0x1BC072, 832)
    ∷ (0x1BC0F0, 832)
    ∷ (0x1BC165, 832)
    ∷ (0x1BC240, 832)
    ∷ (0x1BC304, 832)
    ∷ (0x1BC373, 832)
    ∷ (0x1BC445, 832)
    ∷ (0x1BC49D, 832)
    ∷ (0x1BC55C, 832)
    ∷ (0x1BC600, 4096)
    ∷ (0x1BCCEA, 4096)
    ∷ (0x1BD37A, 4096)
    ∷ (0x1BD8D2, 1472)
    ∷ (0x1BDA01, 5920)
    ∷ (0x1BE8FB, 2048)
    ∷ (0x1BEC08, 2048)
    ∷ (0x1BED2E, 7936)
    ∷ (0x1BF95D, 3840)
    ∷ (0x1C0000, 2304)
    ∷ (0x1C0434, 2144)
    ∷ (0x1C0864, 1088)
    ∷ (0x1C09E4, 2560)
    ∷ (0x1C0EF6, 3040)
    ∷ (0x1C1560, 3040)
    ∷ (0x1C1A4B, 3040)
    ∷ (0x1C210C, 2816)
    ∷ (0x1C2782, 2752)
    ∷ (0x1C2C78, 960)
    ∷ (0x1C2EBE, 992)
    ∷ (0x1C3125, 896)
    ∷ (0x1C3329, 960)
    ∷ (0x1C3556, 832)
    ∷ (0x1C373C, 1024)
    ∷ (0x1C39AF, 1024)
    ∷ (0x1C3B50, 1024)
    ∷ (0x1C3C32, 1024)
    ∷ (0x1C3E48, 992)
    ∷ (0x1C4056, 1024)
    ∷ (0x1C423E, 1024)
    ∷ (0x1C4497, 928)
    ∷ (0x1C46BF, 1024)
    ∷ (0x1C486C, 832)
    ∷ (0x1C49C7, 896)
    ∷ (0x1C4B3C, 1024)
    ∷ (0x1C4DC7, 960)
    ∷ (0x1C4FCF, 704)
    ∷ (0x1C50E4, 1024)
    ∷ (0x1C52A2, 768)
    ∷ (0x1C53F2, 960)
    ∷ (0x1C5584, 864)
    ∷ (0x1C58BF, 896)
    ∷ (0x1C5AA0, 768)
    ∷ (0x1C5E7F, 992)
    ∷ (0x1C60B7, 1024)
    ∷ (0x1C62CF, 768)
    ∷ (0x1C641B, 992)
    ∷ (0x1C662F, 992)
    ∷ (0x1C679A, 704)
    ∷ (0x1C68AA, 640)
    ∷ (0x1C69D0, 640)
    ∷ (0x1C6ADD, 640)
    ∷ (0x1C6BDB, 704)
    ∷ (0x1C6D3A, 800)
    ∷ (0x1C6E7F, 864)
    ∷ (0x1C7030, 800)
    ∷ (0x1C71D0, 832)
    ∷ (0x1C7391, 832)
    ∷ (0x1C7562, 992)
    ∷ (0x1C77E4, 992)
    ∷ (0x1C7A57, 768)
    ∷ (0x1C7C3A, 896)
    ∷ (0x1C7E51, 992)
    ∷ (0x1C80A1, 768)
    ∷ (0x1C8225, 704)
    ∷ (0x1C8325, 864)
    ∷ (0x1C8507, 704)
    ∷ (0x1C867A, 960)
    ∷ (0x1C8885, 960)
    ∷ (0x1C8A77, 1024)
    ∷ (0x1C8C51, 1024)
    ∷ (0x1C8E1F, 768)
    ∷ (0x1C8F3F, 896)
    ∷ (0x1C9107, 960)
    ∷ (0x1C9322, 1024)
    ∷ (0x1C94EA, 1024)
    ∷ (0x1C96BC, 896)
    ∷ (0x1C9800, 1024)
    ∷ (0x1C9A74, 1024)
    ∷ (0x1C9B84, 832)
    ∷ (0x1C9D7D, 928)
    ∷ (0x1C9FD0, 832)
    ∷ (0x1CA2D5, 896)
    ∷ (0x1CA54B, 1024)
    ∷ (0x1CA7B4, 704)
    ∷ (0x1CA8EB, 832)
    ∷ (0x1CAA4E, 1024)
    ∷ (0x1CAC73, 832)
    ∷ (0x1CAE0D, 896)
    ∷ (0x1CB01A, 896)
    ∷ (0x1CB21C, 928)
    ∷ (0x1CB435, 1024)
    ∷ (0x1CB65C, 832)
    ∷ (0x1CB795, 832)
    ∷ (0x1CB933, 832)
    ∷ (0x1CBA70, 832)
    ∷ (0x1CBC10, 832)
    ∷ (0x1CBD71, 832)
    ∷ (0x1CBF0C, 832)
    ∷ (0x1CC09A, 832)
    ∷ (0x1CC1AE, 768)
    ∷ (0x1CC2AD, 896)
    ∷ (0x1CC3AA, 640)
    ∷ (0x1CC540, 1024)
    ∷ (0x1CC7BD, 832)
    ∷ (0x1CC960, 640)
    ∷ (0x1CCA6B, 704)
    ∷ (0x1CCB99, 1024)
    ∷ (0x1CCE7E, 928)
    ∷ (0x1CD11C, 992)
    ∷ (0x1CD3BC, 960)
    ∷ (0x1CD548, 704)
    ∷ (0x1CD67D, 1024)
    ∷ (0x1CD95E, 992)
    ∷ (0x1CDC0B, 992)
    ∷ (0x1CDEA1, 2048)
    ∷ (0x1CE734, 1024)
    ∷ (0x1CE8B5, 1024)
    ∷ (0x1CE94D, 1856)
    ∷ (0x1CEC34, 128)
    ∷ (0x1CEC88, 576)
    ∷ (0x1CED39, 768)
    ∷ (0x1CEE5F, 1216)
    ∷ (0x1CF0D2, 1344)
    ∷ (0x1CF393, 768)
    ∷ (0x1CF4AE, 896)
    ∷ (0x1CF53F, 896)
    ∷ (0x1CF6B8, 992)
    ∷ (0x1CF91E, 768)
    ∷ (0x1CF9CB, 96)
    ∷ []
