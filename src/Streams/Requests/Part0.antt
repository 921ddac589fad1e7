-- ===== src/Streams/Requests/Part0.antt =====
-- requests_jp.py, lines 30 to 169: sources and lengths.
use street_fighter_alpha_2_n.Base.{ℕ, List, [], ◌∷◌}

unfoldable pub jp_requests_0 : List (ℕ × ℕ)
jp_requests_0 =
    (0x130000, 1152)
    ∷ (0x1302EF, 8192)
    ∷ (0x130E9D, 2048)
    ∷ (0x131150, 2048)
    ∷ (0x131BC2, 3488)
    ∷ (0x13223B, 3008)
    ∷ (0x132814, 2304)
    ∷ (0x132C08, 1056)
    ∷ (0x132D8B, 2048)
    ∷ (0x132DC0, 2048)
    ∷ (0x132E7E, 2048)
    ∷ (0x132F4B, 2048)
    ∷ (0x1330FD, 2048)
    ∷ (0x13331A, 2048)
    ∷ (0x1333F7, 2048)
    ∷ (0x1334D7, 2048)
    ∷ (0x13357E, 2048)
    ∷ (0x1335F9, 4000)
    ∷ (0x1339DC, 2048)
    ∷ (0x133AA6, 2048)
    ∷ (0x133C0A, 2048)
    ∷ (0x133DD8, 2048)
    ∷ (0x133F37, 2048)
    ∷ (0x1340C4, 2048)
    ∷ (0x1341B1, 2048)
    ∷ (0x1342AD, 2048)
    ∷ (0x134327, 19008)
    ∷ (0x1372B4, 8192)
    ∷ (0x137B2E, 26368)
    ∷ (0x13BD6C, 1536)
    ∷ (0x13C129, 8192)
    ∷ (0x13CB9F, 17920)
    ∷ (0x13F22F, 8192)
    ∷ (0x13FB7D, 2048)
    ∷ (0x14000F, 24576)
    ∷ (0x143C56, 1024)
    ∷ (0x143E7C, 1120)
    ∷ (0x14406C, 8192)
    ∷ (0x144AB9, 28832)
    ∷ (0x148920, 8192)
    ∷ (0x14915D, 27584)
    ∷ (0x14D663, 8192)
    ∷ (0x14E1E1, 8192)
    ∷ (0x14EC85, 8192)
    ∷ (0x150011, 22368)
    ∷ (0x1538E6, 25248)
    ∷ (0x1578C4, 2144)
    ∷ (0x157DC5, 8192)
    ∷ (0x15D056, 8192)
    ∷ (0x15D7FD, 8192)
    ∷ (0x15E0AF, 8192)
    ∷ (0x15E82D, 8192)
    ∷ (0x15EFBB, 8192)
    ∷ (0x15F462, 5408)
    ∷ (0x164C2B, 32000)
    ∷ (0x169A65, 8192)
    ∷ (0x16E2AE, 8192)
    ∷ (0x16EAD2, 8192)
    ∷ (0x16F177, 8192)
    ∷ (0x16F7CF, 5120)
    ∷ (0x1752AF, 19904)
    ∷ (0x178393, 352)
    ∷ (0x17848A, 8192)
    ∷ (0x178EAC, 27776)
    ∷ (0x17D096, 512)
    ∷ (0x17D1F9, 8192)
    ∷ (0x17EF0E, 4064)
    ∷ (0x17F875, 3392)
    ∷ (0x184D5F, 23200)
    ∷ (0x188898, 3104)
    ∷ (0x18909A, 8192)
    ∷ (0x189B97, 26016)
    ∷ (0x18D846, 8192)
    ∷ (0x18E292, 8960)
    ∷ (0x18F7E3, 8192)
    ∷ (0x190011, 8192)
    ∷ (0x190B01, 8192)
    ∷ (0x19104C, 8192)
    ∷ (0x191580, 8192)
    ∷ (0x191E58, 8192)
    ∷ (0x1924A1, 8192)
    ∷ (0x192B62, 8192)
    ∷ (0x193162, 8192)
    ∷ (0x19381F, 8192)
    ∷ (0x1940F2, 8192)
    ∷ (0x1953DE, 4096)
    ∷ (0x19572A, 4096)
    ∷ (0x19644B, 4096)
    ∷ (0x196791, 4096)
    ∷ (0x196AD4, 4096)
    ∷ (0x196E14, 4096)
    ∷ (0x197530, 2048)
    ∷ (0x197641, 1984)
    ∷ (0x1976E4, 2048)
    ∷ (0x19780D, 2016)
    ∷ (0x1978EA, 3584)
    ∷ (0x197D3B, 480)
    ∷ (0x197E06, 7360)
    ∷ (0x198A11, 832)
    ∷ (0x198B2B, 3584)
    ∷ (0x199229, 4096)
    ∷ (0x19994F, 2048)
    ∷ (0x199EBB, 1120)
    ∷ (0x19A0F0, 1024)
    ∷ (0x19A380, 800)
    ∷ (0x19A579, 1088)
    ∷ (0x19ABC6, 832)
    ∷ (0x19ADA3, 800)
    ∷ (0x19B1D6, 1664)
    ∷ (0x19B4B8, 6144)
    ∷ (0x19BEA7, 2048)
    ∷ (0x19C45E, 2048)
    ∷ (0x19C795, 6656)
    ∷ (0x19D94C, 2048)
    ∷ (0x19E218, 3104)
    ∷ (0x19E557, 8192)
    ∷ (0x19F6E0, 1024)
    ∷ (0x19F7E5, 1024)
    ∷ (0x1A0008, 2656)
    ∷ (0x1A052A, 2048)
    ∷ (0x1A05DC, 1024)
    ∷ (0x1A06E4, 2048)
    ∷ (0x1A07B5, 4608)
    ∷ (0x1A1596, 768)
    ∷ (0x1A1798, 768)
    ∷ (0x1A19F1, 1600)
    ∷ (0x1A2243, 256)
    ∷ (0x1A2248, 3936)
    ∷ (0x1A2A1F, 64)
    ∷ (0x1A2A4E, 4032)
    ∷ (0x1A3041, 3168)
    ∷ (0x1A37FC, 1024)
    ∷ (0x1A39B6, 3008)
    ∷ (0x1A44B7, 3328)
    ∷ (0x1A4C0B, 3520)
    ∷ (0x1A754D, 4064)
    ∷ (0x1A90CE, 3488)
    ∷ (0x1A987E, 2784)
    ∷ (0x1AA810, 3808)
    ∷ (0x1AB840, 704)
    ∷ []
