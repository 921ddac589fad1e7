-- ===== src/Streams/Jp/Part0.antt =====
-- jpstreams.py, lines 55 to 194: sources and lengths.
use street_fighter_alpha_2_n.Base.{ℕ, List, [], ◌∷◌}

unfoldable pub jp_streams_0 : List (ℕ × ℕ)
jp_streams_0 =
    (0x007890, 832)
    ∷ (0x00792C, 832)
    ∷ (0x0079D1, 832)
    ∷ (0x007A39, 832)
    ∷ (0x007A9A, 896)
    ∷ (0x007B15, 832)
    ∷ (0x130000, 1152)
    ∷ (0x1302EF, 8192)
    ∷ (0x130E9D, 2048)
    ∷ (0x131150, 2048)
    ∷ (0x131195, 2048)
    ∷ (0x131490, 2048)
    ∷ (0x1316C4, 2048)
    ∷ (0x1318AC, 2048)
    ∷ (0x131BC2, 3488)
    ∷ (0x13223B, 3008)
    ∷ (0x132814, 2304)
    ∷ (0x132C08, 1056)
    ∷ (0x132D8B, 2048)
    ∷ (0x132DC0, 2048)
    ∷ (0x132E7E, 2048)
    ∷ (0x132F4B, 2048)
    ∷ (0x1330FD, 2048)
    ∷ (0x13331A, 2048)
    ∷ (0x1333F7, 2048)
    ∷ (0x1334D7, 2048)
    ∷ (0x13357E, 2048)
    ∷ (0x1335F9, 4000)
    ∷ (0x1339DC, 2048)
    ∷ (0x133AA6, 2048)
    ∷ (0x133C0A, 2048)
    ∷ (0x133DD8, 2048)
    ∷ (0x133F37, 2048)
    ∷ (0x1340C4, 2048)
    ∷ (0x1341B1, 2048)
    ∷ (0x1342AD, 2048)
    ∷ (0x134327, 19008)
    ∷ (0x1372B4, 8192)
    ∷ (0x137B2E, 26370)
    ∷ (0x13BD6C, 1536)
    ∷ (0x13C129, 32546)
    ∷ (0x13CB9F, 17920)
    ∷ (0x13F22F, 8192)
    ∷ (0x13FB7D, 2048)
    ∷ (0x14000F, 24576)
    ∷ (0x143C56, 1024)
    ∷ (0x143E7C, 1120)
    ∷ (0x14406C, 8192)
    ∷ (0x144AB9, 28832)
    ∷ (0x148920, 8192)
    ∷ (0x14915D, 27584)
    ∷ (0x14D663, 8192)
    ∷ (0x14E1E1, 8192)
    ∷ (0x14EC85, 8192)
    ∷ (0x150011, 22368)
    ∷ (0x1538E6, 25248)
    ∷ (0x1578C4, 2144)
    ∷ (0x157DC5, 8192)
    ∷ (0x158878, 24768)
    ∷ (0x15C7AB, 8192)
    ∷ (0x15D056, 8192)
    ∷ (0x15D7FD, 8192)
    ∷ (0x15DAAE, 4144)
    ∷ (0x15E0AF, 8192)
    ∷ (0x15E82D, 8192)
    ∷ (0x15E996, 1801)
    ∷ (0x15EFBB, 8192)
    ∷ (0x15F462, 5408)
    ∷ (0x16000B, 25888)
    ∷ (0x163E42, 1024)
    ∷ (0x1640B9, 8192)
    ∷ (0x164C2B, 32000)
    ∷ (0x169A65, 8192)
    ∷ (0x16A403, 26464)
    ∷ (0x16DA1A, 8192)
    ∷ (0x16E2AE, 8192)
    ∷ (0x16EAD2, 8192)
    ∷ (0x16ED2E, 5300)
    ∷ (0x16F177, 8192)
    ∷ (0x16F7CF, 5120)
    ∷ (0x17000A, 27264)
    ∷ (0x174353, 1792)
    ∷ (0x174843, 8192)
    ∷ (0x1752AF, 19904)
    ∷ (0x178393, 352)
    ∷ (0x17848A, 8192)
    ∷ (0x178EAC, 27776)
    ∷ (0x17D096, 512)
    ∷ (0x17D1F9, 8192)
    ∷ (0x17DD54, 3744)
    ∷ (0x17EF0E, 4064)
    ∷ (0x17F875, 3392)
    ∷ (0x18000A, 30656)
    ∷ (0x1844E5, 8192)
    ∷ (0x184D5F, 23200)
    ∷ (0x188898, 3104)
    ∷ (0x18909A, 8192)
    ∷ (0x189B97, 26016)
    ∷ (0x18D846, 8192)
    ∷ (0x18E292, 8960)
    ∷ (0x18F7E3, 8192)
    ∷ (0x190011, 8192)
    ∷ (0x1908FF, 800)
    ∷ (0x190B01, 8192)
    ∷ (0x19104C, 8192)
    ∷ (0x191580, 8192)
    ∷ (0x191E58, 8192)
    ∷ (0x1924A1, 8192)
    ∷ (0x192B62, 8192)
    ∷ (0x192C68, 1516)
    ∷ (0x193162, 8192)
    ∷ (0x19381F, 8192)
    ∷ (0x1940F2, 8192)
    ∷ (0x194A8F, 824)
    ∷ (0x194D52, 4096)
    ∷ (0x195096, 4096)
    ∷ (0x1953DE, 4096)
    ∷ (0x19572A, 4096)
    ∷ (0x195A7E, 4096)
    ∷ (0x195DBD, 4096)
    ∷ (0x196106, 4096)
    ∷ (0x19644B, 4096)
    ∷ (0x196791, 4096)
    ∷ (0x196AD4, 4096)
    ∷ (0x196E14, 4096)
    ∷ (0x197199, 1792)
    ∷ (0x197241, 1728)
    ∷ (0x1972D3, 1664)
    ∷ (0x1973F5, 1600)
    ∷ (0x197530, 2048)
    ∷ (0x197641, 1984)
    ∷ (0x1976E4, 2048)
    ∷ (0x19780D, 2016)
    ∷ []
