-- ===== src/Streams/Tagged/Part0.antt =====
-- usastreams.py, lines 24 to 163: sources and lengths.
use street_fighter_alpha_2_n.Base.{ℕ, List, [], ◌∷◌}

unfoldable pub tagged_0 : List (ℕ × ℕ)
tagged_0 =
    (0x007890, 832)
    ∷ (0x007998, 832)
    ∷ (0x007A65, 832)
    ∷ (0x007B01, 832)
    ∷ (0x007BA6, 832)
    ∷ (0x007C0E, 560)
    ∷ (0x007C41, 832)
    ∷ (0x007CC9, 832)
    ∷ (0x007D2A, 832)
    ∷ (0x007DA4, 832)
    ∷ (0x130000, 1152)
    ∷ (0x1302EF, 8192)
    ∷ (0x130E9D, 2048)
    ∷ (0x131150, 2048)
    ∷ (0x131195, 2048)
    ∷ (0x131490, 2048)
    ∷ (0x1316C4, 2048)
    ∷ (0x1318AC, 2048)
    ∷ (0x131BC2, 3488)
    ∷ (0x13223B, 3008)
    ∷ (0x132814, 2304)
    ∷ (0x132C08, 1056)
    ∷ (0x132D8B, 2048)
    ∷ (0x132DC0, 2048)
    ∷ (0x132E7E, 2048)
    ∷ (0x132F4B, 2048)
    ∷ (0x1330FD, 2048)
    ∷ (0x13331A, 2048)
    ∷ (0x1333F7, 2048)
    ∷ (0x1334D7, 2048)
    ∷ (0x13357E, 2048)
    ∷ (0x1335F9, 4000)
    ∷ (0x1339DC, 2048)
    ∷ (0x133AA6, 2048)
    ∷ (0x133C0A, 2048)
    ∷ (0x133DD8, 2048)
    ∷ (0x133F37, 2048)
    ∷ (0x1340C4, 2048)
    ∷ (0x1341B1, 2048)
    ∷ (0x1342AD, 2048)
    ∷ (0x134327, 19008)
    ∷ (0x1372B4, 8192)
    ∷ (0x137B2E, 27648)
    ∷ (0x13C03B, 1536)
    ∷ (0x13C3F8, 8192)
    ∷ (0x13CE4D, 19904)
    ∷ (0x140011, 24576)
    ∷ (0x143C58, 1024)
    ∷ (0x143E7E, 8192)
    ∷ (0x1447CC, 17920)
    ∷ (0x146E3A, 1120)
    ∷ (0x14702A, 8192)
    ∷ (0x147A77, 28832)
    ∷ (0x14B8DE, 8192)
    ∷ (0x14C11B, 25888)
    ∷ (0x150002, 27584)
    ∷ (0x154508, 8192)
    ∷ (0x155086, 22368)
    ∷ (0x158969, 8192)
    ∷ (0x15940D, 25248)
    ∷ (0x15D3B4, 2144)
    ∷ (0x15D8B5, 8192)
    ∷ (0x15E36B, 8192)
    ∷ (0x15EEC6, 8192)
    ∷ (0x16000F, 24064)
    ∷ (0x16390E, 8192)
    ∷ (0x1641C9, 1024)
    ∷ (0x164440, 8192)
    ∷ (0x164FB2, 32000)
    ∷ (0x169DEC, 8192)
    ∷ (0x16A78A, 26464)
    ∷ (0x16DDA1, 8192)
    ∷ (0x16E635, 6656)
    ∷ (0x16F7EC, 2048)
    ∷ (0x16FA4E, 2048)
    ∷ (0x16FB45, 8192)
    ∷ (0x17000C, 27264)
    ∷ (0x174355, 1792)
    ∷ (0x174845, 8192)
    ∷ (0x1752B1, 352)
    ∷ (0x1753A8, 8192)
    ∷ (0x175DCA, 27776)
    ∷ (0x179FB4, 512)
    ∷ (0x17A117, 30656)
    ∷ (0x17E5F2, 8192)
    ∷ (0x17EE6C, 8192)
    ∷ (0x17F71E, 8192)
    ∷ (0x180006, 23200)
    ∷ (0x183B3F, 3104)
    ∷ (0x184341, 8192)
    ∷ (0x184E3E, 26016)
    ∷ (0x188AED, 8192)
    ∷ (0x189539, 16384)
    ∷ (0x18AA8A, 8192)
    ∷ (0x18B378, 800)
    ∷ (0x18B57A, 8192)
    ∷ (0x18BD21, 8192)
    ∷ (0x18C49F, 8192)
    ∷ (0x18CC2D, 8192)
    ∷ (0x18D178, 8192)
    ∷ (0x18D99C, 8192)
    ∷ (0x18E041, 8192)
    ∷ (0x18E575, 8192)
    ∷ (0x18EBCD, 8192)
    ∷ (0x18F216, 8192)
    ∷ (0x18F8D7, 8192)
    ∷ (0x18FED7, 2048)
    ∷ (0x190008, 8192)
    ∷ (0x1906C5, 8192)
    ∷ (0x190EB3, 8192)
    ∷ (0x191786, 8192)
    ∷ (0x191E85, 8192)
    ∷ (0x1923E6, 5408)
    ∷ (0x192F5F, 4096)
    ∷ (0x1932A3, 4096)
    ∷ (0x1935EB, 4096)
    ∷ (0x193937, 4096)
    ∷ (0x193C8B, 4096)
    ∷ (0x193FCA, 4096)
    ∷ (0x194313, 4096)
    ∷ (0x194658, 4096)
    ∷ (0x19499E, 4096)
    ∷ (0x194CE1, 4096)
    ∷ (0x195021, 4096)
    ∷ (0x1953A6, 1792)
    ∷ (0x19544E, 1728)
    ∷ (0x1954E0, 1664)
    ∷ (0x195602, 1600)
    ∷ (0x19573D, 1984)
    ∷ (0x1957E0, 2048)
    ∷ (0x195909, 2016)
    ∷ (0x1959E6, 3584)
    ∷ (0x195E37, 480)
    ∷ []
