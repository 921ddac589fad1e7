-- ===== src/Streams/Tagged/Part16.antt =====
-- usastreams.py, lines 2264 to 2403: sources and lengths.
use street_fighter_alpha_2_n.Base.{ℕ, List, [], ◌∷◌}

unfoldable pub tagged_16 : List (ℕ × ℕ)
tagged_16 =
    (0x33223E, 2112)
    ∷ (0x332758, 2432)
    ∷ (0x332CEC, 2272)
    ∷ (0x3332E4, 2080)
    ∷ (0x33383C, 2208)
    ∷ (0x333DB6, 768)
    ∷ (0x333F98, 2048)
    ∷ (0x3344C0, 1856)
    ∷ (0x3348DD, 1728)
    ∷ (0x334D38, 2496)
    ∷ (0x3352D9, 2176)
    ∷ (0x335853, 2080)
    ∷ (0x335DAF, 1792)
    ∷ (0x336219, 2144)
    ∷ (0x336770, 1824)
    ∷ (0x336C23, 2272)
    ∷ (0x3371C9, 2176)
    ∷ (0x3376AE, 2272)
    ∷ (0x337C08, 1792)
    ∷ (0x338042, 1728)
    ∷ (0x338456, 2368)
    ∷ (0x338A38, 1952)
    ∷ (0x338F2C, 2496)
    ∷ (0x33953D, 2176)
    ∷ (0x339A44, 2080)
    ∷ (0x339FC9, 2624)
    ∷ (0x33A5CA, 2368)
    ∷ (0x33ABBD, 2624)
    ∷ (0x33B1F6, 2624)
    ∷ (0x33BC91, 2272)
    ∷ (0x33C1D2, 2368)
    ∷ (0x33C711, 2624)
    ∷ (0x33CCB6, 1600)
    ∷ (0x33CFF2, 2208)
    ∷ (0x33D509, 2080)
    ∷ (0x33DA49, 2112)
    ∷ (0x33DF15, 2080)
    ∷ (0x33E3C2, 1952)
    ∷ (0x33E865, 1056)
    ∷ (0x33EAE3, 960)
    ∷ (0x33ED2C, 960)
    ∷ (0x33EFBB, 2912)
    ∷ (0x33F6AE, 1664)
    ∷ (0x33F9BD, 1248)
    ∷ (0x33FC6A, 1728)
    ∷ (0x340000, 2272)
    ∷ (0x34054C, 2144)
    ∷ (0x340A24, 1984)
    ∷ (0x340E8F, 1312)
    ∷ (0x34115E, 2368)
    ∷ (0x3416FB, 2368)
    ∷ (0x341C6B, 2432)
    ∷ (0x3421FC, 3040)
    ∷ (0x34288D, 1824)
    ∷ (0x342CF9, 1760)
    ∷ (0x343126, 2624)
    ∷ (0x343756, 2624)
    ∷ (0x343D5A, 2464)
    ∷ (0x34430E, 2880)
    ∷ (0x34496F, 2688)
    ∷ (0x344F3D, 2624)
    ∷ (0x345501, 1856)
    ∷ (0x3459C2, 1024)
    ∷ (0x345C2E, 1984)
    ∷ (0x3460B6, 1216)
    ∷ (0x34631B, 1280)
    ∷ (0x346595, 1280)
    ∷ (0x346806, 1856)
    ∷ (0x346B50, 1728)
    ∷ (0x346DF4, 1152)
    ∷ (0x34701D, 1984)
    ∷ (0x34745F, 1856)
    ∷ (0x3477FE, 2688)
    ∷ (0x347D44, 2816)
    ∷ (0x3482DE, 1792)
    ∷ (0x34863D, 1344)
    ∷ (0x34890A, 2688)
    ∷ (0x348E47, 2048)
    ∷ (0x34930D, 1792)
    ∷ (0x34968E, 1600)
    ∷ (0x3499F4, 1024)
    ∷ (0x349C23, 1600)
    ∷ (0x349ED7, 2880)
    ∷ (0x34A4CC, 2752)
    ∷ (0x34AA84, 1792)
    ∷ (0x34AE3D, 2880)
    ∷ (0x34B454, 3008)
    ∷ (0x34BA72, 2880)
    ∷ (0x34C053, 2624)
    ∷ (0x34C5CD, 1984)
    ∷ (0x34C9D1, 1856)
    ∷ (0x34CD73, 704)
    ∷ (0x34CF07, 576)
    ∷ (0x34CF9A, 2752)
    ∷ (0x34D50E, 640)
    ∷ (0x34D5B0, 2368)
    ∷ (0x34DAA3, 2368)
    ∷ (0x34DFBD, 2816)
    ∷ (0x34E46C, 1024)
    ∷ (0x34E6B3, 2624)
    ∷ (0x34EB14, 2304)
    ∷ (0x34EFDD, 2304)
    ∷ (0x34F457, 2816)
    ∷ (0x34FA02, 2880)
    ∷ (0x350000, 2688)
    ∷ (0x350551, 2112)
    ∷ (0x350E77, 2688)
    ∷ (0x351365, 2432)
    ∷ (0x35188F, 2048)
    ∷ (0x352158, 2816)
    ∷ (0x3526EA, 2816)
    ∷ (0x352CA6, 2048)
    ∷ (0x353020, 2048)
    ∷ (0x35330D, 1536)
    ∷ (0x3535BB, 1536)
    ∷ (0x353841, 2048)
    ∷ (0x353B69, 1536)
    ∷ (0x353E26, 2752)
    ∷ (0x354397, 2816)
    ∷ (0x354951, 2048)
    ∷ (0x354D79, 2048)
    ∷ (0x355165, 2176)
    ∷ (0x355598, 2112)
    ∷ (0x355A6F, 2048)
    ∷ (0x355DC4, 2880)
    ∷ (0x356402, 3008)
    ∷ (0x356A50, 2496)
    ∷ (0x356F7F, 2304)
    ∷ (0x357489, 1536)
    ∷ (0x3576F5, 2752)
    ∷ (0x357C71, 2368)
    ∷ (0x358162, 2112)
    ∷ (0x3585B4, 1792)
    ∷ (0x358911, 1664)
    ∷ (0x358BCE, 1984)
    ∷ (0x358FE9, 2048)
    ∷ (0x359417, 1600)
    ∷ (0x35978C, 1888)
    ∷ []
