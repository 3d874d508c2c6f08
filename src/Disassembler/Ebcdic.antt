-- ===== src/Disassembler/Ebcdic.antt =====
-- The bytes that Disassembler/disassembler_v7.c takes for text.
use mitra_15_for_simh.Prelude.{
  ℕ, Bool, true, false, ◌&&◌, ◌||◌, [], ◌∷◌, ◌==◌, leb, if◌then◌else◌, switch,
}

-- The entries of the table other than 0.
unfoldable pub ebcdic_to_ascii : ℕ → ℕ
ebcdic_to_ascii b =
    switch b
      ((0x01, 1)
        ∷ (0x02, 2)
        ∷ (0x03, 3)
        ∷ (0x05, 9)
        ∷ (0x07, 127)
        ∷ (0x0b, 11)
        ∷ (0x0c, 12)
        ∷ (0x0d, 13)
        ∷ (0x0e, 14)
        ∷ (0x0f, 15)
        ∷ (0x10, 16)
        ∷ (0x11, 17)
        ∷ (0x12, 18)
        ∷ (0x13, 19)
        ∷ (0x16, 8)
        ∷ (0x18, 24)
        ∷ (0x19, 25)
        ∷ (0x1c, 28)
        ∷ (0x1d, 29)
        ∷ (0x1e, 30)
        ∷ (0x1f, 31)
        ∷ (0x25, 10)
        ∷ (0x26, 23)
        ∷ (0x27, 27)
        ∷ (0x2d, 5)
        ∷ (0x2e, 6)
        ∷ (0x2f, 7)
        ∷ (0x32, 22)
        ∷ (0x37, 4)
        ∷ (0x3c, 20)
        ∷ (0x3d, 21)
        ∷ (0x3f, 26)
        ∷ (0x40, 32)
        ∷ (0x4b, 46)
        ∷ (0x4c, 60)
        ∷ (0x4d, 40)
        ∷ (0x4e, 43)
        ∷ (0x4f, 124)
        ∷ (0x50, 38)
        ∷ (0x5a, 33)
        ∷ (0x5b, 36)
        ∷ (0x5c, 42)
        ∷ (0x5d, 41)
        ∷ (0x5e, 59)
        ∷ (0x60, 45)
        ∷ (0x61, 47)
        ∷ (0x6b, 44)
        ∷ (0x6c, 37)
        ∷ (0x6d, 95)
        ∷ (0x6e, 62)
        ∷ (0x6f, 63)
        ∷ (0x79, 96)
        ∷ (0x7a, 58)
        ∷ (0x7b, 35)
        ∷ (0x7c, 64)
        ∷ (0x7d, 39)
        ∷ (0x7e, 61)
        ∷ (0x7f, 34)
        ∷ (0x81, 97)
        ∷ (0x82, 98)
        ∷ (0x83, 99)
        ∷ (0x84, 100)
        ∷ (0x85, 101)
        ∷ (0x86, 102)
        ∷ (0x87, 103)
        ∷ (0x88, 104)
        ∷ (0x89, 105)
        ∷ (0x91, 106)
        ∷ (0x92, 107)
        ∷ (0x93, 108)
        ∷ (0x94, 109)
        ∷ (0x95, 110)
        ∷ (0x96, 111)
        ∷ (0x97, 112)
        ∷ (0x98, 113)
        ∷ (0x99, 114)
        ∷ (0xa1, 126)
        ∷ (0xa2, 115)
        ∷ (0xa3, 116)
        ∷ (0xa4, 117)
        ∷ (0xa5, 118)
        ∷ (0xa6, 119)
        ∷ (0xa7, 120)
        ∷ (0xa8, 121)
        ∷ (0xa9, 122)
        ∷ (0xb0, 94)
        ∷ (0xba, 91)
        ∷ (0xbb, 93)
        ∷ (0xc0, 123)
        ∷ (0xc1, 65)
        ∷ (0xc2, 66)
        ∷ (0xc3, 67)
        ∷ (0xc4, 68)
        ∷ (0xc5, 69)
        ∷ (0xc6, 70)
        ∷ (0xc7, 71)
        ∷ (0xc8, 72)
        ∷ (0xc9, 73)
        ∷ (0xd0, 125)
        ∷ (0xd1, 74)
        ∷ (0xd2, 75)
        ∷ (0xd3, 76)
        ∷ (0xd4, 77)
        ∷ (0xd5, 78)
        ∷ (0xd6, 79)
        ∷ (0xd7, 80)
        ∷ (0xd8, 81)
        ∷ (0xd9, 82)
        ∷ (0xe0, 92)
        ∷ (0xe2, 83)
        ∷ (0xe3, 84)
        ∷ (0xe4, 85)
        ∷ (0xe5, 86)
        ∷ (0xe6, 87)
        ∷ (0xe7, 88)
        ∷ (0xe8, 89)
        ∷ (0xe9, 90)
        ∷ (0xf0, 48)
        ∷ (0xf1, 49)
        ∷ (0xf2, 50)
        ∷ (0xf3, 51)
        ∷ (0xf4, 52)
        ∷ (0xf5, 53)
        ∷ (0xf6, 54)
        ∷ (0xf7, 55)
        ∷ (0xf8, 56)
        ∷ (0xf9, 57)
        ∷ [])
      0

unfoldable pub is_ebcdic_punct_ascii : (a : ℕ) → Bool
unfolding switch
is_ebcdic_punct_ascii a =
    switch a
      ((32, true)
        ∷ (46, true)
        ∷ (44, true)
        ∷ (58, true)
        ∷ (59, true)
        ∷ (39, true)
        ∷ (34, true)
        ∷ (33, true)
        ∷ (63, true)
        ∷ (45, true)
        ∷ (47, true)
        ∷ (42, true)
        ∷ (43, true)
        ∷ (61, true)
        ∷ (40, true)
        ∷ (41, true)
        ∷ (64, true)
        ∷ (38, true)
        ∷ (95, true)
        ∷ (37, true)
        ∷ [])
      false

unfoldable pub is_ebcdic_text_byte : (b : ℕ) → Bool
unfolding ebcdic_to_ascii is_ebcdic_punct_ascii
is_ebcdic_text_byte b =
    let a : ℕ = ebcdic_to_ascii b in
    if a == 0
    then false
    else leb 65 a && leb a 90
      || (leb 97 a && leb a 122 || leb 48 a && leb a 57)
      || is_ebcdic_punct_ascii a
