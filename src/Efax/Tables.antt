-- ===== src/Efax/Tables.antt =====
-- The T.4 code tables of efax/efaxlib.c: a code with its bits, for each run length.
use secure_e_fax.Prelude.{ℕ, List, [], ◌∷◌}

-- t4tab: code, bits, rlen
pub record T4 : Type 0 where
  pub code : ℕ
  pub bits : ℕ
  pub rlen : ℕ

abbrev c : ℕ → ℕ → ℕ → T4
c code bits rlen = record { code = code; bits = bits; rlen = rlen }

-- wtab: runs of white
unfoldable pub wtab : List T4
wtab =
    c 53 8 0
    ∷ c 7 6 1
    ∷ c 7 4 2
    ∷ c 8 4 3
    ∷ c 11 4 4
    ∷ c 12 4 5
    ∷ c 14 4 6
    ∷ c 15 4 7
    ∷ c 19 5 8
    ∷ c 20 5 9
    ∷ c 7 5 10
    ∷ c 8 5 11
    ∷ c 8 6 12
    ∷ c 3 6 13
    ∷ c 52 6 14
    ∷ c 53 6 15
    ∷ c 42 6 16
    ∷ c 43 6 17
    ∷ c 39 7 18
    ∷ c 12 7 19
    ∷ c 8 7 20
    ∷ c 23 7 21
    ∷ c 3 7 22
    ∷ c 4 7 23
    ∷ c 40 7 24
    ∷ c 43 7 25
    ∷ c 19 7 26
    ∷ c 36 7 27
    ∷ c 24 7 28
    ∷ c 2 8 29
    ∷ c 3 8 30
    ∷ c 26 8 31
    ∷ c 27 8 32
    ∷ c 18 8 33
    ∷ c 19 8 34
    ∷ c 20 8 35
    ∷ c 21 8 36
    ∷ c 22 8 37
    ∷ c 23 8 38
    ∷ c 40 8 39
    ∷ c 41 8 40
    ∷ c 42 8 41
    ∷ c 43 8 42
    ∷ c 44 8 43
    ∷ c 45 8 44
    ∷ c 4 8 45
    ∷ c 5 8 46
    ∷ c 10 8 47
    ∷ c 11 8 48
    ∷ c 82 8 49
    ∷ c 83 8 50
    ∷ c 84 8 51
    ∷ c 85 8 52
    ∷ c 36 8 53
    ∷ c 37 8 54
    ∷ c 88 8 55
    ∷ c 89 8 56
    ∷ c 90 8 57
    ∷ c 91 8 58
    ∷ c 74 8 59
    ∷ c 75 8 60
    ∷ c 50 8 61
    ∷ c 51 8 62
    ∷ c 52 8 63
    ∷ c 27 5 64
    ∷ c 18 5 128
    ∷ c 23 6 192
    ∷ c 55 7 256
    ∷ c 54 8 320
    ∷ c 55 8 384
    ∷ c 100 8 448
    ∷ c 101 8 512
    ∷ c 104 8 576
    ∷ c 103 8 640
    ∷ c 204 9 704
    ∷ c 205 9 768
    ∷ c 210 9 832
    ∷ c 211 9 896
    ∷ c 212 9 960
    ∷ c 213 9 1024
    ∷ c 214 9 1088
    ∷ c 215 9 1152
    ∷ c 216 9 1216
    ∷ c 217 9 1280
    ∷ c 218 9 1344
    ∷ c 219 9 1408
    ∷ c 152 9 1472
    ∷ c 153 9 1536
    ∷ c 154 9 1600
    ∷ c 24 6 1664
    ∷ c 155 9 1728
    ∷ c 8 11 1792
    ∷ c 12 11 1856
    ∷ c 13 11 1920
    ∷ c 18 12 1984
    ∷ c 19 12 2048
    ∷ c 20 12 2112
    ∷ c 21 12 2176
    ∷ c 22 12 2240
    ∷ c 23 12 2304
    ∷ c 28 12 2368
    ∷ c 29 12 2432
    ∷ c 30 12 2496
    ∷ c 31 12 2560
    ∷ []

-- btab: runs of black
unfoldable pub btab : List T4
btab =
    c 55 10 0
    ∷ c 2 3 1
    ∷ c 3 2 2
    ∷ c 2 2 3
    ∷ c 3 3 4
    ∷ c 3 4 5
    ∷ c 2 4 6
    ∷ c 3 5 7
    ∷ c 5 6 8
    ∷ c 4 6 9
    ∷ c 4 7 10
    ∷ c 5 7 11
    ∷ c 7 7 12
    ∷ c 4 8 13
    ∷ c 7 8 14
    ∷ c 24 9 15
    ∷ c 23 10 16
    ∷ c 24 10 17
    ∷ c 8 10 18
    ∷ c 103 11 19
    ∷ c 104 11 20
    ∷ c 108 11 21
    ∷ c 55 11 22
    ∷ c 40 11 23
    ∷ c 23 11 24
    ∷ c 24 11 25
    ∷ c 202 12 26
    ∷ c 203 12 27
    ∷ c 204 12 28
    ∷ c 205 12 29
    ∷ c 104 12 30
    ∷ c 105 12 31
    ∷ c 106 12 32
    ∷ c 107 12 33
    ∷ c 210 12 34
    ∷ c 211 12 35
    ∷ c 212 12 36
    ∷ c 213 12 37
    ∷ c 214 12 38
    ∷ c 215 12 39
    ∷ c 108 12 40
    ∷ c 109 12 41
    ∷ c 218 12 42
    ∷ c 219 12 43
    ∷ c 84 12 44
    ∷ c 85 12 45
    ∷ c 86 12 46
    ∷ c 87 12 47
    ∷ c 100 12 48
    ∷ c 101 12 49
    ∷ c 82 12 50
    ∷ c 83 12 51
    ∷ c 36 12 52
    ∷ c 55 12 53
    ∷ c 56 12 54
    ∷ c 39 12 55
    ∷ c 40 12 56
    ∷ c 88 12 57
    ∷ c 89 12 58
    ∷ c 43 12 59
    ∷ c 44 12 60
    ∷ c 90 12 61
    ∷ c 102 12 62
    ∷ c 103 12 63
    ∷ c 15 10 64
    ∷ c 200 12 128
    ∷ c 201 12 192
    ∷ c 91 12 256
    ∷ c 51 12 320
    ∷ c 52 12 384
    ∷ c 53 12 448
    ∷ c 108 13 512
    ∷ c 109 13 576
    ∷ c 74 13 640
    ∷ c 75 13 704
    ∷ c 76 13 768
    ∷ c 77 13 832
    ∷ c 114 13 896
    ∷ c 115 13 960
    ∷ c 116 13 1024
    ∷ c 117 13 1088
    ∷ c 118 13 1152
    ∷ c 119 13 1216
    ∷ c 82 13 1280
    ∷ c 83 13 1344
    ∷ c 84 13 1408
    ∷ c 85 13 1472
    ∷ c 90 13 1536
    ∷ c 91 13 1600
    ∷ c 100 13 1664
    ∷ c 101 13 1728
    ∷ c 8 11 1792
    ∷ c 12 11 1856
    ∷ c 13 11 1920
    ∷ c 18 12 1984
    ∷ c 19 12 2048
    ∷ c 20 12 2112
    ∷ c 21 12 2176
    ∷ c 22 12 2240
    ∷ c 23 12 2304
    ∷ c 28 12 2368
    ∷ c 29 12 2432
    ∷ c 30 12 2496
    ∷ c 31 12 2560
    ∷ []
