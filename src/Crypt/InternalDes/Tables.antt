-- ===== src/Crypt/InternalDes/Tables.antt =====
-- The tables of muggle/c/crypt/internal/internal_des.c: for a word, the bits that move and the places
-- that they move to; and the substitution boxes.
use muggle_cc.Base.{ℕ, List, [], ◌∷◌}

unfoldable pub des_ip_l : List (ℕ × ℕ)
des_ip_l =
    (57, 0)
    ∷ (49, 1)
    ∷ (41, 2)
    ∷ (33, 3)
    ∷ (25, 4)
    ∷ (17, 5)
    ∷ (9, 6)
    ∷ (1, 7)
    ∷ (59, 8)
    ∷ (51, 9)
    ∷ (43, 10)
    ∷ (35, 11)
    ∷ (27, 12)
    ∷ (19, 13)
    ∷ (11, 14)
    ∷ (3, 15)
    ∷ (61, 16)
    ∷ (53, 17)
    ∷ (45, 18)
    ∷ (37, 19)
    ∷ (29, 20)
    ∷ (21, 21)
    ∷ (13, 22)
    ∷ (5, 23)
    ∷ (63, 24)
    ∷ (55, 25)
    ∷ (47, 26)
    ∷ (39, 27)
    ∷ (31, 28)
    ∷ (23, 29)
    ∷ (15, 30)
    ∷ (7, 31)
    ∷ []

unfoldable pub des_ip_h : List (ℕ × ℕ)
des_ip_h =
    (56, 0)
    ∷ (48, 1)
    ∷ (40, 2)
    ∷ (32, 3)
    ∷ (24, 4)
    ∷ (16, 5)
    ∷ (8, 6)
    ∷ (0, 7)
    ∷ (58, 8)
    ∷ (50, 9)
    ∷ (42, 10)
    ∷ (34, 11)
    ∷ (26, 12)
    ∷ (18, 13)
    ∷ (10, 14)
    ∷ (2, 15)
    ∷ (60, 16)
    ∷ (52, 17)
    ∷ (44, 18)
    ∷ (36, 19)
    ∷ (28, 20)
    ∷ (20, 21)
    ∷ (12, 22)
    ∷ (4, 23)
    ∷ (62, 24)
    ∷ (54, 25)
    ∷ (46, 26)
    ∷ (38, 27)
    ∷ (30, 28)
    ∷ (22, 29)
    ∷ (14, 30)
    ∷ (6, 31)
    ∷ []

unfoldable pub des_fp_l : List (ℕ × ℕ)
des_fp_l =
    (39, 0)
    ∷ (7, 1)
    ∷ (47, 2)
    ∷ (15, 3)
    ∷ (55, 4)
    ∷ (23, 5)
    ∷ (63, 6)
    ∷ (31, 7)
    ∷ (38, 8)
    ∷ (6, 9)
    ∷ (46, 10)
    ∷ (14, 11)
    ∷ (54, 12)
    ∷ (22, 13)
    ∷ (62, 14)
    ∷ (30, 15)
    ∷ (37, 16)
    ∷ (5, 17)
    ∷ (45, 18)
    ∷ (13, 19)
    ∷ (53, 20)
    ∷ (21, 21)
    ∷ (61, 22)
    ∷ (29, 23)
    ∷ (36, 24)
    ∷ (4, 25)
    ∷ (44, 26)
    ∷ (12, 27)
    ∷ (52, 28)
    ∷ (20, 29)
    ∷ (60, 30)
    ∷ (28, 31)
    ∷ []

unfoldable pub des_fp_h : List (ℕ × ℕ)
des_fp_h =
    (35, 0)
    ∷ (3, 1)
    ∷ (43, 2)
    ∷ (11, 3)
    ∷ (51, 4)
    ∷ (19, 5)
    ∷ (59, 6)
    ∷ (27, 7)
    ∷ (34, 8)
    ∷ (2, 9)
    ∷ (42, 10)
    ∷ (10, 11)
    ∷ (50, 12)
    ∷ (18, 13)
    ∷ (58, 14)
    ∷ (26, 15)
    ∷ (33, 16)
    ∷ (1, 17)
    ∷ (41, 18)
    ∷ (9, 19)
    ∷ (49, 20)
    ∷ (17, 21)
    ∷ (57, 22)
    ∷ (25, 23)
    ∷ (32, 24)
    ∷ (0, 25)
    ∷ (40, 26)
    ∷ (8, 27)
    ∷ (48, 28)
    ∷ (16, 29)
    ∷ (56, 30)
    ∷ (24, 31)
    ∷ []

unfoldable pub des_p_table : List (ℕ × ℕ)
des_p_table =
    (15, 0)
    ∷ (6, 1)
    ∷ (19, 2)
    ∷ (20, 3)
    ∷ (28, 4)
    ∷ (11, 5)
    ∷ (27, 6)
    ∷ (16, 7)
    ∷ (0, 8)
    ∷ (14, 9)
    ∷ (22, 10)
    ∷ (25, 11)
    ∷ (4, 12)
    ∷ (17, 13)
    ∷ (30, 14)
    ∷ (9, 15)
    ∷ (1, 16)
    ∷ (7, 17)
    ∷ (23, 18)
    ∷ (13, 19)
    ∷ (31, 20)
    ∷ (26, 21)
    ∷ (2, 22)
    ∷ (8, 23)
    ∷ (18, 24)
    ∷ (12, 25)
    ∷ (29, 26)
    ∷ (5, 27)
    ∷ (21, 28)
    ∷ (10, 29)
    ∷ (3, 30)
    ∷ (24, 31)
    ∷ []

unfoldable pub des_pc1_l : List (ℕ × ℕ)
des_pc1_l =
    (56, 0)
    ∷ (48, 1)
    ∷ (40, 2)
    ∷ (32, 3)
    ∷ (24, 4)
    ∷ (16, 5)
    ∷ (8, 6)
    ∷ (0, 7)
    ∷ (57, 8)
    ∷ (49, 9)
    ∷ (41, 10)
    ∷ (33, 11)
    ∷ (25, 12)
    ∷ (17, 13)
    ∷ (9, 14)
    ∷ (1, 15)
    ∷ (58, 16)
    ∷ (50, 17)
    ∷ (42, 18)
    ∷ (34, 19)
    ∷ (26, 20)
    ∷ (18, 21)
    ∷ (10, 22)
    ∷ (2, 23)
    ∷ (59, 24)
    ∷ (51, 25)
    ∷ (43, 26)
    ∷ (35, 27)
    ∷ []

unfoldable pub des_pc1_h : List (ℕ × ℕ)
des_pc1_h =
    (62, 0)
    ∷ (54, 1)
    ∷ (46, 2)
    ∷ (38, 3)
    ∷ (30, 4)
    ∷ (22, 5)
    ∷ (14, 6)
    ∷ (6, 7)
    ∷ (61, 8)
    ∷ (53, 9)
    ∷ (45, 10)
    ∷ (37, 11)
    ∷ (29, 12)
    ∷ (21, 13)
    ∷ (13, 14)
    ∷ (5, 15)
    ∷ (60, 16)
    ∷ (52, 17)
    ∷ (44, 18)
    ∷ (36, 19)
    ∷ (28, 20)
    ∷ (20, 21)
    ∷ (12, 22)
    ∷ (4, 23)
    ∷ (27, 24)
    ∷ (19, 25)
    ∷ (11, 26)
    ∷ (3, 27)
    ∷ []

unfoldable pub s_muggle_des_sbox_table : List (List ℕ)
s_muggle_des_sbox_table =
    (14 ∷ 4 ∷ 13 ∷ 1 ∷ 2 ∷ 15 ∷ 11 ∷ 8 ∷ 3 ∷ 10 ∷ 6 ∷ 12 ∷ 5 ∷ 9 ∷ 0 ∷ 7 ∷ 0 ∷ 15 ∷ 7 ∷ 4 ∷ 14 ∷ 2
      ∷ 13 ∷ 1 ∷ 10 ∷ 6 ∷ 12 ∷ 11 ∷ 9 ∷ 5 ∷ 3 ∷ 8 ∷ 4 ∷ 1 ∷ 14 ∷ 8 ∷ 13 ∷ 6 ∷ 2 ∷ 11 ∷ 15 ∷ 12 ∷ 9
      ∷ 7 ∷ 3 ∷ 10 ∷ 5 ∷ 0 ∷ 15 ∷ 12 ∷ 8 ∷ 2 ∷ 4 ∷ 9 ∷ 1 ∷ 7 ∷ 5 ∷ 11 ∷ 3 ∷ 14 ∷ 10 ∷ 0 ∷ 6 ∷ 13
      ∷ [])
    ∷ (15 ∷ 1 ∷ 8 ∷ 14 ∷ 6 ∷ 11 ∷ 3 ∷ 4 ∷ 9 ∷ 7 ∷ 2 ∷ 13 ∷ 12 ∷ 0 ∷ 5 ∷ 10 ∷ 3 ∷ 13 ∷ 4 ∷ 7 ∷ 15 ∷ 2
        ∷ 8 ∷ 14 ∷ 12 ∷ 0 ∷ 1 ∷ 10 ∷ 6 ∷ 9 ∷ 11 ∷ 5 ∷ 0 ∷ 14 ∷ 7 ∷ 11 ∷ 10 ∷ 4 ∷ 13 ∷ 1 ∷ 5 ∷ 8 ∷ 12
        ∷ 6 ∷ 9 ∷ 3 ∷ 2 ∷ 15 ∷ 13 ∷ 8 ∷ 10 ∷ 1 ∷ 3 ∷ 15 ∷ 4 ∷ 2 ∷ 11 ∷ 6 ∷ 7 ∷ 12 ∷ 0 ∷ 5 ∷ 14 ∷ 9
        ∷ [])
    ∷ (10 ∷ 0 ∷ 9 ∷ 14 ∷ 6 ∷ 3 ∷ 15 ∷ 5 ∷ 1 ∷ 13 ∷ 12 ∷ 7 ∷ 11 ∷ 4 ∷ 2 ∷ 8 ∷ 13 ∷ 7 ∷ 0 ∷ 9 ∷ 3 ∷ 4
        ∷ 6 ∷ 10 ∷ 2 ∷ 8 ∷ 5 ∷ 14 ∷ 12 ∷ 11 ∷ 15 ∷ 1 ∷ 13 ∷ 6 ∷ 4 ∷ 9 ∷ 8 ∷ 15 ∷ 3 ∷ 0 ∷ 11 ∷ 1 ∷ 2
        ∷ 12 ∷ 5 ∷ 10 ∷ 14 ∷ 7 ∷ 1 ∷ 10 ∷ 13 ∷ 0 ∷ 6 ∷ 9 ∷ 8 ∷ 7 ∷ 4 ∷ 15 ∷ 14 ∷ 3 ∷ 11 ∷ 5 ∷ 2 ∷ 12
        ∷ [])
    ∷ (7 ∷ 13 ∷ 14 ∷ 3 ∷ 0 ∷ 6 ∷ 9 ∷ 10 ∷ 1 ∷ 2 ∷ 8 ∷ 5 ∷ 11 ∷ 12 ∷ 4 ∷ 15 ∷ 13 ∷ 8 ∷ 11 ∷ 5 ∷ 6
        ∷ 15 ∷ 0 ∷ 3 ∷ 4 ∷ 7 ∷ 2 ∷ 12 ∷ 1 ∷ 10 ∷ 14 ∷ 9 ∷ 10 ∷ 6 ∷ 9 ∷ 0 ∷ 12 ∷ 11 ∷ 7 ∷ 13 ∷ 15 ∷ 1
        ∷ 3 ∷ 14 ∷ 5 ∷ 2 ∷ 8 ∷ 4 ∷ 3 ∷ 15 ∷ 0 ∷ 6 ∷ 10 ∷ 1 ∷ 13 ∷ 8 ∷ 9 ∷ 4 ∷ 5 ∷ 11 ∷ 12 ∷ 7 ∷ 2
        ∷ 14 ∷ [])
    ∷ (2 ∷ 12 ∷ 4 ∷ 1 ∷ 7 ∷ 10 ∷ 11 ∷ 6 ∷ 8 ∷ 5 ∷ 3 ∷ 15 ∷ 13 ∷ 0 ∷ 14 ∷ 9 ∷ 14 ∷ 11 ∷ 2 ∷ 12 ∷ 4
        ∷ 7 ∷ 13 ∷ 1 ∷ 5 ∷ 0 ∷ 15 ∷ 10 ∷ 3 ∷ 9 ∷ 8 ∷ 6 ∷ 4 ∷ 2 ∷ 1 ∷ 11 ∷ 10 ∷ 13 ∷ 7 ∷ 8 ∷ 15 ∷ 9
        ∷ 12 ∷ 5 ∷ 6 ∷ 3 ∷ 0 ∷ 14 ∷ 11 ∷ 8 ∷ 12 ∷ 7 ∷ 1 ∷ 14 ∷ 2 ∷ 13 ∷ 6 ∷ 15 ∷ 0 ∷ 9 ∷ 10 ∷ 4 ∷ 5
        ∷ 3 ∷ [])
    ∷ (12 ∷ 1 ∷ 10 ∷ 15 ∷ 9 ∷ 2 ∷ 6 ∷ 8 ∷ 0 ∷ 13 ∷ 3 ∷ 4 ∷ 14 ∷ 7 ∷ 5 ∷ 11 ∷ 10 ∷ 15 ∷ 4 ∷ 2 ∷ 7
        ∷ 12 ∷ 9 ∷ 5 ∷ 6 ∷ 1 ∷ 13 ∷ 14 ∷ 0 ∷ 11 ∷ 3 ∷ 8 ∷ 9 ∷ 14 ∷ 15 ∷ 5 ∷ 2 ∷ 8 ∷ 12 ∷ 3 ∷ 7 ∷ 0
        ∷ 4 ∷ 10 ∷ 1 ∷ 13 ∷ 11 ∷ 6 ∷ 4 ∷ 3 ∷ 2 ∷ 12 ∷ 9 ∷ 5 ∷ 15 ∷ 10 ∷ 11 ∷ 14 ∷ 1 ∷ 7 ∷ 6 ∷ 0 ∷ 8
        ∷ 13 ∷ [])
    ∷ (4 ∷ 11 ∷ 2 ∷ 14 ∷ 15 ∷ 0 ∷ 8 ∷ 13 ∷ 3 ∷ 12 ∷ 9 ∷ 7 ∷ 5 ∷ 10 ∷ 6 ∷ 1 ∷ 13 ∷ 0 ∷ 11 ∷ 7 ∷ 4 ∷ 9
        ∷ 1 ∷ 10 ∷ 14 ∷ 3 ∷ 5 ∷ 12 ∷ 2 ∷ 15 ∷ 8 ∷ 6 ∷ 1 ∷ 4 ∷ 11 ∷ 13 ∷ 12 ∷ 3 ∷ 7 ∷ 14 ∷ 10 ∷ 15
        ∷ 6 ∷ 8 ∷ 0 ∷ 5 ∷ 9 ∷ 2 ∷ 6 ∷ 11 ∷ 13 ∷ 8 ∷ 1 ∷ 4 ∷ 10 ∷ 7 ∷ 9 ∷ 5 ∷ 0 ∷ 15 ∷ 14 ∷ 2 ∷ 3
        ∷ 12 ∷ [])
    ∷ (13 ∷ 2 ∷ 8 ∷ 4 ∷ 6 ∷ 15 ∷ 11 ∷ 1 ∷ 10 ∷ 9 ∷ 3 ∷ 14 ∷ 5 ∷ 0 ∷ 12 ∷ 7 ∷ 1 ∷ 15 ∷ 13 ∷ 8 ∷ 10
        ∷ 3 ∷ 7 ∷ 4 ∷ 12 ∷ 5 ∷ 6 ∷ 11 ∷ 0 ∷ 14 ∷ 9 ∷ 2 ∷ 7 ∷ 11 ∷ 4 ∷ 1 ∷ 9 ∷ 12 ∷ 14 ∷ 2 ∷ 0 ∷ 6
        ∷ 10 ∷ 13 ∷ 15 ∷ 3 ∷ 5 ∷ 8 ∷ 2 ∷ 1 ∷ 14 ∷ 7 ∷ 4 ∷ 10 ∷ 8 ∷ 13 ∷ 15 ∷ 12 ∷ 9 ∷ 0 ∷ 3 ∷ 5 ∷ 6
        ∷ 11 ∷ [])
    ∷ []
