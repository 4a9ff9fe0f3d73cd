-- ===== src/Game/Blocks.antt =====
-- `Game::blockDefines` and `Game::InitBlockInfo` (src/TetrisGame/Game.cpp).
pub mod Forms
use russia_tetris.Base.{
  ℕ, zero, suc, ◌+◌, ◌-◌, ◌*◌, List, [], ◌∷◌, Bool, true, false, Option, none, some, get_elem?, set,
  update_at, replicate, ◌==◌,
}

-- `int space[4][4]`, row by row, and the array `Block blockDefines[7][4]`.
abbrev pub Block : Type 0
Block = List ℕ

abbrev pub Blocks : Type 0
Blocks = List (List Block)

-- enum Shape
abbrev pub shape_t : ℕ
shape_t = 0

abbrev pub shape_l : ℕ
shape_l = 1

abbrev pub shape_j : ℕ
shape_j = 2

abbrev pub shape_z : ℕ
shape_z = 3

abbrev pub shape_s : ℕ
shape_s = 4

abbrev pub shape_o : ℕ
shape_o = 5

abbrev pub shape_i : ℕ
shape_i = 6

zeros : Blocks
zeros = replicate 7 (replicate 4 (replicate 16 0))

-- blockDefines[shape][form].space[i][j] = v
put : ℕ → ℕ → ℕ → ℕ → ℕ → Blocks → Blocks
put shape form i j v = λ b. update_at b shape λ fs. update_at fs form λ s. set s (4 * i + j) v

get_or_zero : Option ℕ → ℕ
get_or_zero none = 0
get_or_zero (some v) = v

at_block : List Block → ℕ → ℕ → ℕ → Option ℕ
at_block fs form i j = elim (get_elem? fs form) [ none ↦ none | some s ↦ get_elem? s (4 * i + j) ]

-- blockDefines[shape][form].space[i][j]
at : Blocks → ℕ → ℕ → ℕ → ℕ → Option ℕ
unfolding at_block
at b shape form i j = elim (get_elem? b shape) [ none ↦ none | some fs ↦ at_block fs form i j ]

-- for (int i = first; i < first + n; i++) s = body(i, s);
loop {ℓ} : {S : Type ℓ} → ℕ → ℕ → (ℕ → S → S) → S → S
loop zero i body s = s
loop (suc n) i body s = loop n (i + 1) body (body i s)

-- The first forms of the seven shapes.
first_forms : Blocks → Blocks
unfolding put loop
first_forms b =
    let t = put shape_t 0 2 1 1 (loop 3 0 (λ i. put shape_t 0 1 i 1) b) in
    let l = put shape_l 0 3 2 1 (loop 3 1 (λ i. put shape_l 0 i 1 1) t) in
    let j = put shape_j 0 3 1 1 (loop 3 1 (λ i. put shape_j 0 i 2 1) l) in
    let zso =
      loop 2 0
        (λ i s. put shape_o 0 2 (i + 1) 1 (
          put shape_o 0 1 (i + 1) 1 (
            put shape_s 0 2 i 1
              (put shape_s 0 1 (i + 1) 1 (put shape_z 0 2 (i + 1) 1 (put shape_z 0 1 i 1 s))))))
        j in
    loop 4 0 (λ i. put shape_i 0 i 1 1) zso

-- Form `form + 1` is form `form`, read into `temp`, turned clockwise.
turn : ℕ → ℕ → Blocks → Blocks
unfolding put loop at get_or_zero
turn shape form b =
    loop 4 0
      (λ i s.
        loop 4 0 (λ j s'. put shape (form + 1) i j (get_or_zero (at b shape form (3 - j) i)) s') s)
      b

init_block_info : Blocks → Blocks
unfolding first_forms turn loop
init_block_info b = loop 7 0 (λ shape s. loop 3 0 (turn shape) s) (first_forms b)

-- The array as `InitBlockInfo` fills it from the zeros of its initialiser.
block_defines : Blocks
unfolding init_block_info zeros
block_defines = init_block_info zeros

-- `none` is an index out of the array.
unfoldable pub space : ℕ → ℕ → ℕ → ℕ → Option ℕ
unfolding at block_defines
space shape form i j = at block_defines shape form i j
