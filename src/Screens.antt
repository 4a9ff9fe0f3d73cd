-- ===== src/Screens.antt =====
-- src/UImanage/UImanage.cpp: the screens of the menus, as the outputs they make.
pub mod Texts
pub mod Labels
pub mod Notices
pub mod Menus
pub mod Shown
pub mod Scores
use russia_tetris.Base.{ℕ, ℤ, pos, List, [], ◌∷◌, ◌++◌, Bool, true, false, ◌/◌, ◌*◌, replicate}
use russia_tetris.Status.{window_col_count}
use russia_tetris.World.{World}
use russia_tetris.Output.{output, output_text, color_white}
use russia_tetris.Game.Start.{clear_screen}

-- One output of a screen: `UImanage::clear`, or a text at a row and a column.
pub data Item : Type 0 where
  wipe : Item
  line : ℕ → ℕ → List ℕ → Item

unfoldable pub print : Item → World → Bool × World
print wipe w = output w clear_screen
print (line row col text) w = output_text (pos row) (pos col) color_white text (pos 0) w

-- if (!outputText(...)) return false; for each item in turn.
unfoldable pub render : List Item → World → Bool × World
unfolding print
render [] w = (true, w)
render (item ∷ rest) w =
    let (b, w') = print item w in elim b [ true ↦ render rest w' | false ↦ (false, w') ]

-- outputText(...); for each item in turn, the results dropped.
unfoldable pub print_all : List Item → World → World
unfolding print
print_all [] w = w
print_all (item ∷ rest) w = print_all rest (print item w).1

-- 2 * (WINDOW_COL_COUNT / 3)
abbrev pub menu_col : ℕ
menu_col = 2 * (window_col_count / 3)

-- WINDOW_ROW_COUNT / 2
abbrev pub middle : ℕ
middle = 12

-- string emptyLine(4 * WINDOW_COL_COUNT, ' ')
abbrev pub empty_line : List ℕ
empty_line = replicate 80 32

-- A row made empty, then a text on it.
abbrev pub replace_line : ℕ → List ℕ → List Item
replace_line row text = line row 1 empty_line ∷ line row menu_col text ∷ []
