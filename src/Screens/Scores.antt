-- ===== src/Screens/Scores.antt =====
-- src/UImanage/UImanage.cpp: the lists of scores, which are drawn when a task has read them.
pub mod Ranked
use russia_tetris.Base.{
  ℕ, ◌+◌, pos, List, [], ◌∷◌, ◌++◌, Bool, true, false, ltb, leb, ◌==◌, if◌then◌else◌, replicate,
  length, same_text,
}
use russia_tetris.Status.{Status-discrete, login_over}
use russia_tetris.World.{World}
use russia_tetris.Output.Decimal.{to_string}
use russia_tetris.Screens.{Item, wipe, line, render, print_all, menu_col}
use russia_tetris.Screens.Labels.{
  read_failed, three_to_list, no_scores, load_failed, easy_title, normal_title, hard_title,
  top_header,
}

-- PlayerInfo: the best score in one mode, never negative, and when it was reached.
pub record Best : Type 0 where
  pub score : ℕ
  pub timestamp : List ℕ

pub record Player : Type 0 where
  pub playername : List ℕ
  pub easy : Best
  pub normal : Best
  pub difficult : Best

-- name + " " + score + " " + timestamp
abbrev pub entry : (Player → Best) → Player → List ℕ
entry mode p = p.playername ++ (32 ∷ to_string (pos (mode p).score) ++ (32 ∷ (mode p).timestamp))

-- The loop for ten players or fewer: one row for each positive score.
unfoldable pub all_positive : (Player → Best) → ℕ → ℕ → List Player → List Item
all_positive mode row col [] = []
all_positive mode row col (p ∷ ps) = elim (ltb 0 (mode p).score) [
  | true ↦ line row col (entry mode p) ∷ all_positive mode (row + 1) col ps
  | false ↦ all_positive mode row col ps
]

-- The loop for more: it stops at a score of 0, and before the row `last`.
unfoldable pub best_until : (Player → Best) → ℕ → ℕ → ℕ → List Player → List Item
best_until mode row last col [] = []
best_until mode row last col (p ∷ ps) = elim ((mode p).score == 0) [
  | true ↦ []
  | false ↦
      line row col (entry mode p)
      ∷ elim (row + 1 == last) [ true ↦ [] | false ↦ best_until mode (row + 1) last col ps ]
]

-- The same for the easy mode, where the row is counted before it is written.
unfoldable pub best_after : (Player → Best) → ℕ → ℕ → ℕ → List Player → List Item
best_after mode row last col [] = []
best_after mode row last col (p ∷ ps) = elim ((mode p).score == 0) [
  | true ↦ []
  | false ↦
      line (row + 1) col (entry mode p)
      ∷ elim (row + 1 == last) [ true ↦ [] | false ↦ best_after mode (row + 1) last col ps ]
]

unfoldable pub easy_entries : ℕ → ℕ → List Player → List Item
unfolding all_positive best_after
easy_entries row col show =
    if leb (length show) 10
    then all_positive (λ p. p.easy) (row + 3) col show
    else best_after (λ p. p.easy) (row + 3) (row + 13) col show

unfoldable pub later_entries : (Player → Best) → ℕ → ℕ → List Player → List Item
unfolding all_positive best_until
later_entries mode row col show =
    if leb (length show) 10
    then all_positive mode (row + 4) col show
    else best_until mode (row + 4) (row + 14) col show

unfoldable pub show_top_scores_easy : ℕ → ℕ → List Player → List Item
unfolding easy_entries
show_top_scores_easy row col show =
    line row col easy_title ∷ line (row + 2) col top_header ∷ easy_entries row col show

unfoldable pub show_top_scores_normal : ℕ → ℕ → List Player → List Item
unfolding later_entries
show_top_scores_normal row col show =
    line row col normal_title
    ∷ line (row + 2) col top_header
    ∷ later_entries (λ p. p.normal) row col show

unfoldable pub show_top_scores_diffcult : ℕ → ℕ → List Player → List Item
unfolding later_entries
show_top_scores_diffcult row col show =
    line row col hard_title
    ∷ line (row + 2) col top_header
    ∷ later_entries (λ p. p.difficult) row col show

-- string emptyLine(50, ' ')
abbrev pub blank_line : List ℕ
blank_line = replicate 50 32

-- `std::sort` by one score, the greatest first.
module _ (sort : (Player → ℕ) → List Player → List Player) where
  abbrev pub draw_tables : List Player → World → World
  draw_tables players w =
      let easy = sort (λ p. p.easy.score) players in
      let normal = sort (λ p. p.normal.score) easy in
      let difficult = sort (λ p. p.difficult.score) normal in
      let w1 = (render (show_top_scores_easy 8 6 easy) w).1 in
      let w2 = (render (show_top_scores_normal 8 40 normal) w1).1 in
      let w3 = (render (show_top_scores_diffcult 8 74 difficult) w2).1 in
      print_all (line 23 menu_col three_to_list ∷ []) w3

  -- The callback of `showTopScores`.
  unfoldable pub top_scores_read : Bool → List Player → World → World
  unfolding render print_all
  top_scores_read success players w = elim (Status-discrete w.status login_over) [
    | no _ ↦ w
    | yes _ ↦
        if success
        then (let (b, w') = render (wipe ∷ []) (print_all (line 8 menu_col blank_line ∷ []) w) in
            if b then draw_tables players w' else w')
        else print_all (line 8 menu_col load_failed ∷ line 10 menu_col three_to_list ∷ []) w
  ]

unfoldable pub recent_lines : ℕ → List (List ℕ) → List Item
recent_lines row [] = line (row + 1) menu_col three_to_list ∷ []
recent_lines row (r ∷ rs) = line row menu_col r ∷ recent_lines (row + 1) rs

-- Nothing, or the single "1" that stands for no score.
unfoldable pub no_records : List (List ℕ) → Bool
unfolding same_text
no_records [] = true
no_records (r ∷ []) = same_text r (49 ∷ [])
no_records (r ∷ s ∷ rest) = false

-- The callback of `showRecentScores`.
unfoldable pub recent_scores_read : Bool → List (List ℕ) → World → World
unfolding print_all recent_lines no_records
recent_scores_read success result w = elim (Status-discrete w.status login_over) [
  | no _ ↦ w
  | yes _ ↦
      if success
      then (if no_records result
          then print_all (line 8 menu_col no_scores ∷ line 10 menu_col three_to_list ∷ []) w
          else print_all (line 8 menu_col blank_line ∷ recent_lines 8 result) w)
      else print_all (line 8 menu_col read_failed ∷ line 10 menu_col three_to_list ∷ []) w
]
