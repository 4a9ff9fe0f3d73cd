-- ===== src/Game/Board/Access.antt =====
-- Reads and writes of the two arrays at an index in range.
use russia_tetris.Base.{ℕ, ◌<◌, ◌≡◌, ◌⊎◌, ℤ, pos, pos_part, some, arith}
use russia_tetris.World.{World, Play, set_play}
use russia_tetris.Game.Board.{update, get_data, get_color, set_data, set_color}
use russia_tetris.Game.Board.Legal.{InField, index-InField}

module _ (i j : ℕ) (hi : i < 24) (hj : j < 30) where
  pub get_data_in : (p : Play) → get_data p (pos i) (pos j) ≡ some (p.cells i j)
  unfolding get_data
  get_data_in p = ground arith

  pub get_color_in : (p : Play) → get_color p (pos i) (pos j) ≡ some (p.colors i j)
  unfolding get_color
  get_color_in p = ground arith

  pub set_data_in :
      (v : ℕ) (w : World)
      → set_data (pos i) (pos j) v w
        ≡ some (tt, set_play w (record w.play { cells = update w.cells i j v }))
  unfolding set_data
  set_data_in v w = ground arith

  pub set_color_in :
      (v : ℤ) (w : World)
      → set_color (pos i) (pos j) v w
        ≡ some (tt, set_play w (record w.play { colors = update w.colors i j v }))
  unfolding set_color
  set_color_in v w = ground arith

module _ (r c : ℤ) (h : InField r c) where
  pub set_data-InField :
      (v : ℕ) (w : World)
      → set_data r c v w
        ≡ some
            (tt, set_play w (record w.play { cells = update w.cells (pos_part r) (pos_part c) v }))
  unfolding set_data
  set_data-InField v w = rw (index-InField r c h, set_data)

  pub set_color-InField :
      (v : ℤ) (w : World)
      → set_color r c v w
        ≡ some (
          tt,
          set_play w (record w.play { colors = update w.colors (pos_part r) (pos_part c) v }),
        )
  unfolding set_color
  set_color-InField v w = rw (index-InField r c h, set_color)

-- A read after a write.
pub update_cases {ℓ} :
    {A : Type ℓ} (c : ℕ → ℕ → A) (i j : ℕ) (v : A) (a b : ℕ)
    → (a ≡ i) × (b ≡ j) × (update c i j v a b ≡ v) ⊎ (update c i j v a b ≡ c a b)
unfolding update
update_cases c i j v a b = ground arith

pub update_self {ℓ} : {A : Type ℓ} (c : ℕ → ℕ → A) (i j : ℕ) (v : A) → update c i j v i j ≡ v
unfolding update
update_self c i j v = ground arith
