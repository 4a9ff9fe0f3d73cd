-- ===== src/Screens/Notices.antt =====
-- The texts that src/TetrisGame/Server.cpp prints itself, in UTF-8.
use russia_tetris.Base.{ℕ, List, [], ◌∷◌}

-- "登录中..."
abbrev pub logging_in : List ℕ
logging_in = 231 ∷ 153 ∷ 187 ∷ 229 ∷ 189 ∷ 149 ∷ 228 ∷ 184 ∷ 173 ∷ 46 ∷ 46 ∷ 46 ∷ []

-- "正在修改密码..."
abbrev pub changing : List ℕ
changing =
    230 ∷ 173 ∷ 163 ∷ 229 ∷ 156 ∷ 168 ∷ 228 ∷ 191 ∷ 174 ∷ 230 ∷ 148 ∷ 185 ∷ 229 ∷ 175 ∷ 134 ∷ 231
    ∷ 160 ∷ 129 ∷ 46 ∷ 46 ∷ 46 ∷ []

-- "修改密码尝试过于频繁，请 "
abbrev pub change_too_often : List ℕ
change_too_often =
    228 ∷ 191 ∷ 174 ∷ 230 ∷ 148 ∷ 185 ∷ 229 ∷ 175 ∷ 134 ∷ 231 ∷ 160 ∷ 129 ∷ 229 ∷ 176 ∷ 157 ∷ 232
    ∷ 175 ∷ 149 ∷ 232 ∷ 191 ∷ 135 ∷ 228 ∷ 186 ∷ 142 ∷ 233 ∷ 162 ∷ 145 ∷ 231 ∷ 185 ∷ 129 ∷ 239 ∷ 188
    ∷ 140 ∷ 232 ∷ 175 ∷ 183 ∷ 32 ∷ []

-- "当前密码错误，密码未修改。"
abbrev pub wrong_old : List ℕ
wrong_old =
    229 ∷ 189 ∷ 147 ∷ 229 ∷ 137 ∷ 141 ∷ 229 ∷ 175 ∷ 134 ∷ 231 ∷ 160 ∷ 129 ∷ 233 ∷ 148 ∷ 153 ∷ 232
    ∷ 175 ∷ 175 ∷ 239 ∷ 188 ∷ 140 ∷ 229 ∷ 175 ∷ 134 ∷ 231 ∷ 160 ∷ 129 ∷ 230 ∷ 156 ∷ 170 ∷ 228 ∷ 191
    ∷ 174 ∷ 230 ∷ 148 ∷ 185 ∷ 227 ∷ 128 ∷ 130 ∷ []

-- "服务繁忙，密码未修改，请稍后重试。"
abbrev pub busy_change : List ℕ
busy_change =
    230 ∷ 156 ∷ 141 ∷ 229 ∷ 138 ∷ 161 ∷ 231 ∷ 185 ∷ 129 ∷ 229 ∷ 191 ∷ 153 ∷ 239 ∷ 188 ∷ 140 ∷ 229
    ∷ 175 ∷ 134 ∷ 231 ∷ 160 ∷ 129 ∷ 230 ∷ 156 ∷ 170 ∷ 228 ∷ 191 ∷ 174 ∷ 230 ∷ 148 ∷ 185 ∷ 239 ∷ 188
    ∷ 140 ∷ 232 ∷ 175 ∷ 183 ∷ 231 ∷ 168 ∷ 141 ∷ 229 ∷ 144 ∷ 142 ∷ 233 ∷ 135 ∷ 141 ∷ 232 ∷ 175 ∷ 149
    ∷ 227 ∷ 128 ∷ 130 ∷ []

-- "修改失败（服务端暂时无法写盘），密码未修改。"
abbrev pub error_change : List ℕ
error_change =
    228 ∷ 191 ∷ 174 ∷ 230 ∷ 148 ∷ 185 ∷ 229 ∷ 164 ∷ 177 ∷ 232 ∷ 180 ∷ 165 ∷ 239 ∷ 188 ∷ 136 ∷ 230
    ∷ 156 ∷ 141 ∷ 229 ∷ 138 ∷ 161 ∷ 231 ∷ 171 ∷ 175 ∷ 230 ∷ 154 ∷ 130 ∷ 230 ∷ 151 ∷ 182 ∷ 230 ∷ 151
    ∷ 160 ∷ 230 ∷ 179 ∷ 149 ∷ 229 ∷ 134 ∷ 153 ∷ 231 ∷ 155 ∷ 152 ∷ 239 ∷ 188 ∷ 137 ∷ 239 ∷ 188 ∷ 140
    ∷ 229 ∷ 175 ∷ 134 ∷ 231 ∷ 160 ∷ 129 ∷ 230 ∷ 156 ∷ 170 ∷ 228 ∷ 191 ∷ 174 ∷ 230 ∷ 148 ∷ 185 ∷ 227
    ∷ 128 ∷ 130 ∷ []
