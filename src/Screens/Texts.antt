-- ===== src/Screens/Texts.antt =====
-- The texts of src/UImanage/UImanage.cpp up to the main menu, in UTF-8.
use russia_tetris.Base.{ℕ, List, [], ◌∷◌}

-- "请选择操作："
abbrev pub choose_prompt : List ℕ
choose_prompt =
    232 ∷ 175 ∷ 183 ∷ 233 ∷ 128 ∷ 137 ∷ 230 ∷ 139 ∷ 169 ∷ 230 ∷ 147 ∷ 141 ∷ 228 ∷ 189 ∷ 156 ∷ 239
    ∷ 188 ∷ 154 ∷ []

-- "1. 注册帐号"
abbrev pub item_register : List ℕ
item_register =
    49 ∷ 46 ∷ 32 ∷ 230 ∷ 179 ∷ 168 ∷ 229 ∷ 134 ∷ 140 ∷ 229 ∷ 184 ∷ 144 ∷ 229 ∷ 143 ∷ 183 ∷ []

-- "2. 登录"
abbrev pub item_login : List ℕ
item_login = 50 ∷ 46 ∷ 32 ∷ 231 ∷ 153 ∷ 187 ∷ 229 ∷ 189 ∷ 149 ∷ []

-- "请输入用户名："
abbrev pub enter_username : List ℕ
enter_username =
    232 ∷ 175 ∷ 183 ∷ 232 ∷ 190 ∷ 147 ∷ 229 ∷ 133 ∷ 165 ∷ 231 ∷ 148 ∷ 168 ∷ 230 ∷ 136 ∷ 183 ∷ 229
    ∷ 144 ∷ 141 ∷ 239 ∷ 188 ∷ 154 ∷ []

-- "输入错误，请重新输入: "
abbrev pub wrong_input : List ℕ
wrong_input =
    232 ∷ 190 ∷ 147 ∷ 229 ∷ 133 ∷ 165 ∷ 233 ∷ 148 ∷ 153 ∷ 232 ∷ 175 ∷ 175 ∷ 239 ∷ 188 ∷ 140 ∷ 232
    ∷ 175 ∷ 183 ∷ 233 ∷ 135 ∷ 141 ∷ 230 ∷ 150 ∷ 176 ∷ 232 ∷ 190 ∷ 147 ∷ 229 ∷ 133 ∷ 165 ∷ 58 ∷ 32
    ∷ []

-- "用户名不可为空，请重新输入用户名："
abbrev pub username_empty : List ℕ
username_empty =
    231 ∷ 148 ∷ 168 ∷ 230 ∷ 136 ∷ 183 ∷ 229 ∷ 144 ∷ 141 ∷ 228 ∷ 184 ∷ 141 ∷ 229 ∷ 143 ∷ 175 ∷ 228
    ∷ 184 ∷ 186 ∷ 231 ∷ 169 ∷ 186 ∷ 239 ∷ 188 ∷ 140 ∷ 232 ∷ 175 ∷ 183 ∷ 233 ∷ 135 ∷ 141 ∷ 230 ∷ 150
    ∷ 176 ∷ 232 ∷ 190 ∷ 147 ∷ 229 ∷ 133 ∷ 165 ∷ 231 ∷ 148 ∷ 168 ∷ 230 ∷ 136 ∷ 183 ∷ 229 ∷ 144 ∷ 141
    ∷ 239 ∷ 188 ∷ 154 ∷ []

-- "该用户名已被注册，请选择其他用户名:"
abbrev pub username_taken : List ℕ
username_taken =
    232 ∷ 175 ∷ 165 ∷ 231 ∷ 148 ∷ 168 ∷ 230 ∷ 136 ∷ 183 ∷ 229 ∷ 144 ∷ 141 ∷ 229 ∷ 183 ∷ 178 ∷ 232
    ∷ 162 ∷ 171 ∷ 230 ∷ 179 ∷ 168 ∷ 229 ∷ 134 ∷ 140 ∷ 239 ∷ 188 ∷ 140 ∷ 232 ∷ 175 ∷ 183 ∷ 233 ∷ 128
    ∷ 137 ∷ 230 ∷ 139 ∷ 169 ∷ 229 ∷ 133 ∷ 182 ∷ 228 ∷ 187 ∷ 150 ∷ 231 ∷ 148 ∷ 168 ∷ 230 ∷ 136 ∷ 183
    ∷ 229 ∷ 144 ∷ 141 ∷ 58 ∷ []

-- "请输入密码："
abbrev pub enter_password : List ℕ
enter_password =
    232 ∷ 175 ∷ 183 ∷ 232 ∷ 190 ∷ 147 ∷ 229 ∷ 133 ∷ 165 ∷ 229 ∷ 175 ∷ 134 ∷ 231 ∷ 160 ∷ 129 ∷ 239
    ∷ 188 ∷ 154 ∷ []

-- "密码不可为空，请重新输入密码："
abbrev pub password_empty : List ℕ
password_empty =
    229 ∷ 175 ∷ 134 ∷ 231 ∷ 160 ∷ 129 ∷ 228 ∷ 184 ∷ 141 ∷ 229 ∷ 143 ∷ 175 ∷ 228 ∷ 184 ∷ 186 ∷ 231
    ∷ 169 ∷ 186 ∷ 239 ∷ 188 ∷ 140 ∷ 232 ∷ 175 ∷ 183 ∷ 233 ∷ 135 ∷ 141 ∷ 230 ∷ 150 ∷ 176 ∷ 232 ∷ 190
    ∷ 147 ∷ 229 ∷ 133 ∷ 165 ∷ 229 ∷ 175 ∷ 134 ∷ 231 ∷ 160 ∷ 129 ∷ 239 ∷ 188 ∷ 154 ∷ []

-- "密码至少需要 8 个字符（不能全是空格），请重新输入密码："
abbrev pub password_short : List ℕ
password_short =
    229 ∷ 175 ∷ 134 ∷ 231 ∷ 160 ∷ 129 ∷ 232 ∷ 135 ∷ 179 ∷ 229 ∷ 176 ∷ 145 ∷ 233 ∷ 156 ∷ 128 ∷ 232
    ∷ 166 ∷ 129 ∷ 32 ∷ 56 ∷ 32 ∷ 228 ∷ 184 ∷ 170 ∷ 229 ∷ 173 ∷ 151 ∷ 231 ∷ 172 ∷ 166 ∷ 239 ∷ 188
    ∷ 136 ∷ 228 ∷ 184 ∷ 141 ∷ 232 ∷ 131 ∷ 189 ∷ 229 ∷ 133 ∷ 168 ∷ 230 ∷ 152 ∷ 175 ∷ 231 ∷ 169 ∷ 186
    ∷ 230 ∷ 160 ∷ 188 ∷ 239 ∷ 188 ∷ 137 ∷ 239 ∷ 188 ∷ 140 ∷ 232 ∷ 175 ∷ 183 ∷ 233 ∷ 135 ∷ 141 ∷ 230
    ∷ 150 ∷ 176 ∷ 232 ∷ 190 ∷ 147 ∷ 229 ∷ 133 ∷ 165 ∷ 229 ∷ 175 ∷ 134 ∷ 231 ∷ 160 ∷ 129 ∷ 239 ∷ 188
    ∷ 154 ∷ []

-- "注册成功！"
abbrev pub registered : List ℕ
registered =
    230 ∷ 179 ∷ 168 ∷ 229 ∷ 134 ∷ 140 ∷ 230 ∷ 136 ∷ 144 ∷ 229 ∷ 138 ∷ 159 ∷ 239 ∷ 188 ∷ 129 ∷ []

-- "请按3返回上级菜单："
abbrev pub three_to_return : List ℕ
three_to_return =
    232 ∷ 175 ∷ 183 ∷ 230 ∷ 140 ∷ 137 ∷ 51 ∷ 232 ∷ 191 ∷ 148 ∷ 229 ∷ 155 ∷ 158 ∷ 228 ∷ 184 ∷ 138
    ∷ 231 ∷ 186 ∷ 167 ∷ 232 ∷ 143 ∷ 156 ∷ 229 ∷ 141 ∷ 149 ∷ 239 ∷ 188 ∷ 154 ∷ []

-- "登录失败，用户名或密码错误。"
abbrev pub login_failed : List ℕ
login_failed =
    231 ∷ 153 ∷ 187 ∷ 229 ∷ 189 ∷ 149 ∷ 229 ∷ 164 ∷ 177 ∷ 232 ∷ 180 ∷ 165 ∷ 239 ∷ 188 ∷ 140 ∷ 231
    ∷ 148 ∷ 168 ∷ 230 ∷ 136 ∷ 183 ∷ 229 ∷ 144 ∷ 141 ∷ 230 ∷ 136 ∷ 150 ∷ 229 ∷ 175 ∷ 134 ∷ 231 ∷ 160
    ∷ 129 ∷ 233 ∷ 148 ∷ 153 ∷ 232 ∷ 175 ∷ 175 ∷ 227 ∷ 128 ∷ 130 ∷ []

-- "按3返回上级菜单:"
abbrev pub three_goes_back : List ℕ
three_goes_back =
    230 ∷ 140 ∷ 137 ∷ 51 ∷ 232 ∷ 191 ∷ 148 ∷ 229 ∷ 155 ∷ 158 ∷ 228 ∷ 184 ∷ 138 ∷ 231 ∷ 186 ∷ 167
    ∷ 232 ∷ 143 ∷ 156 ∷ 229 ∷ 141 ∷ 149 ∷ 58 ∷ []

-- "登录尝试过于频繁，请 "
abbrev pub login_too_often : List ℕ
login_too_often =
    231 ∷ 153 ∷ 187 ∷ 229 ∷ 189 ∷ 149 ∷ 229 ∷ 176 ∷ 157 ∷ 232 ∷ 175 ∷ 149 ∷ 232 ∷ 191 ∷ 135 ∷ 228
    ∷ 186 ∷ 142 ∷ 233 ∷ 162 ∷ 145 ∷ 231 ∷ 185 ∷ 129 ∷ 239 ∷ 188 ∷ 140 ∷ 232 ∷ 175 ∷ 183 ∷ 32 ∷ []

-- " 秒后再试："
abbrev pub seconds_retry : List ℕ
seconds_retry =
    32 ∷ 231 ∷ 167 ∷ 146 ∷ 229 ∷ 144 ∷ 142 ∷ 229 ∷ 134 ∷ 141 ∷ 232 ∷ 175 ∷ 149 ∷ 239 ∷ 188 ∷ 154
    ∷ []

-- "注册过于频繁，请 "
abbrev pub register_too_often : List ℕ
register_too_often =
    230 ∷ 179 ∷ 168 ∷ 229 ∷ 134 ∷ 140 ∷ 232 ∷ 191 ∷ 135 ∷ 228 ∷ 186 ∷ 142 ∷ 233 ∷ 162 ∷ 145 ∷ 231
    ∷ 185 ∷ 129 ∷ 239 ∷ 188 ∷ 140 ∷ 232 ∷ 175 ∷ 183 ∷ 32 ∷ []

-- " 秒后再试。"
abbrev pub seconds_later : List ℕ
seconds_later =
    32 ∷ 231 ∷ 167 ∷ 146 ∷ 229 ∷ 144 ∷ 142 ∷ 229 ∷ 134 ∷ 141 ∷ 232 ∷ 175 ∷ 149 ∷ 227 ∷ 128 ∷ 130
    ∷ []

-- "服务繁忙，请稍后重试："
abbrev pub server_busy : List ℕ
server_busy =
    230 ∷ 156 ∷ 141 ∷ 229 ∷ 138 ∷ 161 ∷ 231 ∷ 185 ∷ 129 ∷ 229 ∷ 191 ∷ 153 ∷ 239 ∷ 188 ∷ 140 ∷ 232
    ∷ 175 ∷ 183 ∷ 231 ∷ 168 ∷ 141 ∷ 229 ∷ 144 ∷ 142 ∷ 233 ∷ 135 ∷ 141 ∷ 232 ∷ 175 ∷ 149 ∷ 239 ∷ 188
    ∷ 154 ∷ []

-- "修改密码"
abbrev pub change_title : List ℕ
change_title = 228 ∷ 191 ∷ 174 ∷ 230 ∷ 148 ∷ 185 ∷ 229 ∷ 175 ∷ 134 ∷ 231 ∷ 160 ∷ 129 ∷ []

-- "请输入当前密码："
abbrev pub enter_old : List ℕ
enter_old =
    232 ∷ 175 ∷ 183 ∷ 232 ∷ 190 ∷ 147 ∷ 229 ∷ 133 ∷ 165 ∷ 229 ∷ 189 ∷ 147 ∷ 229 ∷ 137 ∷ 141 ∷ 229
    ∷ 175 ∷ 134 ∷ 231 ∷ 160 ∷ 129 ∷ 239 ∷ 188 ∷ 154 ∷ []

-- "请输入新密码（至少 8 个字符，不能全是空格）："
abbrev pub enter_new : List ℕ
enter_new =
    232 ∷ 175 ∷ 183 ∷ 232 ∷ 190 ∷ 147 ∷ 229 ∷ 133 ∷ 165 ∷ 230 ∷ 150 ∷ 176 ∷ 229 ∷ 175 ∷ 134 ∷ 231
    ∷ 160 ∷ 129 ∷ 239 ∷ 188 ∷ 136 ∷ 232 ∷ 135 ∷ 179 ∷ 229 ∷ 176 ∷ 145 ∷ 32 ∷ 56 ∷ 32 ∷ 228 ∷ 184
    ∷ 170 ∷ 229 ∷ 173 ∷ 151 ∷ 231 ∷ 172 ∷ 166 ∷ 239 ∷ 188 ∷ 140 ∷ 228 ∷ 184 ∷ 141 ∷ 232 ∷ 131 ∷ 189
    ∷ 229 ∷ 133 ∷ 168 ∷ 230 ∷ 152 ∷ 175 ∷ 231 ∷ 169 ∷ 186 ∷ 230 ∷ 160 ∷ 188 ∷ 239 ∷ 188 ∷ 137 ∷ 239
    ∷ 188 ∷ 154 ∷ []

-- "新密码不能与当前密码相同，请重新输入新密码："
abbrev pub new_unchanged : List ℕ
new_unchanged =
    230 ∷ 150 ∷ 176 ∷ 229 ∷ 175 ∷ 134 ∷ 231 ∷ 160 ∷ 129 ∷ 228 ∷ 184 ∷ 141 ∷ 232 ∷ 131 ∷ 189 ∷ 228
    ∷ 184 ∷ 142 ∷ 229 ∷ 189 ∷ 147 ∷ 229 ∷ 137 ∷ 141 ∷ 229 ∷ 175 ∷ 134 ∷ 231 ∷ 160 ∷ 129 ∷ 231 ∷ 155
    ∷ 184 ∷ 229 ∷ 144 ∷ 140 ∷ 239 ∷ 188 ∷ 140 ∷ 232 ∷ 175 ∷ 183 ∷ 233 ∷ 135 ∷ 141 ∷ 230 ∷ 150 ∷ 176
    ∷ 232 ∷ 190 ∷ 147 ∷ 229 ∷ 133 ∷ 165 ∷ 230 ∷ 150 ∷ 176 ∷ 229 ∷ 175 ∷ 134 ∷ 231 ∷ 160 ∷ 129 ∷ 239
    ∷ 188 ∷ 154 ∷ []

-- "密码修改成功！"
abbrev pub changed : List ℕ
changed =
    229 ∷ 175 ∷ 134 ∷ 231 ∷ 160 ∷ 129 ∷ 228 ∷ 191 ∷ 174 ∷ 230 ∷ 148 ∷ 185 ∷ 230 ∷ 136 ∷ 144 ∷ 229
    ∷ 138 ∷ 159 ∷ 239 ∷ 188 ∷ 129 ∷ []

-- "下次登录请使用新密码。"
abbrev pub use_new : List ℕ
use_new =
    228 ∷ 184 ∷ 139 ∷ 230 ∷ 172 ∷ 161 ∷ 231 ∷ 153 ∷ 187 ∷ 229 ∷ 189 ∷ 149 ∷ 232 ∷ 175 ∷ 183 ∷ 228
    ∷ 189 ∷ 191 ∷ 231 ∷ 148 ∷ 168 ∷ 230 ∷ 150 ∷ 176 ∷ 229 ∷ 175 ∷ 134 ∷ 231 ∷ 160 ∷ 129 ∷ 227 ∷ 128
    ∷ 130 ∷ []

-- "请按3返回主菜单："
abbrev pub three_to_menu : List ℕ
three_to_menu =
    232 ∷ 175 ∷ 183 ∷ 230 ∷ 140 ∷ 137 ∷ 51 ∷ 232 ∷ 191 ∷ 148 ∷ 229 ∷ 155 ∷ 158 ∷ 228 ∷ 184 ∷ 187
    ∷ 232 ∷ 143 ∷ 156 ∷ 229 ∷ 141 ∷ 149 ∷ 239 ∷ 188 ∷ 154 ∷ []
