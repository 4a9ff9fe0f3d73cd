-- ===== src/Screens/Labels.antt =====
-- The texts of src/UImanage/UImanage.cpp from the main menu on, in UTF-8.
use russia_tetris.Base.{ℕ, List, [], ◌∷◌}

-- "1. 我最近的成绩"
abbrev pub item_recent : List ℕ
item_recent =
    49 ∷ 46 ∷ 32 ∷ 230 ∷ 136 ∷ 145 ∷ 230 ∷ 156 ∷ 128 ∷ 232 ∷ 191 ∷ 145 ∷ 231 ∷ 154 ∷ 132 ∷ 230 ∷ 136
    ∷ 144 ∷ 231 ∷ 187 ∷ 169 ∷ []

-- "2. 全服top成绩"
abbrev pub item_top : List ℕ
item_top =
    50 ∷ 46 ∷ 32 ∷ 229 ∷ 133 ∷ 168 ∷ 230 ∷ 156 ∷ 141 ∷ 116 ∷ 111 ∷ 112 ∷ 230 ∷ 136 ∷ 144 ∷ 231 ∷ 187
    ∷ 169 ∷ []

-- "3. 开始游戏"
abbrev pub item_start : List ℕ
item_start =
    51 ∷ 46 ∷ 32 ∷ 229 ∷ 188 ∷ 128 ∷ 229 ∷ 167 ∷ 139 ∷ 230 ∷ 184 ∷ 184 ∷ 230 ∷ 136 ∷ 143 ∷ []

-- "4. 返回服务"
abbrev pub item_back : List ℕ
item_back =
    52 ∷ 46 ∷ 32 ∷ 232 ∷ 191 ∷ 148 ∷ 229 ∷ 155 ∷ 158 ∷ 230 ∷ 156 ∷ 141 ∷ 229 ∷ 138 ∷ 161 ∷ []

-- "5. 修改密码"
abbrev pub item_change : List ℕ
item_change =
    53 ∷ 46 ∷ 32 ∷ 228 ∷ 191 ∷ 174 ∷ 230 ∷ 148 ∷ 185 ∷ 229 ∷ 175 ∷ 134 ∷ 231 ∷ 160 ∷ 129 ∷ []

-- "你的选择是："
abbrev pub your_choice : List ℕ
your_choice =
    228 ∷ 189 ∷ 160 ∷ 231 ∷ 154 ∷ 132 ∷ 233 ∷ 128 ∷ 137 ∷ 230 ∷ 139 ∷ 169 ∷ 230 ∷ 152 ∷ 175 ∷ 239
    ∷ 188 ∷ 154 ∷ []

-- "加载中..."
abbrev pub loading : List ℕ
loading = 229 ∷ 138 ∷ 160 ∷ 232 ∷ 189 ∷ 189 ∷ 228 ∷ 184 ∷ 173 ∷ 46 ∷ 46 ∷ 46 ∷ []

-- "读取失败，请重试"
abbrev pub read_failed : List ℕ
read_failed =
    232 ∷ 175 ∷ 187 ∷ 229 ∷ 143 ∷ 150 ∷ 229 ∷ 164 ∷ 177 ∷ 232 ∷ 180 ∷ 165 ∷ 239 ∷ 188 ∷ 140 ∷ 232
    ∷ 175 ∷ 183 ∷ 233 ∷ 135 ∷ 141 ∷ 232 ∷ 175 ∷ 149 ∷ []

-- "请按3返回菜单："
abbrev pub three_to_list : List ℕ
three_to_list =
    232 ∷ 175 ∷ 183 ∷ 230 ∷ 140 ∷ 137 ∷ 51 ∷ 232 ∷ 191 ∷ 148 ∷ 229 ∷ 155 ∷ 158 ∷ 232 ∷ 143 ∷ 156
    ∷ 229 ∷ 141 ∷ 149 ∷ 239 ∷ 188 ∷ 154 ∷ []

-- "暂无成绩记录"
abbrev pub no_scores : List ℕ
no_scores =
    230 ∷ 154 ∷ 130 ∷ 230 ∷ 151 ∷ 160 ∷ 230 ∷ 136 ∷ 144 ∷ 231 ∷ 187 ∷ 169 ∷ 232 ∷ 174 ∷ 176 ∷ 229
    ∷ 189 ∷ 149 ∷ []

-- "加载排行榜中..."
abbrev pub loading_top : List ℕ
loading_top =
    229 ∷ 138 ∷ 160 ∷ 232 ∷ 189 ∷ 189 ∷ 230 ∷ 142 ∷ 146 ∷ 232 ∷ 161 ∷ 140 ∷ 230 ∷ 166 ∷ 156 ∷ 228
    ∷ 184 ∷ 173 ∷ 46 ∷ 46 ∷ 46 ∷ []

-- "加载失败，请重试"
abbrev pub load_failed : List ℕ
load_failed =
    229 ∷ 138 ∷ 160 ∷ 232 ∷ 189 ∷ 189 ∷ 229 ∷ 164 ∷ 177 ∷ 232 ∷ 180 ∷ 165 ∷ 239 ∷ 188 ∷ 140 ∷ 232
    ∷ 175 ∷ 183 ∷ 233 ∷ 135 ∷ 141 ∷ 232 ∷ 175 ∷ 149 ∷ []

-- "简单模式："
abbrev pub easy_title : List ℕ
easy_title =
    231 ∷ 174 ∷ 128 ∷ 229 ∷ 141 ∷ 149 ∷ 230 ∷ 168 ∷ 161 ∷ 229 ∷ 188 ∷ 143 ∷ 239 ∷ 188 ∷ 154 ∷ []

-- "普通模式："
abbrev pub normal_title : List ℕ
normal_title =
    230 ∷ 153 ∷ 174 ∷ 233 ∷ 128 ∷ 154 ∷ 230 ∷ 168 ∷ 161 ∷ 229 ∷ 188 ∷ 143 ∷ 239 ∷ 188 ∷ 154 ∷ []

-- "困难模式："
abbrev pub hard_title : List ℕ
hard_title =
    229 ∷ 155 ∷ 176 ∷ 233 ∷ 154 ∷ 190 ∷ 230 ∷ 168 ∷ 161 ∷ 229 ∷ 188 ∷ 143 ∷ 239 ∷ 188 ∷ 154 ∷ []

-- "用户名 分数 用户获取最高分的时间"
abbrev pub top_header : List ℕ
top_header =
    231 ∷ 148 ∷ 168 ∷ 230 ∷ 136 ∷ 183 ∷ 229 ∷ 144 ∷ 141 ∷ 32 ∷ 229 ∷ 136 ∷ 134 ∷ 230 ∷ 149 ∷ 176
    ∷ 32 ∷ 231 ∷ 148 ∷ 168 ∷ 230 ∷ 136 ∷ 183 ∷ 232 ∷ 142 ∷ 183 ∷ 229 ∷ 143 ∷ 150 ∷ 230 ∷ 156 ∷ 128
    ∷ 233 ∷ 171 ∷ 152 ∷ 229 ∷ 136 ∷ 134 ∷ 231 ∷ 154 ∷ 132 ∷ 230 ∷ 151 ∷ 182 ∷ 233 ∷ 151 ∷ 180 ∷ []

-- "1. 简单模式"
abbrev pub item_easy : List ℕ
item_easy =
    49 ∷ 46 ∷ 32 ∷ 231 ∷ 174 ∷ 128 ∷ 229 ∷ 141 ∷ 149 ∷ 230 ∷ 168 ∷ 161 ∷ 229 ∷ 188 ∷ 143 ∷ []

-- "2. 普通模式"
abbrev pub item_normal : List ℕ
item_normal =
    50 ∷ 46 ∷ 32 ∷ 230 ∷ 153 ∷ 174 ∷ 233 ∷ 128 ∷ 154 ∷ 230 ∷ 168 ∷ 161 ∷ 229 ∷ 188 ∷ 143 ∷ []

-- "3. 困难模式"
abbrev pub item_hard : List ℕ
item_hard =
    51 ∷ 46 ∷ 32 ∷ 229 ∷ 155 ∷ 176 ∷ 233 ∷ 154 ∷ 190 ∷ 230 ∷ 168 ∷ 161 ∷ 229 ∷ 188 ∷ 143 ∷ []

-- "4. 返回上级菜单"
abbrev pub item_upper : List ℕ
item_upper =
    52 ∷ 46 ∷ 32 ∷ 232 ∷ 191 ∷ 148 ∷ 229 ∷ 155 ∷ 158 ∷ 228 ∷ 184 ∷ 138 ∷ 231 ∷ 186 ∷ 167 ∷ 232 ∷ 143
    ∷ 156 ∷ 229 ∷ 141 ∷ 149 ∷ []
