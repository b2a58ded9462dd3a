-- ===== src/Chars/Tables.antt =====
-- The character tables of src/match.c and the macros of include/irc_string.h that read them.
-- The tables are the source's, entry by entry, under the build's RFC1035_ANAL and without
-- ALLOW_DOT_IN_IDENT. A character is a number below 256, as the macros cast to unsigned char.
use igniteircd.Prelude.{ℕ, ◌<◌, Bool, not, List, [], ◌∷◌, get_or, bit_and, ◌==◌}

unfoldable pub to_lower_tab : List ℕ
to_lower_tab =
    0 ∷ 1 ∷ 2 ∷ 3 ∷ 4 ∷ 5 ∷ 6 ∷ 7 ∷ 8 ∷ 9 ∷ 10 ∷ 11 ∷ 12 ∷ 13 ∷ 14 ∷ 15 ∷ 16 ∷ 17 ∷ 18 ∷ 19 ∷ 20
    ∷ 21 ∷ 22 ∷ 23 ∷ 24 ∷ 25 ∷ 26 ∷ 27 ∷ 28 ∷ 29 ∷ 30 ∷ 31 ∷ 32 ∷ 33 ∷ 34 ∷ 35 ∷ 36 ∷ 37 ∷ 38 ∷ 39
    ∷ 40 ∷ 41 ∷ 42 ∷ 43 ∷ 44 ∷ 45 ∷ 46 ∷ 47 ∷ 48 ∷ 49 ∷ 50 ∷ 51 ∷ 52 ∷ 53 ∷ 54 ∷ 55 ∷ 56 ∷ 57 ∷ 58
    ∷ 59 ∷ 60 ∷ 61 ∷ 62 ∷ 63 ∷ 64 ∷ 97 ∷ 98 ∷ 99 ∷ 100 ∷ 101 ∷ 102 ∷ 103 ∷ 104 ∷ 105 ∷ 106 ∷ 107
    ∷ 108 ∷ 109 ∷ 110 ∷ 111 ∷ 112 ∷ 113 ∷ 114 ∷ 115 ∷ 116 ∷ 117 ∷ 118 ∷ 119 ∷ 120 ∷ 121 ∷ 122 ∷ 123
    ∷ 124 ∷ 125 ∷ 126 ∷ 95 ∷ 96 ∷ 97 ∷ 98 ∷ 99 ∷ 100 ∷ 101 ∷ 102 ∷ 103 ∷ 104 ∷ 105 ∷ 106 ∷ 107 ∷ 108
    ∷ 109 ∷ 110 ∷ 111 ∷ 112 ∷ 113 ∷ 114 ∷ 115 ∷ 116 ∷ 117 ∷ 118 ∷ 119 ∷ 120 ∷ 121 ∷ 122 ∷ 123 ∷ 124
    ∷ 125 ∷ 126 ∷ 127 ∷ 128 ∷ 129 ∷ 130 ∷ 131 ∷ 132 ∷ 133 ∷ 134 ∷ 135 ∷ 136 ∷ 137 ∷ 138 ∷ 139 ∷ 140
    ∷ 141 ∷ 142 ∷ 143 ∷ 144 ∷ 145 ∷ 146 ∷ 147 ∷ 148 ∷ 149 ∷ 150 ∷ 151 ∷ 152 ∷ 153 ∷ 154 ∷ 155 ∷ 156
    ∷ 157 ∷ 158 ∷ 159 ∷ 160 ∷ 161 ∷ 162 ∷ 163 ∷ 164 ∷ 165 ∷ 166 ∷ 167 ∷ 168 ∷ 169 ∷ 170 ∷ 171 ∷ 172
    ∷ 173 ∷ 174 ∷ 175 ∷ 176 ∷ 177 ∷ 178 ∷ 179 ∷ 180 ∷ 181 ∷ 182 ∷ 183 ∷ 184 ∷ 185 ∷ 186 ∷ 187 ∷ 188
    ∷ 189 ∷ 190 ∷ 191 ∷ 192 ∷ 193 ∷ 194 ∷ 195 ∷ 196 ∷ 197 ∷ 198 ∷ 199 ∷ 200 ∷ 201 ∷ 202 ∷ 203 ∷ 204
    ∷ 205 ∷ 206 ∷ 207 ∷ 208 ∷ 209 ∷ 210 ∷ 211 ∷ 212 ∷ 213 ∷ 214 ∷ 215 ∷ 216 ∷ 217 ∷ 218 ∷ 219 ∷ 220
    ∷ 221 ∷ 222 ∷ 223 ∷ 224 ∷ 225 ∷ 226 ∷ 227 ∷ 228 ∷ 229 ∷ 230 ∷ 231 ∷ 232 ∷ 233 ∷ 234 ∷ 235 ∷ 236
    ∷ 237 ∷ 238 ∷ 239 ∷ 240 ∷ 241 ∷ 242 ∷ 243 ∷ 244 ∷ 245 ∷ 246 ∷ 247 ∷ 248 ∷ 249 ∷ 250 ∷ 251 ∷ 252
    ∷ 253 ∷ 254 ∷ 255 ∷ []

unfoldable pub to_upper_tab : List ℕ
to_upper_tab =
    0 ∷ 1 ∷ 2 ∷ 3 ∷ 4 ∷ 5 ∷ 6 ∷ 7 ∷ 8 ∷ 9 ∷ 10 ∷ 11 ∷ 12 ∷ 13 ∷ 14 ∷ 15 ∷ 16 ∷ 17 ∷ 18 ∷ 19 ∷ 20
    ∷ 21 ∷ 22 ∷ 23 ∷ 24 ∷ 25 ∷ 26 ∷ 27 ∷ 28 ∷ 29 ∷ 30 ∷ 31 ∷ 32 ∷ 33 ∷ 34 ∷ 35 ∷ 36 ∷ 37 ∷ 38 ∷ 39
    ∷ 40 ∷ 41 ∷ 42 ∷ 43 ∷ 44 ∷ 45 ∷ 46 ∷ 47 ∷ 48 ∷ 49 ∷ 50 ∷ 51 ∷ 52 ∷ 53 ∷ 54 ∷ 55 ∷ 56 ∷ 57 ∷ 58
    ∷ 59 ∷ 60 ∷ 61 ∷ 62 ∷ 63 ∷ 64 ∷ 65 ∷ 66 ∷ 67 ∷ 68 ∷ 69 ∷ 70 ∷ 71 ∷ 72 ∷ 73 ∷ 74 ∷ 75 ∷ 76 ∷ 77
    ∷ 78 ∷ 79 ∷ 80 ∷ 81 ∷ 82 ∷ 83 ∷ 84 ∷ 85 ∷ 86 ∷ 87 ∷ 88 ∷ 89 ∷ 90 ∷ 91 ∷ 92 ∷ 93 ∷ 94 ∷ 95 ∷ 96
    ∷ 65 ∷ 66 ∷ 67 ∷ 68 ∷ 69 ∷ 70 ∷ 71 ∷ 72 ∷ 73 ∷ 74 ∷ 75 ∷ 76 ∷ 77 ∷ 78 ∷ 79 ∷ 80 ∷ 81 ∷ 82 ∷ 83
    ∷ 84 ∷ 85 ∷ 86 ∷ 87 ∷ 88 ∷ 89 ∷ 90 ∷ 91 ∷ 92 ∷ 93 ∷ 94 ∷ 127 ∷ 128 ∷ 129 ∷ 130 ∷ 131 ∷ 132 ∷ 133
    ∷ 134 ∷ 135 ∷ 136 ∷ 137 ∷ 138 ∷ 139 ∷ 140 ∷ 141 ∷ 142 ∷ 143 ∷ 144 ∷ 145 ∷ 146 ∷ 147 ∷ 148 ∷ 149
    ∷ 150 ∷ 151 ∷ 152 ∷ 153 ∷ 154 ∷ 155 ∷ 156 ∷ 157 ∷ 158 ∷ 159 ∷ 160 ∷ 161 ∷ 162 ∷ 163 ∷ 164 ∷ 165
    ∷ 166 ∷ 167 ∷ 168 ∷ 169 ∷ 170 ∷ 171 ∷ 172 ∷ 173 ∷ 174 ∷ 175 ∷ 176 ∷ 177 ∷ 178 ∷ 179 ∷ 180 ∷ 181
    ∷ 182 ∷ 183 ∷ 184 ∷ 185 ∷ 186 ∷ 187 ∷ 188 ∷ 189 ∷ 190 ∷ 191 ∷ 192 ∷ 193 ∷ 194 ∷ 195 ∷ 196 ∷ 197
    ∷ 198 ∷ 199 ∷ 200 ∷ 201 ∷ 202 ∷ 203 ∷ 204 ∷ 205 ∷ 206 ∷ 207 ∷ 208 ∷ 209 ∷ 210 ∷ 211 ∷ 212 ∷ 213
    ∷ 214 ∷ 215 ∷ 216 ∷ 217 ∷ 218 ∷ 219 ∷ 220 ∷ 221 ∷ 222 ∷ 223 ∷ 224 ∷ 225 ∷ 226 ∷ 227 ∷ 228 ∷ 229
    ∷ 230 ∷ 231 ∷ 232 ∷ 233 ∷ 234 ∷ 235 ∷ 236 ∷ 237 ∷ 238 ∷ 239 ∷ 240 ∷ 241 ∷ 242 ∷ 243 ∷ 244 ∷ 245
    ∷ 246 ∷ 247 ∷ 248 ∷ 249 ∷ 250 ∷ 251 ∷ 252 ∷ 253 ∷ 254 ∷ 255 ∷ []

unfoldable pub char_attrs : List ℕ
char_attrs =
    0x2 ∷ 0x1082 ∷ 0x1082 ∷ 0x1082 ∷ 0x1082 ∷ 0x1082 ∷ 0x1082 ∷ 0x1002 ∷ 0x1082 ∷ 0x10a2 ∷ 0x50a2
    ∷ 0x10a2 ∷ 0x10a2 ∷ 0x50a2 ∷ 0x1082 ∷ 0x1082 ∷ 0x1082 ∷ 0x1082 ∷ 0x1082 ∷ 0x1082 ∷ 0x1082
    ∷ 0x1082 ∷ 0x1082 ∷ 0x1082 ∷ 0x1082 ∷ 0x1082 ∷ 0x1082 ∷ 0x1082 ∷ 0x1082 ∷ 0x1082 ∷ 0x1082
    ∷ 0x1082 ∷ 0x21 ∷ 0x1181 ∷ 0x1081 ∷ 0x1281 ∷ 0x1481 ∷ 0x1081 ∷ 0x1281 ∷ 0x1081 ∷ 0x1081 ∷ 0x1081
    ∷ 0x3181 ∷ 0x1081 ∷ 0x1001 ∷ 0x1cc1 ∷ 0x3981 ∷ 0x1081 ∷ 0x1cd1 ∷ 0x1cd1 ∷ 0x1cd1 ∷ 0x1cd1
    ∷ 0x1cd1 ∷ 0x1cd1 ∷ 0x1cd1 ∷ 0x1cd1 ∷ 0x1cd1 ∷ 0x1cd1 ∷ 0x1081 ∷ 0x1081 ∷ 0x1081 ∷ 0x1081
    ∷ 0x1081 ∷ 0x1181 ∷ 0x1181 ∷ 0x1cc5 ∷ 0x1cc5 ∷ 0x1cc5 ∷ 0x1cc5 ∷ 0x1cc5 ∷ 0x1cc5 ∷ 0x1cc5
    ∷ 0x1cc5 ∷ 0x1cc5 ∷ 0x1cc5 ∷ 0x1cc5 ∷ 0x1cc5 ∷ 0x1cc5 ∷ 0x1cc5 ∷ 0x1cc5 ∷ 0x1cc5 ∷ 0x1cc5
    ∷ 0x1cc5 ∷ 0x1cc5 ∷ 0x1cc5 ∷ 0x1cc5 ∷ 0x1cc5 ∷ 0x1cc5 ∷ 0x1cc5 ∷ 0x1cc5 ∷ 0x1cc5 ∷ 0x14c5
    ∷ 0x14c5 ∷ 0x14c5 ∷ 0x14c5 ∷ 0x14c1 ∷ 0x14c1 ∷ 0x1cc5 ∷ 0x1cc5 ∷ 0x1cc5 ∷ 0x1cc5 ∷ 0x1cc5
    ∷ 0x1cc5 ∷ 0x1cc5 ∷ 0x1cc5 ∷ 0x1cc5 ∷ 0x1cc5 ∷ 0x1cc5 ∷ 0x1cc5 ∷ 0x1cc5 ∷ 0x1cc5 ∷ 0x1cc5
    ∷ 0x1cc5 ∷ 0x1cc5 ∷ 0x1cc5 ∷ 0x1cc5 ∷ 0x1cc5 ∷ 0x1cc5 ∷ 0x1cc5 ∷ 0x1cc5 ∷ 0x1cc5 ∷ 0x1cc5
    ∷ 0x1cc5 ∷ 0x14c5 ∷ 0x14c5 ∷ 0x14c5 ∷ 0x1485 ∷ 0x1080 ∷ 0x1080 ∷ 0x1080 ∷ 0x1080 ∷ 0x1080
    ∷ 0x1080 ∷ 0x1080 ∷ 0x1080 ∷ 0x1080 ∷ 0x1080 ∷ 0x1080 ∷ 0x1080 ∷ 0x1080 ∷ 0x1080 ∷ 0x1080
    ∷ 0x1080 ∷ 0x1080 ∷ 0x1080 ∷ 0x1080 ∷ 0x1080 ∷ 0x1080 ∷ 0x1080 ∷ 0x1080 ∷ 0x1080 ∷ 0x1080
    ∷ 0x1080 ∷ 0x1080 ∷ 0x1080 ∷ 0x1080 ∷ 0x1080 ∷ 0x1080 ∷ 0x1080 ∷ 0x1080 ∷ 0x1080 ∷ 0x1080
    ∷ 0x1080 ∷ 0x1080 ∷ 0x1080 ∷ 0x1080 ∷ 0x1080 ∷ 0x1080 ∷ 0x1080 ∷ 0x1080 ∷ 0x1080 ∷ 0x1080
    ∷ 0x1080 ∷ 0x1080 ∷ 0x1080 ∷ 0x1080 ∷ 0x1080 ∷ 0x1080 ∷ 0x1080 ∷ 0x1080 ∷ 0x1080 ∷ 0x1080
    ∷ 0x1080 ∷ 0x1080 ∷ 0x1080 ∷ 0x1080 ∷ 0x1080 ∷ 0x1080 ∷ 0x1080 ∷ 0x1080 ∷ 0x1080 ∷ 0x1080
    ∷ 0x1080 ∷ 0x1080 ∷ 0x1080 ∷ 0x1080 ∷ 0x1080 ∷ 0x1080 ∷ 0x1080 ∷ 0x1080 ∷ 0x1080 ∷ 0x1080
    ∷ 0x1080 ∷ 0x1080 ∷ 0x1080 ∷ 0x1080 ∷ 0x1080 ∷ 0x1080 ∷ 0x1080 ∷ 0x1080 ∷ 0x1080 ∷ 0x1080
    ∷ 0x1080 ∷ 0x1080 ∷ 0x1080 ∷ 0x1080 ∷ 0x1080 ∷ 0x1080 ∷ 0x1080 ∷ 0x1080 ∷ 0x1080 ∷ 0x1080
    ∷ 0x1080 ∷ 0x1080 ∷ 0x1080 ∷ 0x1080 ∷ 0x1080 ∷ 0x1080 ∷ 0x1080 ∷ 0x1080 ∷ 0x1080 ∷ 0x1080
    ∷ 0x1080 ∷ 0x1080 ∷ 0x1080 ∷ 0x1080 ∷ 0x1080 ∷ 0x1080 ∷ 0x1080 ∷ 0x1080 ∷ 0x1080 ∷ 0x1080
    ∷ 0x1080 ∷ 0x1080 ∷ 0x1080 ∷ 0x1080 ∷ 0x1080 ∷ 0x1080 ∷ 0x1080 ∷ 0x1080 ∷ 0x1080 ∷ 0x1080
    ∷ 0x1080 ∷ 0x1080 ∷ 0x1080 ∷ 0x1080 ∷ []

unfoldable pub to_lower : ℕ → ℕ
unfolding to_lower_tab
to_lower c = get_or to_lower_tab c 0

unfoldable pub to_upper : ℕ → ℕ
unfolding to_upper_tab
to_upper c = get_or to_upper_tab c 0

-- A macro such as IsDigit tests the bits of a class in the table.
unfoldable pub has_class : ℕ → ℕ → Bool
unfolding char_attrs
has_class bits c = not (bit_and (get_or char_attrs c 0) bits == 0)

unfoldable pub is_eol : ℕ → Bool
unfolding has_class
is_eol c = has_class 0x4000 c

unfoldable pub is_non_eos : ℕ → Bool
unfolding has_class
is_non_eos c = has_class 0x1000 c

unfoldable pub is_digit : ℕ → Bool
unfolding has_class
is_digit c = has_class 0x010 c

unfoldable pub is_nick_char : ℕ → Bool
unfolding has_class
is_nick_char c = has_class 0x040 c

unfoldable pub is_chan_char : ℕ → Bool
unfolding has_class
is_chan_char c = has_class 0x080 c

-- The text holds characters of a C string: bytes, and no NUL.
abbrev pub IsChar : ℕ → Type 0
IsChar c = (0 < c) × (c < 256)
