-- ===== src/Group.antt =====
-- group.go: worker group names with ${tag} sequences.
pub mod Parse
mod Tests
use go_res.Base.{
  ℕ, zero, suc, ◌+◌, if◌then◌else◌, ◌==◌, ltb, str_eq, get_elem?, Bytes, Bool, true, false, not,
  ◌&&◌, ◌||◌, Option, none, some, List, [], ◌∷◌, ◌++◌,
}
use go_res.Base.{
  Result, ok, panic, ◌>>=◌, require, index_out_of_range, expected_brace, non_alpha_numeric,
  empty_group_tag, group_tag_not_found, unexpected_end_of_group_tag,
}
use go_res.Parts.{split_pattern}
use go_res.Pattern.Valid.{is_nil, pmark}

pub record GPart : Type 0 where
  pub str : Bytes
  pub idx : ℕ

-- A nil slice is `none`.
abbrev pub Group : Type 0
Group = Option (List GPart)

-- The labels of the state machine; `dollar` is the test behind a $.
pub data Mode : Type 0 where
  state_default dollar state_tag : Mode

-- `text` is g[start:i], and `gr` the parts so far.
pub record Parser : Type 0 where
  pub mode : Mode
  pub pos : ℕ
  pub text : Bytes
  pub gr : List GPart

-- `for j, t := range tokens { if t == tag { … } }`
pub find_token : ℕ → Bytes → List Bytes → Option ℕ
find_token j tag [] = none
find_token j tag (t ∷ tokens) = if str_eq t tag then some j else find_token (suc j) tag tokens

-- `if i > start { gr = append(gr, gpart{str: g[start:i]}) }`
pub flush : Bytes → List GPart → List GPart
flush [] gr = gr
flush (c ∷ text) gr = gr ++ record { str = c ∷ text; idx = 0 } ∷ []

is_tag_char : ℕ → Bool
is_tag_char c =
    (not (ltb c b'A') && not (ltb b'Z' c))
    || (not (ltb c b'a') && not (ltb b'z' c))
    || (not (ltb c b'0') && not (ltb b'9' c))
    || c == b'_'
    || c == b'-'

end_tag : List Bytes → Parser → Result Parser
unfolding find_token
end_tag tokens st =
    if is_nil st.text
    then panic (empty_group_tag st.pos)
    else elim (find_token 0 (pmark ∷ st.text) tokens) [
      | none ↦ panic (group_tag_not_found st.text)
      | some j ↦ ok (record {
        mode = state_default;
        pos = st.pos + 1;
        text = [];
        gr = st.gr ++ record { str = []; idx = j } ∷ [];
      })
    ]

-- One round, on the byte `c` at the position.
step : List Bytes → Mode → Parser → ℕ → Result Parser
step tokens state_default st c =
    if c == pmark
    then ok (record { mode = dollar; pos = st.pos + 1; text = []; gr = flush st.text st.gr })
    else ok (record st { pos = st.pos + 1; text = st.text ++ c ∷ [] })
step tokens dollar st c =
    if not (c == b'{')
    then panic (expected_brace st.pos)
    else ok (record st { mode = state_tag; pos = st.pos + 1; text = [] })
step tokens state_tag st c =
    if c == b'}'
    then end_tag tokens st
    else if not (is_tag_char c)
    then panic (non_alpha_numeric st.pos)
    else ok (record st { pos = st.pos + 1; text = st.text ++ c ∷ [] })

-- At the end of the text.
finish : Mode → Parser → Result (List GPart)
finish state_default st = ok (flush st.text st.gr)
finish dollar st = panic unexpected_end_of_group_tag
finish state_tag st = panic unexpected_end_of_group_tag

parse_from : List Bytes → Parser → Bytes → Result (List GPart)
parse_from tokens st [] = finish st.mode st
parse_from tokens st (c ∷ g) = do st' ← step tokens st.mode st c; parse_from tokens st' g

abbrev initial : Parser
initial = record { mode = state_default; pos = 0; text = []; gr = [] }

unfoldable pub parse_group : Bytes → Bytes → Result Group
unfolding parse_from step end_tag finish flush is_tag_char find_token
parse_group [] pattern = ok none
parse_group (c ∷ g) pattern = do
  gr ← parse_from (split_pattern pattern) initial (c ∷ g)
  ok (some gr)

-- `tokens[gp.idx]` or `gp.str`
part_string : List Bytes → GPart → Result Bytes
part_string tokens gp =
    if is_nil gp.str
    then elim (get_elem? tokens gp.idx) [ none ↦ panic index_out_of_range | some t ↦ ok t ]
    else ok gp.str

write_parts : List Bytes → List GPart → Result Bytes
write_parts tokens [] = ok []
write_parts tokens (gp ∷ gr) = do
  s ← part_string tokens gp
  rest ← write_parts tokens gr
  ok (s ++ rest)

unfoldable pub to_string : Group → Bytes → List Bytes → Result Bytes
unfolding write_parts part_string
to_string none rname tokens = ok rname
to_string (some []) rname tokens = ok []
to_string (some (gp ∷ [])) rname tokens =
    if not (is_nil gp.str) then ok gp.str else write_parts tokens (gp ∷ [])
to_string (some (gp ∷ gq ∷ gr)) rname tokens = write_parts tokens (gp ∷ gq ∷ gr)
