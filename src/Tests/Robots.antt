-- ===== src/Tests/Robots.antt =====
-- A run of the robots.txt reader (robots.c).
use one_tool.Common.{ℕ, ◌+◌, ◌≡◌, true, false, List, [], ◌∷◌, ◌++◌, ◌&&◌, leb, refl, if◌then◌else◌}
use one_tool.Common.Text.{codes, str_eq}
use one_tool.Net.Url.{starts_with, break_at}
use one_tool.Net.Robots.{
  token_lines, read_line, split_line, keyed, trim_left, trim_right, ua_matches, contains, longer,
  apply_rule, apply_line, apply_lines, rules_allow,
}
use one_tool.Net.Robots.Longest.{
  Decides, split_groups, group_rules, rules_on, behind_match, matching,
}
use one_tool.Net.Robots.Checked.{
  rules_for, is_served, agent_lc, net_robots_is_allowed, down_check_robots,
  net_robots_is_allowed-Decides,
}
use one_tool.Common.{some}
use one_tool.Common.Int.{pos}

-- `tolower` on ASCII.
abbrev ascii_lower : ℕ → ℕ
ascii_lower c = if leb 65 c && leb c 90 then c + 32 else c

abbrev text : List ℕ
text =
    codes "User-agent: *"
    ++ (10
        ∷ (codes "Disallow: /private # all of it"
            ++ (10 ∷ (codes "Allow: /private/notes" ++ 10 ∷ []))))

-- The longer Allow wins.
net_robots_is_allowed-Decides_example : Decides ((8, false) ∷ (14, true) ∷ []) true
unfolding rules_for net_robots_is_allowed is_served agent_lc rules_allow apply_lines apply_line
    apply_rule longer ua_matches contains matching split_groups group_rules rules_on behind_match
    token_lines read_line split_line keyed trim_left trim_right starts_with break_at str_eq
net_robots_is_allowed-Decides_example =
    net_robots_is_allowed-Decides ascii_lower (some (text, pos 200)) (codes "/private/notes/1")
      (codes "OneTool")

blocked : down_check_robots ascii_lower false (some (text, pos 200)) (codes "/private/diary") ≡ 1
unfolding down_check_robots net_robots_is_allowed is_served agent_lc rules_allow apply_lines
    apply_line apply_rule longer ua_matches contains token_lines read_line split_line keyed
    trim_left trim_right starts_with break_at str_eq
blocked = refl
