-- ===== src/Net/Robots/Longest.antt =====
-- libs/net/robots.c: which rules are in force and match the path, and which of them decides.
use one_tool.Common.{
  ℕ, ◌≤◌, ◌<◌, ◌≡◌, refl, ap, ◌∙◌, inl, inr, Bool, true, false, not, ◌&&◌, ◌||◌, List, [], ◌∷◌,
  ◌++◌, Option, none, some, ltb, if◌then◌else◌, length, map, arith, All, Bool-cases,
}
use one_tool.Common.Text.{is_empty}
use one_tool.Net.Url.{starts_with}
use one_tool.Net.Robots.{
  RuleLine, empty_line, user_agent, rule, other_line, read_line, token_lines, ua_matches, longer,
  apply_rule, apply_line, apply_lines, verdict, rules_allow,
}

abbrev pub Rule : Type 0
Rule = ℕ × Bool

-- The groups of lines between empty ones, which are those of blanks or a comment only: the first, and
-- those behind it.
unfoldable pub split_groups : List RuleLine → List RuleLine × List (List RuleLine)
split_groups [] = ([], [])
split_groups (empty_line ∷ lines) = let r = split_groups lines in ([], r.0 ∷ r.1)
split_groups (user_agent ua ∷ lines) = let r = split_groups lines in (user_agent ua ∷ r.0, r.1)
split_groups (rule allow val ∷ lines) = let r = split_groups lines in (rule allow val ∷ r.0, r.1)
split_groups (other_line ∷ lines) = let r = split_groups lines in (other_line ∷ r.0, r.1)

-- What stands in a group behind its first user agent that names the agent.
unfoldable pub behind_match : (agent : List ℕ) → List RuleLine → List RuleLine
behind_match agent [] = []
behind_match agent (user_agent ua ∷ lines) =
    let rest = behind_match agent lines in if ua_matches ua agent then lines else rest
behind_match agent (empty_line ∷ lines) = behind_match agent lines
behind_match agent (rule allow val ∷ lines) = behind_match agent lines
behind_match agent (other_line ∷ lines) = behind_match agent lines

-- The rules among the lines whose value is not empty and begins the path: their lengths, and whether
-- they allow.
unfoldable pub rules_on : (path : List ℕ) → List RuleLine → List Rule
rules_on path [] = []
rules_on path (rule allow val ∷ lines) =
    let rest = rules_on path lines in
    if not (is_empty val) && starts_with val path then (length val, allow) ∷ rest else rest
rules_on path (empty_line ∷ lines) = rules_on path lines
rules_on path (user_agent ua ∷ lines) = rules_on path lines
rules_on path (other_line ∷ lines) = rules_on path lines

-- In each group, the rules behind the first user agent that matches.
unfoldable pub group_rules : (path agent : List ℕ) → List (List RuleLine) → List Rule
group_rules path agent [] = []
group_rules path agent (g ∷ gs) = rules_on path (behind_match agent g) ++ group_rules path agent gs

-- The rules that the loop weighs, from its state.
unfoldable in_force : (path agent : List ℕ) → (in_group names : Bool) → List RuleLine → List Rule
in_force path agent in_group names [] = []
in_force path agent in_group names (empty_line ∷ lines) = in_force path agent false false lines
in_force path agent in_group names (user_agent ua ∷ lines) =
    in_force path agent (ua_matches ua agent || (names && in_group)) true lines
in_force path agent in_group names (rule allow val ∷ lines) =
    let rest = in_force path agent in_group names lines in
    if in_group && (not (is_empty val) && starts_with val path)
    then (length val, allow) ∷ rest
    else rest
in_force path agent in_group names (other_line ∷ lines) = in_force path agent in_group names lines

-- Inside a matching group the rest of its rules count, outside none, and then the later groups'.
in_force_lem :
    (path agent : List ℕ) (lines : List RuleLine)
    → let r = split_groups lines in
      (in_force path agent true true lines ≡ rules_on path r.0 ++ group_rules path agent r.1)
      × ((names : Bool)
          → in_force path agent false names lines ≡ group_rules path agent (r.0 ∷ r.1))
unfolding in_force rules_on split_groups group_rules behind_match
in_force_lem path agent [] = (refl, λ n. refl)
in_force_lem path agent (empty_line ∷ lines) =
    let (inside, outside) = in_force_lem path agent lines in (outside false, λ n. outside false)
in_force_lem path agent (user_agent ua ∷ lines) =
    let (inside, outside) = in_force_lem path agent lines in
    elim (Bool-cases (ua_matches ua agent)) [
      | inl e ↦ (rw (in_force, e) inside, λ n. rw (in_force, behind_match, e) inside)
      | inr e ↦ (
        rw (in_force, e) inside,
        λ n.
            (let never : (n && false) ≡ false = ground arith in
              rw (in_force, behind_match, e, never) (outside true)),
      )
    ]
in_force_lem path agent (rule allow val ∷ lines) =
    let (inside, outside) = in_force_lem path agent lines in
    (
      elim (Bool-cases (not (is_empty val) && starts_with val path)) [
        | inl e ↦ rw (in_force, rules_on, e) (ap (λ rs. (length val, allow) ∷ rs) inside)
        | inr e ↦ rw (in_force, rules_on, e) inside
      ],
      outside,
    )
in_force_lem path agent (other_line ∷ lines) = in_force_lem path agent lines

-- The first of the longest.
unfoldable pub choose : Option Rule → List Rule → Option Rule
choose best [] = best
choose best (r ∷ rs) = choose (if longer r.0 best then some r else best) rs

choose-apply_rule :
    (path : List ℕ) (allow : Bool) (val : List ℕ) (best : Option Rule) (rs : List Rule)
    → choose (apply_rule path allow val best) rs
      ≡ choose best
          (if not (is_empty val) && starts_with val path then (length val, allow) ∷ rs else rs)
unfolding choose apply_rule
choose-apply_rule path allow val best rs = ground arith

apply_lines-choose :
    (path agent : List ℕ) (lines : List RuleLine) (in_group names : Bool) (best : Option Rule)
    → (apply_lines path agent lines
        (record { current_group_match = in_group; saw_ua = names; best = best })).best
      ≡ choose best (in_force path agent in_group names lines)
unfolding apply_lines apply_line in_force
apply_lines-choose path agent [] g n best = unfold choose in refl
apply_lines-choose path agent (empty_line ∷ lines) g n best =
    apply_lines-choose path agent lines false false best
apply_lines-choose path agent (user_agent ua ∷ lines) g n best =
    apply_lines-choose path agent lines (ua_matches ua agent || (n && g)) true best
apply_lines-choose path agent (rule allow val ∷ lines) true n best =
    apply_lines-choose path agent lines true n (apply_rule path allow val best)
    ∙ choose-apply_rule path allow val best (in_force path agent true n lines)
apply_lines-choose path agent (rule allow val ∷ lines) false n best =
    apply_lines-choose path agent lines false n best
apply_lines-choose path agent (other_line ∷ lines) g n best =
    apply_lines-choose path agent lines g n best

-- `r` is the first of the longest rules of the list.
pub data FirstLongest : List Rule → Rule → Type 0 where
  here : (r : Rule) (rs : List Rule) → All (λ s. s.0 ≤ r.0) rs → FirstLongest (r ∷ rs) r
  there : (s r : Rule) (rs : List Rule) → s.0 < r.0 → FirstLongest rs r → FirstLongest (s ∷ rs) r

-- The answer that the rules give: without a rule, yes; else as the first of the longest says.
pub data Decides : List Rule → Bool → Type 0 where
  no_rule : Decides [] true
  first_longest :
      (rs : List Rule) (len : ℕ) (allow : Bool) → FirstLongest rs (len, allow) → Decides rs allow

data Challenge (best : Rule) (rs : List Rule) : Type 0 where
  kept : All (λ s. s.0 ≤ best.0) rs → choose (some best) rs ≡ some best → Challenge best rs
  beaten :
      (r : Rule)
      → best.0 < r.0
      → FirstLongest rs r
      → choose (some best) rs ≡ some r
      → Challenge best rs

challenge_lem : (best : Rule) (rs : List Rule) → Challenge best rs
unfolding choose longer
challenge_lem best [] = kept tt refl
challenge_lem best (x ∷ rs) = elim (Bool-cases (ltb best.0 x.0)) [
  | inl e ↦ elim (challenge_lem x rs) [
    | kept low c ↦ beaten x (ground arith) (here x rs low) (rw (choose, e) c)
    | beaten r h f c ↦ beaten r (ground arith) (there x r rs h f) (rw (choose, e) c)
  ]
  | inr e ↦ elim (challenge_lem best rs) [
    | kept low c ↦ kept (ground arith, low) (rw (choose, e) c)
    | beaten r h f c ↦ beaten r h (there x r rs (ground arith) f) (rw (choose, e) c)
  ]
]

choose-Decides : (rs : List Rule) → Decides rs (verdict (choose none rs))
unfolding choose longer
choose-Decides [] = no_rule
choose-Decides (x ∷ rs) = elim (challenge_lem x rs) [
  | kept low c ↦ rw c (first_longest (x ∷ rs) x.0 x.1 (here x rs low))
  | beaten r h f c ↦ rw c (first_longest (x ∷ rs) r.0 r.1 (there x r rs h f))
]

-- The rules of a text, in order, that match the path and stand in a group of lines behind the first
-- user agent that names the agent.
unfoldable pub matching : (tolower : ℕ → ℕ) → (txt path agent : List ℕ) → List Rule
matching tolower txt path agent =
    let r = split_groups (map (read_line tolower) (token_lines txt)) in
    group_rules path agent (r.0 ∷ r.1)

-- The answer of `rules_allow` is what the rules in force that match the path give.
pub rules_allow-Decides :
    (tolower : ℕ → ℕ) (txt path agent : List ℕ)
    → Decides (matching tolower txt path agent) (rules_allow tolower txt path agent)
unfolding rules_allow matching
rules_allow-Decides tolower txt path agent =
    let lines = map (read_line tolower) (token_lines txt) in
    rw
      (
        apply_lines-choose path agent lines false false none,
        (in_force_lem path agent lines).1 false,
      )
      (choose-Decides _)
