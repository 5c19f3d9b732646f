-- ===== src/Net/Robots.antt =====
-- libs/net/robots.c: whether a robots.txt allows a path. Texts are lists of characters, and their
-- lengths are below 2 ^ 31. `tolower` is a parameter; copying the text does not fail. Fetching the
-- file is socket I/O.
pub mod Longest
pub mod Checked
use one_tool.Common.{
  ℕ, ◌+◌, Bool, true, false, not, ◌&&◌, ◌||◌, List, [], ◌∷◌, ◌++◌, Option, none, some, ltb, ◌==◌,
  if◌then◌else◌, length, drop, map,
}
use one_tool.Common.Text.{codes, str_eq, is_empty}
use one_tool.Net.Url.{starts_with, break_at}

abbrev pub is_blank : ℕ → Bool
is_blank c = c == 32 || c == 9 || c == 13 || c == 10

unfoldable pub trim_left : List ℕ → List ℕ
trim_left [] = []
trim_left (c ∷ s) = let rest = trim_left s in if is_blank c then rest else c ∷ s

unfoldable pub trim_right : List ℕ → List ℕ
trim_right [] = []
trim_right (c ∷ s) = let rest = trim_right s in if is_empty rest && is_blank c then [] else c ∷ rest

-- `strstr(target, ua) != NULL`.
unfoldable pub contains : (ua target : List ℕ) → Bool
contains ua [] = starts_with ua []
contains ua (c ∷ target) = starts_with ua (c ∷ target) || contains ua target

unfoldable pub ua_matches : (ua target : List ℕ) → Bool
ua_matches ua target = str_eq ua (codes "*") || contains ua target

-- The pieces that `strtok(work, "\n")` gives: the longest runs without a newline, none empty.
unfoldable pub token_lines : List ℕ → List (List ℕ)
token_lines [] = []
token_lines (c ∷ s) =
    let rest = token_lines s in
    if c == 10 then rest else elim s [
      | [] ↦ (c ∷ []) ∷ []
      | d ∷ more ↦
          if d == 10
          then (c ∷ []) ∷ rest
          else elim rest [ [] ↦ (c ∷ []) ∷ [] | line ∷ lines ↦ (c ∷ line) ∷ lines ]
    ]

-- A line as the loop reads it: nothing left of it, a user agent, an Allow or Disallow with its
-- value, or anything else.
pub data RuleLine : Type 0 where
  empty_line : RuleLine
  user_agent : List ℕ → RuleLine
  rule : (allow : Bool) → List ℕ → RuleLine
  other_line : RuleLine

unfoldable pub keyed : (key val : List ℕ) → RuleLine
keyed key val =
    if str_eq key (codes "user-agent")
    then user_agent val
    else if str_eq key (codes "allow")
    then rule true val
    else if str_eq key (codes "disallow")
    then rule false val
    else other_line

module _ (tolower : ℕ → ℕ) where
  unfoldable pub split_line : List ℕ × List ℕ → RuleLine
  split_line (key, []) = other_line
  split_line (key, colon ∷ val) =
      keyed (map tolower (trim_right (trim_left key))) (map tolower (trim_right (trim_left val)))

  unfoldable pub read_line : List ℕ → RuleLine
  read_line line =
      let p = trim_right (trim_left (break_at 35 line).0) in
      if is_empty p then empty_line else split_line (break_at 58 p)

-- `current_group_match`, `saw_ua`, and the best rule so far: `best_len`, below 0 for none, and
-- `best_allow`.
pub record Rules : Type 0 where
  pub current_group_match : Bool
  pub saw_ua : Bool
  pub best : Option (ℕ × Bool)

-- `(int)rlen > best_len`.
unfoldable pub longer : ℕ → Option (ℕ × Bool) → Bool
longer len none = true
longer len (some best) = ltb best.0 len

unfoldable pub apply_rule :
    (path : List ℕ) → (allow : Bool) → (val : List ℕ) → Option (ℕ × Bool) → Option (ℕ × Bool)
apply_rule path allow val best =
    if not (is_empty val) && starts_with val path && longer (length val) best
    then some (length val, allow)
    else best

-- One round of the loop.
unfoldable pub apply_line : (path agent : List ℕ) → RuleLine → Rules → Rules
apply_line path agent empty_line st = record st { saw_ua = false; current_group_match = false }
apply_line path agent (user_agent ua) st = record st {
  saw_ua = true;
  current_group_match = ua_matches ua agent || (st.saw_ua && st.current_group_match);
}
apply_line path agent (rule allow val) st =
    if st.current_group_match then record st { best = apply_rule path allow val st.best } else st
apply_line path agent other_line st = st

unfoldable pub apply_lines : (path agent : List ℕ) → List RuleLine → Rules → Rules
apply_lines path agent [] st = st
apply_lines path agent (line ∷ lines) st =
    apply_lines path agent lines (apply_line path agent line st)

abbrev pub verdict : Option (ℕ × Bool) → Bool
verdict none = true
verdict (some best) = best.1

unfoldable pub rules_allow : (tolower : ℕ → ℕ) → (txt path agent : List ℕ) → Bool
rules_allow tolower txt path agent =
    verdict
      (apply_lines path agent (map (read_line tolower) (token_lines txt))
        (record { current_group_match = false; saw_ua = false; best = none })).best
