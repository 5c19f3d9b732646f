-- ===== src/Net/Robots/Checked.antt =====
-- libs/net/robots.c (net_robots_is_allowed) and tools/network/down/core/robots.c: the answer for a
-- host's robots.txt. `fetched` stands for what fetch_robots gives: none on a failure, else the text
-- and the status code.
use one_tool.Common.{
  ℕ, ◌≡◌, refl, sym, inl, inr, Bool, true, false, not, ◌&&◌, List, [], Option, none, some,
  if◌then◌else◌, take, map, ◌==◌, Bool-cases,
}
use one_tool.Common.Int.{ℤ, pos, leb_ℤ}
use one_tool.Common.Text.{codes}
use one_tool.Net.Robots.{rules_allow}
use one_tool.Net.Robots.Longest.{Rule, Decides, no_rule, matching, rules_allow-Decides}

unfoldable pub is_served : ℤ → Bool
is_served status = leb_ℤ (pos 200) status && not (leb_ℤ (pos 300) status)

module _ (tolower : ℕ → ℕ) where
  -- The copy of the agent's name, cut off at `sizeof(agent_lc) - 1`.
  unfoldable pub agent_lc : List ℕ → List ℕ
  agent_lc user_agent = map tolower (take 127 user_agent)

  unfoldable pub net_robots_is_allowed :
      (fetched : Option (List ℕ × ℤ)) → (path user_agent : List ℕ) → Bool
  net_robots_is_allowed none path user_agent = true
  net_robots_is_allowed (some (txt, status)) path user_agent =
      if is_served status then rules_allow tolower txt path (agent_lc user_agent) else true

  -- down_check_robots: its exit status.
  unfoldable pub down_check_robots :
      (ignore_robots : Bool) → (fetched : Option (List ℕ × ℤ)) → (path : List ℕ) → ℕ
  down_check_robots ignore_robots fetched path =
      if ignore_robots
      then 0
      else if net_robots_is_allowed fetched path (codes "onetool-down")
      then 0
      else 1

-- The rules that hold for the path: those of a text that was fetched with a status of 200 to 299.
unfoldable pub rules_for :
    (tolower : ℕ → ℕ) → (fetched : Option (List ℕ × ℤ)) → (path user_agent : List ℕ) → List Rule
rules_for tolower none path user_agent = []
rules_for tolower (some (txt, status)) path user_agent =
    if is_served status then matching tolower txt path (agent_lc tolower user_agent) else []

exit_lem : (allowed : Bool) → allowed ≡ ((if allowed then 0 else 1) == 0)
exit_lem true = refl
exit_lem false = refl

module _ (tolower : ℕ → ℕ) where
  -- The answer is what the rules that hold for the path give, those of a text fetched with a status of
  -- 200 to 299 that match it and stand, in a group of lines between lines of blanks or comments only,
  -- behind the first user agent that matches, rules of further user agents in the group included: yes
  -- where there is none, else as the first of the longest of them says.
  pub net_robots_is_allowed-Decides :
      (fetched : Option (List ℕ × ℤ)) (path user_agent : List ℕ)
      → Decides
          (rules_for tolower fetched path user_agent)
          (net_robots_is_allowed tolower fetched path user_agent)
  unfolding net_robots_is_allowed rules_for
  net_robots_is_allowed-Decides none path user_agent = no_rule
  net_robots_is_allowed-Decides (some (txt, status)) path user_agent =
      elim (Bool-cases (is_served status)) [
        | inl e ↦ rw e (rules_allow-Decides tolower txt path (agent_lc tolower user_agent))
        | inr e ↦ rw e no_rule
      ]

  -- So the tool blocks a path only when a rule that holds for its agent says so.
  down_check_robots-Decides :
      (ignore : Bool) (fetched : Option (List ℕ × ℤ)) (path : List ℕ)
      → Decides
          (if ignore then [] else rules_for tolower fetched path (codes "onetool-down"))
          (down_check_robots tolower ignore fetched path == 0)
  unfolding down_check_robots
  down_check_robots-Decides true fetched path = no_rule
  down_check_robots-Decides false fetched path =
      rw (sym (exit_lem (net_robots_is_allowed tolower fetched path (codes "onetool-down"))))
        (net_robots_is_allowed-Decides fetched path (codes "onetool-down"))
