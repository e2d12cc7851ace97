-- ===== src/Rules/Severity.antt =====
-- severityOrder and normalizedSeverity of internal/rules: off < warn < error, and none is error.
use rootline.Base.{ℕ, String, Option, none, some, ◌==◌, if◌then◌else◌}

-- severityOrder[severity], with whether it is there
unfoldable pub severity_order : String → Option ℕ
severity_order s =
    if s == "off"
    then some 0
    else if s == "warn"
    then some 1
    else if s == "error"
    then some 2
    else none

-- The severity that an empty one stands for.
unfoldable pub normal : String → String
normal s = if s == "" then "error" else s

-- normalizedSeverity, with the order of the severity in place of the flag.
unfoldable pub normalized_severity : String → Option (String × ℕ)
unfolding severity_order normal
normalized_severity s = elim (severity_order (normal s)) [
  | none ↦ none
  | some n ↦ some (normal s, n)
]

-- How strict a severity is: an unknown one has no rank.
abbrev pub rank : String → Option ℕ
rank s = severity_order (normal s)
