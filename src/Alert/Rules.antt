-- ===== src/Alert/Rules.antt =====
-- internal/alert/alert.go: rules, the maintenance windows that silence them, and the manager's list
-- of rules.
use sounding.Prelude.{
  Bool, false, ◌||◌, ◌&&◌, not, none, some, List, [], ◌∷◌, Text, ltb, if◌then◌else◌, any, keep,
  same, leb_text, ltb_text, Float, is_empty,
}
use sounding.Strings.{cut_at, trim_space}
use sounding.Clock.{Time, Zone, clock_text, minute_of_day}

pub record Rule : Type 0 where
  pub kind : Text
  pub node : Text
  pub threshold : Float
  pub silence_until : Text
  pub mute_windows : List Text

-- `cur` lies between two times of the day; a window that ends before it starts goes past midnight.
unfoldable pub between : Text → Text → Text → Bool
between cur start end =
    if leb_text start end
    then leb_text start cur && ltb_text cur end
    else leb_text start cur || ltb_text cur end

-- One round of the loop over `MuteWindows`.
unfoldable pub in_window : Text → Text → Bool
unfolding between
in_window cur w = elim (cut_at b'-' w) [
  | none ↦ false
  | some (start, end) ↦ between cur (trim_space start) (trim_space end)
]

-- `now.Before(t)` for a `SilenceUntil` that is set and parses.
unfoldable pub before_deadline : Zone → Time → Text → Bool
before_deadline z now until =
    if is_empty until
    then false
    else elim (z.parse_time until) [ none ↦ false | some t ↦ ltb now t ]

unfoldable pub silenced : Zone → Time → Rule → Bool
unfolding before_deadline
silenced z now r =
    before_deadline z now r.silence_until
    || any (in_window (clock_text (minute_of_day z now))) r.mute_windows

-- `r.Kind == kind && r.Node == node`
unfoldable pub is_rule_of : Text → Text → Rule → Bool
is_rule_of kind node r = same r.kind kind && same r.node node

-- `SetRule`: the first rule of the same kind and node is replaced, and else the rule is appended.
unfoldable pub set_rule : Rule → List Rule → List Rule
unfolding is_rule_of
set_rule r [] = r ∷ []
set_rule r (ex ∷ rules) = if is_rule_of r.kind r.node ex then r ∷ rules else ex ∷ set_rule r rules

-- `DeleteRule`
unfoldable pub delete_rule : Text → Text → List Rule → List Rule
unfolding is_rule_of
delete_rule kind node rules = keep (λ r. not (is_rule_of kind node r)) rules
