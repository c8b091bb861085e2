-- ===== src/Alert/RuleKeys.antt =====
-- internal/alert/alert.go: the manager's list of rules, read as a map from a kind and a node.
use sounding.Prelude.{
  ◌≡◌, ◌↔◌, refl, true, false, ◌&&◌, not, Option, none, some, List, [], ◌∷◌, arith, Text,
  if◌then◌else◌, All, find_first, same, same_iff, All-keep, Bool-cases, inl, inr,
}
use mathlib.Core.Path.{subst₂}
use sounding.Alert.Rules.{Rule, is_rule_of, set_rule, delete_rule}

-- The rule for a kind and a node.
abbrev pub rule_of : Text → Text → List Rule → Option Rule
rule_of kind node = find_first (is_rule_of kind node)

-- No two rules have the same kind and node.
abbrev pub HasDistinctKeys : List Rule → Type 0
HasDistinctKeys [] = Unit
HasDistinctKeys (r ∷ rules) =
    All (λ ex. is_rule_of r.kind r.node ex ≡ false) rules × HasDistinctKeys rules

-- After `SetRule` the rule of its key is the new one, and each other key has the rule it had.
pub rule_of-set_rule :
    (kind node : Text) (r : Rule) (rules : List Rule)
    → rule_of kind node (set_rule r rules)
      ≡ (if is_rule_of kind node r then some r else rule_of kind node rules)
unfolding set_rule is_rule_of
rule_of-set_rule kind node r [] = refl
rule_of-set_rule kind node r (ex ∷ rules) = ground (
  arith,
  rule_of-set_rule kind node r rules,
  same_iff r.kind kind,
  same_iff r.node node,
  same_iff ex.kind kind,
  same_iff ex.node node,
  same_iff ex.kind r.kind,
  same_iff ex.node r.node,
)

set_rule-All :
    (k n : Text) (r : Rule) (rules : List Rule)
    → All (λ ex. is_rule_of k n ex ≡ false) rules
    → is_rule_of k n r ≡ false
    → All (λ ex. is_rule_of k n ex ≡ false) (set_rule r rules)
unfolding set_rule
set_rule-All k n r [] h e = (e, tt)
set_rule-All k n r (ex ∷ rules) (p, h) e = ground (arith, set_rule-All k n r rules h e)

pub is_rule_of_iff :
    (k n : Text) (r : Rule) → (is_rule_of k n r ≡ true) ↔ ((r.kind ≡ k) × (r.node ≡ n))
unfolding is_rule_of
is_rule_of_iff k n r = ground (arith, same_iff r.kind k, same_iff r.node n)

not_conversely :
    (r ex : Rule) → is_rule_of r.kind r.node ex ≡ false → is_rule_of ex.kind ex.node r ≡ false
not_conversely r ex h =
    ground (arith, is_rule_of_iff r.kind r.node ex, is_rule_of_iff ex.kind ex.node r)

-- `SetRule` keeps the keys distinct.
pub set_rule-HasDistinctKeys :
    (r : Rule) (rules : List Rule) → HasDistinctKeys rules → HasDistinctKeys (set_rule r rules)
unfolding set_rule
set_rule-HasDistinctKeys r [] h = (tt, tt)
set_rule-HasDistinctKeys r (ex ∷ rules) (fresh, h) =
    elim (Bool-cases (is_rule_of r.kind r.node ex)) [
      | inl old ↦
          let (p, q) = (is_rule_of_iff r.kind r.node ex).0 old in
          rw old (subst₂ (λ k n. All (λ x. is_rule_of k n x ≡ false) rules) p q fresh, h)
      | inr new ↦ rw new (
        set_rule-All ex.kind ex.node r rules fresh (not_conversely r ex new),
        set_rule-HasDistinctKeys r rules h,
      )
    ]

-- `DeleteRule` keeps the keys distinct.
pub delete_rule-HasDistinctKeys :
    (kind node : Text) (rules : List Rule)
    → HasDistinctKeys rules
    → HasDistinctKeys (delete_rule kind node rules)
unfolding delete_rule
delete_rule-HasDistinctKeys kind node [] h = tt
delete_rule-HasDistinctKeys kind node (r ∷ rules) (fresh, h) =
    elim (Bool-cases (is_rule_of kind node r)) [
      | inl gone ↦ rw gone (delete_rule-HasDistinctKeys kind node rules h)
      | inr left ↦ rw left (
        All-keep _ (λ x. not (is_rule_of kind node x)) rules fresh,
        delete_rule-HasDistinctKeys kind node rules h,
      )
    ]

-- After `DeleteRule` its key has no rule, and each other key has the rule it had.
pub rule_of-delete_rule :
    (k n kind node : Text) (rules : List Rule)
    → rule_of k n (delete_rule kind node rules)
      ≡ (if same kind k && same node n then none else rule_of k n rules)
unfolding delete_rule is_rule_of
rule_of-delete_rule k n kind node [] = ground arith
rule_of-delete_rule k n kind node (r ∷ rules) = ground (
  arith,
  rule_of-delete_rule k n kind node rules,
  same_iff r.kind k,
  same_iff r.node n,
  same_iff kind k,
  same_iff node n,
  same_iff r.kind kind,
  same_iff r.node node,
)
