-- ===== src/Alert/Apart.antt =====
-- internal/alert/alert.go: which earlier events an event's cooldown is about.
use sounding.Prelude.{
  ◌≡◌, ◌≢◌, refl, sym, ap, ◌∙◌, inl, inr, Bool-cases, Option-cases, List, [], ◌∷◌, Text, same_iff,
  insert, lookup, lookup-insert, find_first, arith,
}
use mathlib.Core.Option.{some-injective}
use sounding.Strings.{cut_at}
use sounding.Strings.Laws.{Lacks, cut_at-append}
use sounding.Clock.{Time, Zone}
use sounding.Alert.Rules.{silenced}
use sounding.Notify.{Notifier}
use sounding.Alert.Manager.{Event, Manager, event_key, is_cooling, evaluate, deliver, matches}
use sounding.Alert.Delivery.{evaluate-sent, evaluate-cases}

-- The kind and the node of an event.
abbrev pub subject : Event → Text × Text
subject ev = (ev.kind, ev.node)

-- Events with one key are about one subject.
event_key-subject :
    (ev other : Event)
    → Lacks b'|' ev.kind
    → Lacks b'|' other.kind
    → event_key ev ≡ event_key other
    → subject ev ≡ subject other
unfolding event_key
event_key-subject ev other p q e = some-injective (subject ev) (subject other) (
    sym (cut_at-append b'|' ev.kind ev.node p)
    ∙ ap (cut_at b'|') e
    ∙ cut_at-append b'|' other.kind other.node q)

deliver-alike :
    (now : Time) (ev : Event) (ns : List Notifier) (m m' : Manager)
    → (deliver now ev ns m).1 ≡ (deliver now ev ns m').1
unfolding deliver
deliver-alike now ev [] m m' = refl
deliver-alike now ev (n ∷ ns) m m' = refl

is_cooling-alike :
    (now : Time) (key : Text) (m : Manager) (log : List (Text × Time))
    → lookup key log ≡ lookup key m.last_sent
    → is_cooling now key (record m { last_sent = log }) ≡ is_cooling now key m
unfolding is_cooling
is_cooling-alike now key m log e = rw (is_cooling, e) refl

-- What is sent depends on the log only through the cooldown of the event's key.
evaluate-alike :
    (z : Zone) (now : Time) (ev : Event) (m : Manager) (log : List (Text × Time))
    → lookup (event_key ev) log ≡ lookup (event_key ev) m.last_sent
    → (evaluate z now ev (record m { last_sent = log })).1 ≡ (evaluate z now ev m).1
unfolding evaluate
evaluate-alike z now ev m log e =
    let alike = is_cooling-alike now (event_key ev) m log e in
    elim (Bool-cases (is_cooling now (event_key ev) m)) [
      | inl cooling ↦ rw (alike, cooling) refl
      | inr rested ↦ elim (Option-cases (find_first (matches ev) m.rules)) [
        | inl missing ↦ rw (alike, rested, missing) refl
        | inr (r, first) ↦ elim (Bool-cases (silenced z now r)) [
          | inl quiet ↦ rw (alike, rested, first, quiet) refl
          | inr loud ↦
              rw (alike, rested, first, loud)
                (deliver-alike now (record ev { threshold = r.threshold }) m.notifiers _ _)
        ]
      ]
    ]

lookup-insert_ne :
    (k j : Text) (v : Time) (m : List (Text × Time)) → k ≢ j → lookup j (insert k v m) ≡ lookup j m
lookup-insert_ne k j v m apart = ground (arith, lookup-insert k j v m, same_iff k j)

-- An event of another kind or another node, evaluated at any time before, changes nothing of what an event sends: the
-- cooldown is one of the kind and the node. Kinds hold no vertical bar.
pub evaluate-apart :
    (z : Zone) (now later : Time) (ev other : Event) (m : Manager)
    → Lacks b'|' ev.kind
    → Lacks b'|' other.kind
    → subject ev ≢ subject other
    → (evaluate z later ev (evaluate z now other m).0).1 ≡ (evaluate z later ev m).1
evaluate-apart z now later ev other m p q apart = elim (evaluate-cases z now other m) [
  | inl unsent ↦ rw unsent refl
  | inr due ↦ rw (evaluate-sent z now other m due) (
      evaluate-alike z later ev m (insert (event_key other) now m.last_sent) (
        lookup-insert_ne (event_key other) (event_key ev) now m.last_sent
          (λ e. apart (event_key-subject ev other p q (sym e)))))
]
