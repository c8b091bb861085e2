-- ===== src/Alert/Delivery.antt =====
-- When `Evaluate` sends, and what it remembers.
use sounding.Prelude.{
  ◌≡◌, ◌≢◌, refl, false, some, List, [], ◌∷◌, map, find_first, Bool-cases, Option-cases, inl, inr,
  ◌⊎◌, insert, Float, List-cases,
}
use mathlib.Core.List.{cons-ne-nil}
use sounding.Clock.{Time, Zone}
use sounding.Notify.{Message, Notifier}
use sounding.Alert.Rules.{Rule, silenced}
use sounding.Alert.Manager.{
  Event, Manager, event_key, matches, is_cooling, deliver, evaluate, message_of, title,
}

-- The conditions under which an event is sent.
pub record IsDue (z : Zone) (now : Time) (ev : Event) (m : Manager) : Type 0 where
  pub rested : is_cooling now (event_key ev) m ≡ false
  pub rule : Rule
  pub first : find_first (matches ev) m.rules ≡ some rule
  pub loud : silenced z now rule ≡ false
  pub channels : m.notifiers ≢ []

abbrev pub Sending : Type 0
Sending = List (Notifier × Message)

module _ (z : Zone) (now : Time) (ev : Event) (m : Manager) where
  abbrev pub remembered : Manager
  remembered = record m { last_sent = insert (event_key ev) now m.last_sent }

  abbrev pub sending : Sending
  sending = map (λ c. (c, message_of ev)) m.notifiers

  deliver-sent :
      (t : Float) (ns : List Notifier)
      → ns ≢ []
      → deliver now (record ev { threshold = t }) ns m
        ≡ (remembered, map (λ c. (c, message_of ev)) ns)
  unfolding deliver message_of title event_key
  deliver-sent t [] h = absurd (h refl)
  deliver-sent t (n ∷ ns) h = refl

  -- An event that is due (its kind and node are not cooling down, the first rule that matches it is not
  -- silenced, and there is a channel) goes to every channel, in their order, and its instant is
  -- remembered.
  pub evaluate-sent : IsDue z now ev m → evaluate z now ev m ≡ (remembered, sending)
  unfolding evaluate
  evaluate-sent d =
      rw (d.rested, d.first, d.loud) (deliver-sent d.rule.threshold m.notifiers d.channels)

  pub evaluate-cases : (evaluate z now ev m ≡ (m, [])) ⊎ IsDue z now ev m
  unfolding evaluate
  evaluate-cases = elim (Bool-cases (is_cooling now (event_key ev) m)) [
    | inl cooling ↦ inl (rw cooling)
    | inr rested ↦ elim (Option-cases (find_first (matches ev) m.rules)) [
      | inl missing ↦ inl (rw (rested, missing))
      | inr (r, first) ↦ elim (Bool-cases (silenced z now r)) [
        | inl quiet ↦ inl (rw (rested, first, quiet))
        | inr loud ↦ elim (List-cases m.notifiers) [
          | inl empty ↦ inl (rw (rested, first, loud, empty) (unfold deliver in refl))
          | inr (n, ns, some_left) ↦ inr (record {
            rested = rested;
            rule = r;
            first = first;
            loud = loud;
            channels = rw some_left (cons-ne-nil n ns);
          })
        ]
      ]
    ]
  ]

  -- An event that is not due sends nothing and leaves the manager as it was. It is due if its kind and node are not
  -- cooling down, the first rule that matches it is not silenced, and there is a channel.
  pub evaluate-unsent : ¬ IsDue z now ev m → evaluate z now ev m ≡ (m, [])
  evaluate-unsent h = elim evaluate-cases [ inl e ↦ e | inr d ↦ absurd (h d) ]
