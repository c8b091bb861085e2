-- ===== src/Alert/Cooldown.antt =====
-- internal/alert/alert.go: sequences of calls of Evaluate, and the log of what they send.
use sounding.Prelude.{
  ℕ, ◌≡◌, ◌≢◌, false, some, List, [], ◌∷◌, arith, ◌+◌, ◌<◌, ◌≤◌, map, Text, All, same, same_iff,
  Bool-cases, inl, inr, lookup, lookup-insert, lookup-insert_self, List-cases,
}
use sounding.Clock.{Time, Zone, Duration}
use sounding.Notify.{Message, Notifier}
use sounding.Alert.Manager.{Event, Manager, event_key, is_cooling, evaluate}
use sounding.Alert.Delivery.{remembered, evaluate-sent, evaluate-cases}

record_sent : Text × Time → List (Notifier × Message) → List (Text × Time) → List (Text × Time)
record_sent e [] log = log
record_sent e (_ ∷ _) log = e ∷ log

-- The keys that events at given instants are sent under, with the instants, first to last.
unfoldable pub sent_log : Zone → List (Time × Event) → Manager → List (Text × Time)
unfolding record_sent
sent_log z [] m = []
sent_log z ((now, ev) ∷ evs) m =
    let (m', sent) = evaluate z now ev m in record_sent (event_key ev, now) sent (sent_log z evs m')

-- Two entries of one key are at least a cooldown apart.
abbrev pub NotBefore : Text → Time → List (Text × Time) → Type 0
NotBefore key t = All (λ e. e.0 ≡ key → t ≤ e.1)

abbrev pub IsSpaced : Duration → List (Text × Time) → Type 0
IsSpaced c [] = Unit
IsSpaced c ((key, t) ∷ log) = NotBefore key (t + c) log × IsSpaced c log

record_sent-map :
    (e : Text × Time) (log : List (Text × Time)) (f : Notifier → Notifier × Message)
    (ns : List Notifier)
    → ns ≢ []
    → record_sent e (map f ns) log ≡ e ∷ log
unfolding record_sent
record_sent-map e log f ns h = elim (List-cases ns) [
  | inl empty ↦ absurd (h empty)
  | inr (n, rest, some_left) ↦ rw some_left
]

module _ (z : Zone) (now : Time) (ev : Event) where
  -- The state after an event, for the log: it is unchanged, or a key that was at rest is recorded.
  data Round (m : Manager) (rest : List (Time × Event)) : List (Text × Time) → Type 0 where
    unsent : {log : List (Text × Time)} → log ≡ sent_log z rest m → Round m rest log
    sent :
        {log : List (Text × Time)}
        → is_cooling now (event_key ev) m ≡ false
        → log ≡ (event_key ev, now) ∷ sent_log z rest (remembered z now ev m)
        → Round m rest log

  sent_log-Round :
      (m : Manager) (rest : List (Time × Event)) → Round m rest (sent_log z ((now, ev) ∷ rest) m)
  unfolding sent_log
  sent_log-Round m rest = elim (evaluate-cases z now ev m) [
    | inl unsent_eq ↦ unsent (rw unsent_eq)
    | inr d ↦ sent d.rested (rw (evaluate-sent z now ev m d) (record_sent-map _ _ _ _ d.channels))
  ]

-- Whether the entry of a key is no older than an instant.
abbrev IsSince : Text → Time → Manager → Type 0
IsSince key t m = (u : Time) × (lookup key m.last_sent ≡ some u) × (t ≤ u)

-- A key that is at rest and was last sent at `t` or later is at rest a cooldown later.
rested-le :
    (key : Text) (t c now : ℕ) (m : Manager)
    → m.cooldown ≡ c
    → 0 < c
    → IsSince key t m
    → is_cooling now key m ≡ false
    → t + c ≤ now
unfolding is_cooling
rested-le key t c now m e p (u, found, le) rested = ground arith

remembered-IsSince :
    (z : Zone) (now : Time) (ev : Event) (m : Manager) (key : Text) (t : Time)
    → IsSince key t m
    → (event_key ev ≡ key → t ≤ now)
    → IsSince key t (remembered z now ev m)
remembered-IsSince z now ev m key t (u, found, le) later =
    elim (Bool-cases (same (event_key ev) key)) [
      | inl equal ↦
          let p = (same_iff (event_key ev) key).0 equal in
          (now, ground (arith, lookup-insert (event_key ev) key now m.last_sent), later p)
      | inr other ↦ (u, ground (arith, lookup-insert (event_key ev) key now m.last_sent), le)
    ]

module _ (z : Zone) (key : Text) (t c : ℕ) (p : 0 < c) where
  sent_log-NotBefore :
      (evs : List (Time × Event)) (m : Manager)
      → m.cooldown ≡ c
      → IsSince key t m
      → NotBefore key (t + c) (sent_log z evs m)
  sent_log-NotBefore [] m e since = unfold sent_log in tt
  sent_log-NotBefore ((now, ev) ∷ evs) m e since =
      go (sent_log-Round z now ev m evs) (sent_log-NotBefore evs)
    where
      go :
          {log : List (Text × Time)}
          → Round z now ev m evs log
          → ((m' : Manager)
              → m'.cooldown ≡ c
              → IsSince key t m'
              → NotBefore key (t + c) (sent_log z evs m'))
          → NotBefore key (t + c) log
      go (unsent q) ih = rw q (ih m e since)
      go (sent rested q) ih =
          let late : event_key ev ≡ key → t + c ≤ now =
            λ same_key. rested-le key t c now m e p since (rw same_key at rested) in
          rw q (
            late,
            ih (remembered z now ev m) e
                (remembered-IsSince z now ev m key t since (λ k. omega (arith, late k))),
          )

module _ (z : Zone) (c : ℕ) (p : 0 < c) where
  -- Two messages for the same kind and node are at least a cooldown apart, over any sequence of
  -- events and any readings of the clock.
  pub sent_log-IsSpaced :
      (evs : List (Time × Event)) (m : Manager) → m.cooldown ≡ c → IsSpaced c (sent_log z evs m)
  sent_log-IsSpaced [] m e = unfold sent_log in tt
  sent_log-IsSpaced ((now, ev) ∷ evs) m e =
      go (sent_log-Round z now ev m evs) (sent_log-IsSpaced evs)
    where
      go :
          {log : List (Text × Time)}
          → Round z now ev m evs log
          → ((m' : Manager) → m'.cooldown ≡ c → IsSpaced c (sent_log z evs m'))
          → IsSpaced c log
      go (unsent q) ih = rw q (ih m e)
      go (sent rested q) ih = rw q (
        sent_log-NotBefore z (event_key ev) now c p evs (remembered z now ev m) e
            (now, lookup-insert_self (event_key ev) now m.last_sent, omega arith),
        ih (remembered z now ev m) e,
      )
