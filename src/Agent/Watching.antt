-- ===== src/Agent/Watching.antt =====
-- cmd/agent/config.go: LoadConfig, with its goroutines that read the file again on a signal and on a timer.
use sounding.Prelude.{
  ◌≡◌, refl, ap, sym, ◌∙◌, ◌⊎◌, inl, inr, some, List, [], ◌∷◌, Text, ltb, Option-cases, Bool-cases,
}
use sounding.Agent.Config.{
  FileConfig, Formats, FileState, ConfigStore, adopt, adopt_parsed, reload, reload_if_changed,
}

-- What wakes a goroutine up, with the file as it is then.
pub data Wake : Type 0 where
  hang_up : FileState → Wake
  poll : FileState → Wake

abbrev file_of : Wake → FileState
file_of (hang_up file) = file
file_of (poll file) = file

unfoldable pub woken : Formats → Wake → ConfigStore → ConfigStore
woken fm (hang_up file) cs = reload fm file cs
woken fm (poll file) cs = reload_if_changed fm file cs

-- The store before anything is read; its zero time is older than any file.
abbrev unread : ConfigStore
unread = record {
  cfg = record { server = []; token = []; node_uuid = []; interval = []; probes = [] };
  last_mod = 0;
}

-- The settings after the start and the wakes that follow it.
unfoldable pub load_config : Formats → FileState → ConfigStore
load_config fm file = reload fm file unread

unfoldable pub follow : Formats → List Wake → ConfigStore → ConfigStore
unfolding woken
follow fm [] cs = cs
follow fm (w ∷ ws) cs = follow fm ws (woken fm w cs)

module _ (fm : Formats) where
  -- The file parses to these settings.
  abbrev Holds : FileState → FileConfig → Type 0
  Holds file f = (text : Text) × (file.contents ≡ some text) × (fm.parse_yaml text ≡ some f)

  reload-cases :
      (file : FileState) (cs : ConfigStore)
      → ((reload fm file cs).cfg ≡ cs.cfg) ⊎ Holds file (reload fm file cs).cfg
  unfolding reload adopt_parsed adopt
  reload-cases file cs = elim (Option-cases file.contents) [
    | inl missing ↦ inl (rw missing refl)
    | inr (text, present) ↦ elim (Option-cases (fm.parse_yaml text)) [
      | inl bad ↦ inl (rw (present, bad) refl)
      | inr (f, good) ↦ elim (Option-cases file.mod_time) [
        | inl undated ↦ inr (text, present, rw (present, good, undated) refl)
        | inr (t, dated) ↦ inr (text, present, rw (present, good, dated) refl)
      ]
    ]
  ]

  poll-reads :
      (file : FileState) (cs : ConfigStore)
      → (reload_if_changed fm file cs ≡ cs) ⊎ (reload_if_changed fm file cs ≡ reload fm file cs)
  unfolding reload_if_changed
  poll-reads file cs = elim (Option-cases file.mod_time) [
    | inl undated ↦ inl (rw undated refl)
    | inr (t, dated) ↦ elim (Bool-cases (ltb cs.last_mod t)) [
      | inl newer ↦ inr (rw (dated, newer) refl)
      | inr old ↦ inl (rw (dated, old) refl)
    ]
  ]

  woken-cases :
      (w : Wake) (cs : ConfigStore)
      → ((woken fm w cs).cfg ≡ cs.cfg) ⊎ Holds (file_of w) (woken fm w cs).cfg
  unfolding woken
  woken-cases (hang_up file) cs = reload-cases file cs
  woken-cases (poll file) cs = elim (poll-reads file cs) [
    | inl same_store ↦ inl (ap (λ (c : ConfigStore). c.cfg) same_store)
    | inr read ↦ rw read (reload-cases file cs)
  ]

  -- The settings that one of the files of the wakes holds.
  abbrev SomeHolds : List Wake → FileConfig → Type 0
  SomeHolds [] f = ⊥
  SomeHolds (w ∷ ws) f = Holds (file_of w) f ⊎ SomeHolds ws f

  -- Whatever wakes the goroutines and whatever they find, the settings are those of before or those that one of
  -- the files held: a file that is missing or does not parse never puts others in their place.
  follow-SomeHolds :
      (ws : List Wake) (cs : ConfigStore)
      → ((follow fm ws cs).cfg ≡ cs.cfg) ⊎ SomeHolds ws (follow fm ws cs).cfg
  unfolding follow
  follow-SomeHolds [] cs = inl refl
  follow-SomeHolds (w ∷ ws) cs = elim (follow-SomeHolds ws (woken fm w cs)) [
    | inr later ↦ inr (inr later)
    | inl kept ↦ elim (woken-cases w cs) [
      | inl same_settings ↦ inl (kept ∙ same_settings)
      | inr (text, present, parsed) ↦ inr (inl (text, present, parsed ∙ ap some (sym kept)))
    ]
  ]
