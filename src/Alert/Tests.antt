-- ===== src/Alert/Tests.antt =====
-- Examples of the theorems on alerts, and runs of the manager.
use mathlib.Core.List.{cons-ne-nil}
use sounding.Prelude.{
  ◌≢◌, ap, Text, ◌+◌, ◌*◌, ◌≡◌, refl, sym, ◌∙◌, true, false, ◌||◌, some, List, [], ◌∷◌, map, arith,
  any, length, find_first, bytes, same, insert, lookup, leb_text,
}
use sounding.Clock.{Time, minute, hour, minute_of_day, clock_text}
use sounding.Strings.{cut_at, trim_space}
use sounding.Alert.Rules.{silenced, in_window, before_deadline}
use sounding.Alert.Manager.{Event, evaluate, matches, message_of, event_key, is_cooling}
use sounding.Alert.Delivery.{IsDue, evaluate-unsent}
use sounding.Alert.Apart.{subject, evaluate-apart}
use sounding.Strings.Laws.{Lacks}
use sounding.Alert.Cooldown.{sent_log, IsSpaced, sent_log-IsSpaced}
use sounding.Alert.Windows.{window_text, covers, silenced-windows}
use sounding.Samples.{zone, rule, loss_event, manager}

abbrev noon : Time
noon = 12 * hour

abbrev midnight : Time
midnight = 24 * hour

abbrev thrice : List (Time × Event)
thrice = (noon, loss_event) ∷ (noon + minute, loss_event) ∷ (noon + 6 * minute, loss_event) ∷ []

thrice_sent : length (sent_log zone thrice manager) ≡ 2
unfolding sent_log evaluate matches silenced event_key same bytes leb_text lookup insert in_window
    clock_text cut_at trim_space minute_of_day message_of
thrice_sent = refl

sent_log-IsSpaced_example : IsSpaced (5 * minute) (sent_log zone thrice manager)
sent_log-IsSpaced_example = sent_log-IsSpaced zone (5 * minute) (omega arith) thrice manager refl

loss-IsDue : IsDue zone noon loss_event manager
unfolding matches silenced event_key same bytes leb_text lookup in_window clock_text cut_at
    trim_space minute_of_day is_cooling
loss-IsDue = record {
  rested = refl;
  rule = rule;
  first = refl;
  loud = refl;
  channels = cons-ne-nil _ [];
}

first_match : find_first (matches loss_event) manager.rules ≡ some rule
unfolding matches same bytes
first_match = refl

midnight_silent : silenced zone midnight rule ≡ true
unfolding silenced bytes leb_text in_window clock_text cut_at trim_space minute_of_day
midnight_silent = refl

loss-quiet : ¬ IsDue zone midnight loss_event manager
loss-quiet d =
    let e : rule ≡ d.rule = cc (sym first_match ∙ d.first) in
    let loud : silenced zone midnight rule ≡ false = rw e d.loud in cc (sym loud ∙ midnight_silent)

abbrev other_node : Event
other_node = record loss_event { node = bytes "n2" }

loss-Lacks : Lacks b'|' (bytes "loss")
unfolding bytes
loss-Lacks = omega arith

n1-ne-n2 : bytes "n1" ≢ bytes "n2"
unfolding bytes
n1-ne-n2 h = ground arith

apart : subject loss_event ≢ subject other_node
apart e = n1-ne-n2 (ap (λ (s : Text × Text). s.1) e)

evaluate-apart_example :
    (evaluate zone (noon + 1) loss_event (evaluate zone noon other_node manager).0).1
    ≡ (evaluate zone (noon + 1) loss_event manager).1
evaluate-apart_example =
    evaluate-apart zone noon (noon + 1) loss_event other_node manager loss-Lacks loss-Lacks apart

evaluate-unsent_example : evaluate zone midnight loss_event manager ≡ (manager, [])
evaluate-unsent_example = evaluate-unsent zone midnight loss_event manager loss-quiet

one_window : rule.mute_windows ≡ map window_text ((23 * 60, 60) ∷ [])
unfolding clock_text bytes
one_window = refl

silenced-windows_example : silenced zone midnight rule ≡ (
    before_deadline zone midnight rule.silence_until
    || any (covers (minute_of_day zone midnight)) ((23 * 60, 60) ∷ []))
silenced-windows_example =
    silenced-windows zone midnight rule ((23 * 60, 60) ∷ []) (omega arith) one_window
