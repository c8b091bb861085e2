-- ===== src/Stats/Tests.antt =====
-- Examples of the theorems on statistics.
use sounding.Prelude.{◌≡◌, refl, List, [], ◌∷◌, bytes, Float, float, pos, minus_one, sort_by}
use sounding.Arithmetic.{exact, plus, times, over}
use sounding.Stats.{summarize_ping, average, sorted_tail, min_from, max_from}
use sounding.Stats.Bounds.{IsOrdered, summarize_ping-IsOrdered}

abbrev window : List Float
window = float 30 ∷ minus_one ∷ float 10 ∷ float 20 ∷ []

summarize_window : summarize_ping [] window ≡ record {
  name = [];
  latest = float 30;
  avg =
      over
        (plus
          (plus (plus (exact (pos 0)) (exact (float 30))) (exact (float 10)))
          (exact (float 20)))
        (exact (float 3));
  tail = float 20;
  loss = times (over (exact (float 1)) (exact (float 4))) (exact (float 100));
  min = float 10;
  max = float 30;
}
unfolding summarize_ping average sorted_tail min_from max_from sort_by
summarize_window = refl

summarize_ping-IsOrdered_example : IsOrdered window (summarize_ping (bytes "dns") window)
summarize_ping-IsOrdered_example = summarize_ping-IsOrdered (bytes "dns") window
