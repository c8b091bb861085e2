-- ===== src/Alert/Windows.antt =====
-- internal/alert/alert.go: maintenance windows, as texts and as minutes of the day.
use sounding.Prelude.{
  ℕ, ◌≡◌, refl, Bool, ◌||◌, ◌&&◌, some, List, [], ◌∷◌, ◌++◌, arith, ◌<◌, ◌+◌, ◌/◌, ◌%◌, Text, ◌==◌,
  ltb, leb, if◌then◌else◌, leb_text, ltb_text, All, any, map,
}
use sounding.Clock.{Time, Zone, clock_text, minute_of_day, minute_of_day-lt}
use sounding.Strings.{cut_at, trim_space}
use sounding.Alert.Rules.{Rule, in_window, before_deadline, silenced}

-- Five characters in their order.
leb_text-five :
    (a b c d e a' b' c' d' e' : ℕ)
    → leb_text (a ∷ b ∷ c ∷ d ∷ e ∷ []) (a' ∷ b' ∷ c' ∷ d' ∷ e' ∷ []) ≡ (
        ltb a a'
        || a == a'
          && (ltb b b'
              || b == b'
                && (ltb c c' || c == c' && (ltb d d' || d == d' && (ltb e e' || e == e')))))
unfolding leb_text
leb_text-five a b c d e a' b' c' d' e' = ground arith

leb_digits :
    (x y : ℕ)
    → x < 1440
    → y < 1440
    → (ltb (48 + x / 60 / 10) (48 + y / 60 / 10)
        || (48 + x / 60 / 10) == (48 + y / 60 / 10)
          && (ltb (48 + x / 60 % 10) (48 + y / 60 % 10)
              || (48 + x / 60 % 10) == (48 + y / 60 % 10)
                && (ltb 58 58
                    || 58 == 58
                      && (ltb (48 + x % 60 / 10) (48 + y % 60 / 10)
                          || (48 + x % 60 / 10) == (48 + y % 60 / 10)
                            && (ltb (48 + x % 60 % 10) (48 + y % 60 % 10)
                                || (48 + x % 60 % 10) == (48 + y % 60 % 10))))))
      ≡ leb x y
leb_digits x y p q = ground arith

leb_text-clock_text :
    (x y : ℕ) → x < 1440 → y < 1440 → leb_text (clock_text x) (clock_text y) ≡ leb x y
unfolding clock_text
leb_text-clock_text x y p q = rw leb_text-five (leb_digits x y p q)

trim_space-clock_text : (x : ℕ) → trim_space (clock_text x) ≡ clock_text x
unfolding clock_text trim_space
trim_space-clock_text x = ground arith

cut_at-clock_text :
    (x : ℕ) (s : Text) → cut_at b'-' (clock_text x ++ b'-' ∷ s) ≡ some (clock_text x, s)
unfolding clock_text cut_at
cut_at-clock_text x s = ground arith

-- The text "15:04-15:04" of a window.
abbrev pub window_text : ℕ × ℕ → Text
window_text (a, b) = clock_text a ++ b'-' ∷ clock_text b

-- Whether a minute of the day lies in a window, by numbers.
abbrev pub covers : ℕ → ℕ × ℕ → Bool
covers x (a, b) = if leb a b then leb a x && ltb x b else leb a x || ltb x b

abbrev pub IsWindow : ℕ × ℕ → Type 0
IsWindow (a, b) = (a < 1440) × (b < 1440)

ltb_text-clock_text :
    (x y : ℕ) → x < 1440 → y < 1440 → ltb_text (clock_text x) (clock_text y) ≡ ltb x y
ltb_text-clock_text x y p q = rw (leb_text-clock_text y x q p) (ground arith)

in_window-window_text :
    (x : ℕ) (w : ℕ × ℕ)
    → x < 1440
    → IsWindow w
    → in_window (clock_text x) (window_text w) ≡ covers x w
unfolding in_window
in_window-window_text x (a, b) p (q, r) = rw (
  cut_at-clock_text a (clock_text b),
  in_window,
  trim_space-clock_text a,
  trim_space-clock_text b,
  leb_text-clock_text a b q r,
  leb_text-clock_text a x q p,
  ltb_text-clock_text x b p r,
)

any-window_text :
    (x : ℕ) (ws : List (ℕ × ℕ))
    → x < 1440
    → All IsWindow ws
    → any (in_window (clock_text x)) (map window_text ws) ≡ any (covers x) ws
any-window_text x [] p h = refl
any-window_text x (w ∷ ws) p (q, h) = rw (in_window-window_text x w p q, any-window_text x ws p h)

-- A rule whose windows are well formed is silenced exactly when its deadline lies ahead or the
-- minute of the local day lies in a window; a window that ends before it starts goes past midnight.
pub silenced-windows :
    (z : Zone) (now : Time) (r : Rule) (ws : List (ℕ × ℕ))
    → All IsWindow ws
    → r.mute_windows ≡ map window_text ws
    → silenced z now r
      ≡ (before_deadline z now r.silence_until || any (covers (minute_of_day z now)) ws)
unfolding silenced
silenced-windows z now r ws h e =
    rw (e, any-window_text (minute_of_day z now) ws (minute_of_day-lt z now) h)
