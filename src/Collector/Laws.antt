-- ===== src/Collector/Laws.antt =====
-- internal/collect/collector.go: the rates between two samples, and the temperature.
use sounding.Prelude.{
  ℕ, ◌-◌, ◌≡◌, refl, Bool, ◌&&◌, Bool-cases, inl, inr, some, List, [], ◌∷◌, arith, ltb, leb,
  if◌then◌else◌, Float, float, pos, ltb_float, ◌≤ℤ◌, ≤ℤ_trans, All,
}
use sounding.Collector.{
  Collector, Readings, Counters, net_usage, net_rates, byte_rate, collect, hottest,
}

-- The counters went on between two samples.
abbrev pub went_on : ℕ → ℕ → Counters → Counters → Bool
went_on t1 t2 a b = ltb t1 t2 && leb a.bytes_sent b.bytes_sent && leb a.bytes_recv b.bytes_recv

-- Two samples in a row that read the counters: whatever the collector knew before, the second has the rates between
-- the two samples, if the time and both counters went on, and none otherwise; and the totals are the
-- second one's counters.
pub collect-rates :
    (c : Collector) (r1 r2 : Readings) (a b : Counters) (xs ys : List Counters)
    → r1.counters ≡ some (a ∷ xs)
    → r2.counters ≡ some (b ∷ ys)
    → let s = (collect r2 (collect r1 c).1).0 in
      (s.net_out ≡ (
        if went_on r1.now r2.now a b
        then byte_rate (b.bytes_sent - a.bytes_sent) (r2.now - r1.now)
        else pos 0))
      × (s.net_in ≡ (
          if went_on r1.now r2.now a b
          then byte_rate (b.bytes_recv - a.bytes_recv) (r2.now - r1.now)
          else pos 0))
      × (s.net_total_up ≡ float b.bytes_sent)
      × (s.net_total_down ≡ float b.bytes_recv)
unfolding collect net_usage net_rates
collect-rates c r1 r2 a b xs ys first second = elim (Bool-cases (went_on r1.now r2.now a b)) [
  | inl on ↦ rw (first, second, on) (refl, refl, refl, refl)
  | inr back ↦ rw (first, second, back) (refl, refl, refl, refl)
]

hotter : (t u : Float) → let t' = if ltb_float t u then u else t in (t ≤ℤ t') × (u ≤ℤ t')
hotter t u = ground arith

hottest-le : (t : Float) (us : List Float) → (t ≤ℤ hottest t us) × All (λ u. u ≤ℤ hottest t us) us
unfolding hottest
hottest-le t [] = (omega arith, tt)
hottest-le t (u ∷ us) =
    let t' = if ltb_float t u then u else t in
    let (h, hs) = hottest-le t' us in
    let (p, q) = hotter t u in
    (≤ℤ_trans t t' (hottest t' us) p h, (≤ℤ_trans u t' (hottest t' us) q h, hs))

-- The temperature of a snapshot is at least that of each sensor, and zero.
pub collect-hottest :
    (c : Collector) (r : Readings) (us : List Float)
    → r.temperatures ≡ some us
    → (pos 0 ≤ℤ (collect r c).0.temp) × All (λ u. u ≤ℤ (collect r c).0.temp) us
unfolding collect
collect-hottest c r us h = rw h (hottest-le (pos 0) us)
