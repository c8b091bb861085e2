-- ===== src/Agent/RoundTrip.antt =====
-- cmd/agent/main.go: the text of fetchRemoteProbes as parseProbes reads it.
use sounding.Prelude.{
  sym, ◌∙◌, append-nil, ℕ, ◌≡◌, refl, ap, false, List, [], ◌∷◌, ◌++◌, map, Text, any, same,
  is_empty, All, All-zip_with, arith, same_iff,
}
use sounding.Strings.{split, join}
use sounding.Strings.Laws.{Lacks, split-join, split-append}
use sounding.Contract.{ProbeTarget}
use sounding.Agent.Probes.{
  RemoteTask, remote_parts, remote_probes, probe_key, parse_parts, parse_probes,
}
use sounding.Agent.Parsed.{HasDistinctTargets}
use sounding.Agent.Plain.{
  IsPlain, task_target, part_of, trimmed-filled, remote_part-IsPlain, part-IsTrimmed, part-Lacks,
  parse_part-part,
}

remote_parts-IsPlain : (ts : List RemoteTask) → All IsPlain ts → remote_parts ts ≡ map part_of ts
unfolding remote_parts
remote_parts-IsPlain [] h = refl
remote_parts-IsPlain (t ∷ ts) (p, h) =
    rw (remote_part-IsPlain t p, remote_parts, remote_parts-IsPlain ts h)

parts-Lacks : (ts : List RemoteTask) → All IsPlain ts → All (Lacks b',') (map part_of ts)
parts-Lacks [] h = tt
parts-Lacks (t ∷ ts) (p, h) = (part-Lacks t p, parts-Lacks ts h)

seen_after : List Text → List RemoteTask → List Text
seen_after seen [] = seen
seen_after seen (t ∷ ts) = seen_after (probe_key (task_target t) ∷ seen) ts

-- A loop that has seen none of the keys to come takes every target, and goes on with what follows.
parse_parts-parts :
    (ts : List RemoteTask) (more : List Text) (seen : List Text)
    → All IsPlain ts
    → HasDistinctTargets (map task_target ts)
    → All (λ q. any (same (probe_key q)) seen ≡ false) (map task_target ts)
    → parse_parts seen (map part_of ts ++ more)
      ≡ map task_target ts ++ parse_parts (seen_after seen ts) more
unfolding parse_parts seen_after
parse_parts-parts [] more seen h d u = refl
parse_parts-parts (t ∷ ts) more seen (p, h) (d, ds) (u, us) =
    rw (parse_part-part t p, u)
      (ap (λ r. task_target t ∷ r)
        (parse_parts-parts ts more (probe_key (task_target t) ∷ seen) h ds (
          All-zip_with _ _
            (λ q. any (same (probe_key q)) (probe_key (task_target t) ∷ seen) ≡ false)
            (λ q other new. ground (arith, same_iff (probe_key q) (probe_key (task_target t)))) _ d
            us)))

none_seen : (ps : List ProbeTarget) → All (λ q. any (same (probe_key q)) [] ≡ false) ps
none_seen [] = tt
none_seen (p ∷ ps) = (refl, none_seen ps)

join-filled :
    (sep : ℕ) (p : Text) (ps : List Text)
    → is_empty p ≡ false
    → is_empty (join sep (p ∷ ps)) ≡ false
unfolding join
join-filled sep [] ps h = cc
join-filled sep (c ∷ p) [] h = refl
join-filled sep (c ∷ p) (q ∷ ps) h = refl

-- The text in which the server's tasks are written reads back as the tasks, in their order, if names
-- and targets are trimmed and hold no comma, names hold no colon, each type is a known one, and no two
-- tasks have the same name and target.
pub parse_probes-remote_probes :
    (ts : List RemoteTask)
    → All IsPlain ts
    → HasDistinctTargets (map task_target ts)
    → parse_probes (remote_probes ts) ≡ map task_target ts
unfolding parse_probes remote_probes join
parse_probes-remote_probes [] h d = refl
parse_probes-remote_probes (t ∷ ts) h d =
    rw
      (
        remote_parts-IsPlain (t ∷ ts) h,
        join-filled b',' (part_of t) (map part_of ts)
            (trimmed-filled (part_of t) (part-IsTrimmed t h.0)),
        split-join b',' (part_of t) (map part_of ts) (parts-Lacks (t ∷ ts) h),
      )
      (ap (parse_parts []) (sym (append-nil (map part_of (t ∷ ts))))
        ∙ parse_parts-parts (t ∷ ts) [] [] h d (none_seen (map task_target (t ∷ ts)))
        ∙ append-nil (map task_target (t ∷ ts)))

filled_text : (s t : Text) (c : ℕ) → is_empty (s ++ c ∷ t) ≡ false
filled_text [] t c = refl
filled_text (b ∷ s) t c = refl

-- Before any other text of probes, the server's tasks are the first that are read.
pub parse_probes-append :
    (ts : List RemoteTask) (own : Text)
    → All IsPlain ts
    → HasDistinctTargets (map task_target ts)
    → (rest : List ProbeTarget) × (parse_probes (remote_probes ts ++ b',' ∷ own)
        ≡ map task_target ts ++ rest)
unfolding parse_probes remote_probes join
parse_probes-append [] own h d = (parse_probes (b',' ∷ own), unfold parse_probes in refl)
parse_probes-append (t ∷ ts) own h d =
    let parts = map part_of (t ∷ ts) in
    (
      parse_parts (seen_after [] (t ∷ ts)) (split b',' own),
      rw
          (
            remote_parts-IsPlain (t ∷ ts) h,
            filled_text (join b',' parts) own b',',
            split-append b',' (join b',' parts) own,
            split-join b',' (part_of t) (map part_of ts) (parts-Lacks (t ∷ ts) h),
          )
          (parse_parts-parts (t ∷ ts) (split b',' own) [] h d
            (none_seen (map task_target (t ∷ ts)))),
    )
