-- ===== src/Store/RecordLaws.antt =====
-- What the histories' queries return and what retention removes.
use sounding.Prelude.{
  ℕ, zero, suc, ◌+◌, ◌≤◌, ◌≡◌, refl, Bool, true, false, ◌&&◌, not, List, [], ◌∷◌, map, Text, keep,
  length, take, arith, ℤ, pos, negsuc, int_or, sort_by, leb_text, ltb_text, ok, All, All-keep_self,
  All-take, All-map, sort_by-All, length-take,
}
use sounding.Contract.{PingRecord, StatusRecord}
use sounding.Clock.{Time, Zone}
use sounding.Store.Db.{Db, StatusRow}
use sounding.Store.Records.{
  clamp_limit, cutoff_of, is_of, is_of_task, records_since, status_record, probe_records_since,
  purge, retention_cutoff,
}

-- A limit is never over the most, if the usual one is not.
clamp_limit-le : (most usual : ℕ) (limit : ℤ) → usual ≤ most → clamp_limit most usual limit ≤ most
unfolding clamp_limit
clamp_limit-le most usual (pos zero) h = h
clamp_limit-le most usual (pos (suc n)) h = ground arith
clamp_limit-le most usual (negsuc n) h = h

-- The test of the WHERE clause.
abbrev pub IsWanted : Text → Text → ℤ → PingRecord → Type 0
IsWanted cutoff client task_id r =
    (leb_text cutoff r.time ≡ true)
    × (is_of client r.client ≡ true)
    × (is_of_task task_id r.task_id ≡ true)

-- On a database that works, a query of probe records changes nothing and returns at most 20000 records,
-- each in the window of time, of the client and of the task that are asked for.
pub probe_records_since-IsWanted :
    (z : Zone) (now : Time) (client : Text) (task_id hours limit : ℤ) (db : Db)
    → db.faults ≡ []
    → (rs : List PingRecord) × (probe_records_since z now client task_id hours limit db
        ≡ (ok rs, db))
      × (length rs ≤ 20000)
      × All (IsWanted (cutoff_of z now (int_or hours 1)) client task_id) rs
unfolding probe_records_since
probe_records_since-IsWanted z now client task_id hours limit db works =
    let test = λ (r : PingRecord).
      leb_text (cutoff_of z now (int_or hours 1)) r.time
      && is_of client r.client
      && is_of_task task_id r.task_id in
    let le = λ (r s : PingRecord). leb_text r.time s.time in
    let most = clamp_limit 20000 5000 limit in
    (
      take most (sort_by le (keep test db.probe_records)),
      rw works,
      omega (
        arith,
        length-take most (sort_by le (keep test db.probe_records)),
        clamp_limit-le 20000 5000 limit (omega arith),
      ),
      All-take _ most _ (
          sort_by-All le _ (keep test db.probe_records) (
            All-map _ (IsWanted (cutoff_of z now (int_or hours 1)) client task_id)
              (λ r h. ground arith) _ (All-keep_self test db.probe_records))),
    )

-- The same for the records of statuses.
abbrev pub IsRecent : Text → Text → StatusRecord → Type 0
IsRecent cutoff client r = (leb_text cutoff r.time ≡ true) × (is_of client r.client ≡ true)

pub All-map_to :
    {A B : Type 0} (Q : B → Type 0) (f : A → B) (xs : List A)
    → All (λ x. Q (f x)) xs
    → All Q (map f xs)
All-map_to Q f [] h = tt
All-map_to Q f (x ∷ xs) (p, h) = (p, All-map_to Q f xs h)

pub records_since-IsRecent :
    (z : Zone) (now : Time) (client : Text) (hours limit : ℤ) (db : Db)
    → db.faults ≡ []
    → (rs : List StatusRecord) × (records_since z now client hours limit db ≡ (ok rs, db))
      × All (IsRecent (cutoff_of z now (int_or hours 1)) client) rs
unfolding records_since status_record
records_since-IsRecent z now client hours limit db works =
    let cutoff = cutoff_of z now (int_or hours 1) in
    let test = λ (r : StatusRow). leb_text cutoff r.time && is_of client r.client in
    let le = λ (r s : StatusRow). leb_text r.time s.time in
    let most = clamp_limit 5000 1000 limit in
    (
      map status_record (take most (sort_by le (keep test db.status_history))),
      rw works refl,
      All-map_to (IsRecent cutoff client) status_record _ (
          All-take _ most _ (
            sort_by-All le _ (keep test db.status_history) (
              All-map _ (λ r. (leb_text cutoff r.time ≡ true) × (is_of client r.client ≡ true))
                (λ r h. ground arith) _ (All-keep_self test db.status_history)))),
    )

length-partition {ℓ} :
    {A : Type ℓ} (p : A → Bool) (xs : List A)
    → length xs ≡ length (keep p xs) + length (keep (λ x. not (p x)) xs)
length-partition p [] = omega arith
length-partition p (x ∷ xs) = ground (arith, length-partition p xs)

keep_other {ℓ} :
    {A : Type ℓ} (p : A → Bool) (xs : List A)
    → keep (λ x. not (p x)) (keep (λ x. not (p x)) xs) ≡ keep (λ x. not (p x)) xs
keep_other p [] = refl
keep_other p (x ∷ xs) = ground (arith, keep_other p xs)

-- The rows that retention is about.
abbrev pub rows : Db → ℕ
rows db = length db.status_history + length db.probe_records

module _ {ℓ} {A : Type ℓ} (time : A → Text) (cutoff : Text) where
  abbrev is_young : A → Bool
  is_young r = not (ltb_text (time r) cutoff)

  -- Of the old rows exactly those at or after the cutoff are left, in their order.
  pub record IsPurged (old new : List A) : Type ℓ where
    pub none_older : All (λ r. ltb_text (time r) cutoff ≡ false) new
    pub none_lost : keep is_young new ≡ keep is_young old

  keep-IsPurged : (rs : List A) → IsPurged rs (keep is_young rs)
  keep-IsPurged rs = record {
    none_older =
        All-map _ (λ r. ltb_text (time r) cutoff ≡ false) (λ r h. ground arith) _
          (All-keep_self is_young rs);
    none_lost = keep_other (λ r. ltb_text (time r) cutoff) rs;
  }

-- On a database that works, `Purge` keeps of each history the rows at or after the cutoff, all of them and in
-- their order, and no others; it reports the number of rows that it removed.
pub purge-counts :
    (z : Zone) (now : Time) (days : ℤ) (db : Db)
    → db.faults ≡ []
    → (n : ℕ) × (db' : Db) × (purge z now days db ≡ (ok n, db'))
      × (rows db ≡ n + rows db')
      × IsPurged
          (λ (r : StatusRow). r.time)
          (retention_cutoff z now days)
          db.status_history
          db'.status_history
      × IsPurged
          (λ (r : PingRecord). r.time)
          (retention_cutoff z now days)
          db.probe_records
          db'.probe_records
unfolding purge
purge-counts z now days db works =
    let cutoff = retention_cutoff z now days in
    let old_status = λ (r : StatusRow). ltb_text r.time cutoff in
    let old_probe = λ (r : PingRecord). ltb_text r.time cutoff in
    (
      length (keep old_status db.status_history) + length (keep old_probe db.probe_records),
      record db {
        status_history = keep (λ r. not (old_status r)) db.status_history;
        probe_records = keep (λ r. not (old_probe r)) db.probe_records;
      },
      rw works,
      omega (
        arith,
        length-partition old_status db.status_history,
        length-partition old_probe db.probe_records,
      ),
      keep-IsPurged (λ (r : StatusRow). r.time) cutoff db.status_history,
      keep-IsPurged (λ (r : PingRecord). r.time) cutoff db.probe_records,
    )
