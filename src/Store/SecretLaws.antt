-- ===== src/Store/SecretLaws.antt =====
-- A secret that was handed out once is handed out again.
use sounding.Prelude.{
  ◌≡◌, ◌≢◌, refl, Bool, true, false, [], Text, same_self, ok, List-cases, Option-cases, ◌∷◌, inl,
  inr,
}
use sounding.Prelude.Table.{upsert, find_row, find_row-upsert}
use sounding.Store.Db.{Db, secret_key}
use sounding.Store.Secrets.{get_or_create_secret, stored_secret, create_secret}

abbrev renewed : Text → Text → Db → Db
renewed key v db = record db { secrets = upsert secret_key (λ old. (old.0, v)) (key, v) db.secrets }

stored_secret-renewed : (key v : Text) (db : Db) → stored_secret key (renewed key v db) ≡ v
unfolding stored_secret
stored_secret-renewed key v db =
    rw
      (
        find_row-upsert secret_key (λ old. (old.0, v)) (key, v) db.secrets key (λ r. refl),
        same_self key,
        stored_secret,
      )
      (elim (Option-cases (find_row secret_key key db.secrets)) [
        | inl missing ↦ rw missing
        | inr (old, found) ↦ rw found
      ])

get_or_create_secret_lem :
    (fresh key : Text) (db : Db)
    → db.faults ≡ []
    → get_or_create_secret fresh key db ≡ create_secret key fresh (stored_secret key db) db
unfolding get_or_create_secret
get_or_create_secret_lem fresh key db works = rw works

-- On a database that works, a second call for a key returns the secret of the first call and creates
-- none, whatever random secret it draws; random secrets are not empty.
pub get_or_create_secret-twice :
    (fresh again key : Text) (db : Db)
    → db.faults ≡ []
    → fresh ≢ []
    → (v : Text) × (created : Bool) × (db' : Db) × (get_or_create_secret fresh key db
        ≡ (ok (v, created), db'))
      × (get_or_create_secret again key db' ≡ (ok (v, false), db'))
unfolding create_secret
get_or_create_secret-twice [] again key db works h = absurd (h refl)
get_or_create_secret-twice (c ∷ fresh) again key db works h =
    elim (List-cases (stored_secret key db)) [
      | inl missing ↦
          let db' = renewed key (c ∷ fresh) db in
          (
            c ∷ fresh,
            true,
            db',
            rw (get_or_create_secret_lem (c ∷ fresh) key db works, missing, works),
            rw (
              get_or_create_secret_lem again key db' works,
              stored_secret-renewed key (c ∷ fresh) db,
            ),
          )
      | inr (d, v, found) ↦ (
        d ∷ v,
        false,
        db,
        rw (get_or_create_secret_lem (c ∷ fresh) key db works, found),
        rw (get_or_create_secret_lem again key db works, found),
      )
    ]
