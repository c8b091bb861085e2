-- ===== src/Store/Secrets.antt =====
-- internal/store/secrets.go: tokens that are kept over restarts.
use sounding.Prelude.{Bool, true, false, none, some, [], ◌∷◌, Text}
use sounding.Prelude.Table.{upsert, find_row}
use sounding.Store.Db.{Db, M, ◌>>=◌, ◌>>◌, done, statement, query, exec, secret_key}

-- The text behind a key, empty where there is no row.
unfoldable pub stored_secret : Text → Db → Text
stored_secret key db = elim (find_row secret_key key db.secrets) [ none ↦ [] | some s ↦ s.1 ]

-- A new secret is stored where there is none or an empty one.
unfoldable pub create_secret : Text → Text → Text → M (Text × Bool)
unfolding statement
create_secret key fresh [] = do
  exec λ db. record db {
    secrets = upsert secret_key (λ old. (old.0, fresh)) (key, fresh) db.secrets;
  }
  done (fresh, true)
create_secret key fresh (c ∷ v) = done (c ∷ v, false)

-- `GetOrCreateSecret`, with the secret that `api.RandomSecret` would give.
unfoldable pub get_or_create_secret : Text → Text → M (Text × Bool)
unfolding statement stored_secret create_secret
get_or_create_secret fresh key = do v ← query (stored_secret key); create_secret key fresh v
