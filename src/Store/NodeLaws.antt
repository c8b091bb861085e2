-- ===== src/Store/NodeLaws.antt =====
-- What the statements on nodes keep and change.
use sounding.Prelude.{
  ◌≡◌, ◌≢◌, refl, false, not, Option, none, some, [], Text, keep, arith, same, same_iff, same_self,
  if◌then◌else◌, float, is_positive, ok,
}
use sounding.Prelude.Table.{upsert, delete, find_row, merged, find_row-upsert, find_row-delete}
use sounding.Json.{Json}
use sounding.Contract.{Client}
use sounding.Store.Db.{Db, node_key}
use sounding.Store.Nodes.{upsert_node, reported_node, refresh, parse_os_info, admin_delete_node}

-- The row of a uuid.
abbrev pub node_of : Text → Db → Option Client
node_of uuid db = find_row node_key uuid db.nodes

-- What only the administrator sets.
abbrev pub SameOperatorFields : Client → Client → Type 0
SameOperatorFields a b =
    (a.uuid ≡ b.uuid)
    × (a.region ≡ b.region)
    × (a.price ≡ b.price)
    × (a.billing_cycle ≡ b.billing_cycle)
    × (a.currency ≡ b.currency)
    × (a.expired_at ≡ b.expired_at)
    × (a.group ≡ b.group)
    × (a.tags ≡ b.tags)
    × (a.public_remark ≡ b.public_remark)

module _ (j : Json) (uuid name info : Text) (db : Db) (works : db.faults ≡ []) where
  abbrev offered : Client
  offered = reported_node uuid name (parse_os_info j info)

  upsert_node_lem :
      upsert_node j uuid name info db
      ≡ (ok tt, record db { nodes = upsert node_key (refresh offered) offered db.nodes })
  unfolding upsert_node
  upsert_node_lem = rw works

  node_of-upsert_node :
      (k : Text)
      → node_of k (upsert_node j uuid name info db).1 ≡ (
          if same uuid k
          then some (merged node_key (refresh offered) offered (node_of uuid db))
          else node_of k db)
  unfolding reported_node refresh
  node_of-upsert_node k =
      rw upsert_node_lem (find_row-upsert node_key (refresh offered) offered db.nodes k (λ r. refl))

  -- On a database that works, an agent's report leaves the row of every other node as it was, and all
  -- other tables.
  pub upsert_node-keeps_others :
      (k : Text)
      → k ≢ uuid
      → (node_of k (upsert_node j uuid name info db).1 ≡ node_of k db)
        × (record ((upsert_node j uuid name info db).1) { nodes = db.nodes } ≡ db)
  upsert_node-keeps_others k h =
      (rw (node_of-upsert_node k) (ground (arith, same_iff uuid k)), rw upsert_node_lem)

  -- On a database that works, a report about a node that has a row keeps of it what only the
  -- administrator sets (region, price, billing cycle, currency, expiry, group, tags and remark), and
  -- gives it the reported name.
  pub upsert_node-keeps_operator_fields :
      (old : Client)
      → node_of uuid db ≡ some old
      → (new : Client) × (node_of uuid (upsert_node j uuid name info db).1 ≡ some new)
        × SameOperatorFields new old
        × (new.name ≡ name)
  unfolding reported_node refresh
  upsert_node-keeps_operator_fields old found = (
    refresh offered old,
    rw (node_of-upsert_node uuid, same_self uuid, found),
    (refl, refl, refl, refl, refl, refl, refl, refl, refl),
    refl,
  )

  -- On a database that works, a report about a node that has a row and that gives no positive number of
  -- cores sets the node's number of cores to 1, whatever it was: the branch of the statement that keeps the old number is never taken.
  pub upsert_node-resets_cores :
      (old : Client)
      → node_of uuid db ≡ some old
      → is_positive (parse_os_info j info).cpu_cores ≡ false
      → (new : Client) × (node_of uuid (upsert_node j uuid name info db).1 ≡ some new)
        × (new.cpu_cores ≡ float 1)
  unfolding reported_node refresh
  upsert_node-resets_cores old found none_given =
      (refresh offered old, rw (node_of-upsert_node uuid, same_self uuid, found), rw none_given)

-- A deletion on a database that works.
module _ (uuid : Text) (db : Db) (works : db.faults ≡ []) where
  pub admin_delete_node_lem : admin_delete_node uuid db ≡ (
    ok tt,
    record db {
      status_history = keep (λ r. not (same r.client uuid)) db.status_history;
      nodes = delete node_key uuid db.nodes;
    },
  )
  unfolding admin_delete_node
  admin_delete_node_lem = rw works

  pub node_of-admin_delete_node :
      (k : Text)
      → node_of k (admin_delete_node uuid db).1 ≡ (if same uuid k then none else node_of k db)
  node_of-admin_delete_node k = rw admin_delete_node_lem (find_row-delete node_key k uuid db.nodes)
