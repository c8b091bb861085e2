-- ===== src/Store/Deletion.antt =====
-- internal/store/adapters.go: AdminDeleteNode, statement by statement.
use sounding.Prelude.{
  ◌≡◌, refl, true, false, ◌&&◌, not, none, some, List, [], ◌∷◌, Text, keep, arith, any, inl, inr,
  bytes, same, same_iff, same_self, is_empty, ok, err, List-cases, Bool-cases, Result,
}
use sounding.Prelude.Table.{delete}
use sounding.Store.Db.{Db, node_key, TaskRow}
use sounding.Store.Nodes.{admin_delete_node}
use sounding.Store.NodeLaws.{node_of, node_of-admin_delete_node, admin_delete_node_lem}
use sounding.Store.Probes.{client_list}
use sounding.Store.ProbeLaws.{probe_clients-is_client}

-- The three ways in which a deletion can end.
pub data Deletion (uuid : Text) (db : Db) : Result (Unit {0}) × Db → Type 0 where
  nothing :
      {e : Text} {db' : Db}
      → db'.nodes ≡ db.nodes
      → db'.status_history ≡ db.status_history
      → Deletion uuid db (err e, db')
  history_only :
      {e : Text} {db' : Db}
      → db'.nodes ≡ db.nodes
      → db'.status_history ≡ keep (λ r. not (same r.client uuid)) db.status_history
      → Deletion uuid db (err e, db')
  complete :
      {db' : Db}
      → db'.nodes ≡ delete node_key uuid db.nodes
      → db'.status_history ≡ keep (λ r. not (same r.client uuid)) db.status_history
      → Deletion uuid db (ok tt, db')

-- Whatever statements fail, a deletion that reports success has removed the node and its statuses; one
-- that reports an error has left the node, and either all statuses or none of the node's.
pub admin_delete_node-Deletion :
    (uuid : Text) (db : Db) → Deletion uuid db (admin_delete_node uuid db)
unfolding admin_delete_node
admin_delete_node-Deletion uuid db = elim (List-cases db.faults) [
  | inl e ↦ rw e (complete refl refl)
  | inr (none, fs, e) ↦ elim (List-cases fs) [
    | inl e' ↦ rw (e, e') (complete refl refl)
    | inr (none, gs, e') ↦ rw (e, e') (complete refl refl)
    | inr (some m, gs, e') ↦ rw (e, e') (history_only refl refl)
  ]
  | inr (some m, fs, e) ↦ rw e (nothing refl refl)
]

own-any :
    (uuid : Text) (ts : List TaskRow)
    → same uuid (bytes "*") ≡ false
    → any (λ t. same uuid t.client) ts ≡ true
    → any (λ t. not (same t.client (bytes "*")) && same uuid t.client) ts ≡ true
own-any uuid [] q h = h
own-any uuid (t ∷ ts) q h = elim (Bool-cases (same uuid t.client)) [
  | inl equal ↦ rw equal (rw (rw ((same_iff uuid t.client).0 equal) at q))
  | inr other ↦ ground (arith, own-any uuid ts q)
]

-- On a database that works, a node with a probe task of its own and a name that is neither empty nor "*"
-- is probed on after its deletion: the tasks stay.
pub admin_delete_node-still_probed :
    (uuid : Text) (db : Db)
    → db.faults ≡ []
    → is_empty uuid ≡ false
    → same uuid (bytes "*") ≡ false
    → any (λ t. same uuid t.client) db.probe_tasks ≡ true
    → (node_of uuid (admin_delete_node uuid db).1 ≡ none)
      × (any (same uuid) (client_list (admin_delete_node uuid db).1) ≡ true)
admin_delete_node-still_probed uuid db works p q h = (
  rw (node_of-admin_delete_node uuid db works uuid, same_self uuid),
  rw (admin_delete_node_lem uuid db works) (
      let left = record db {
        status_history = keep (λ r. not (same r.client uuid)) db.status_history;
        nodes = delete node_key uuid db.nodes;
      } in
      rw ((probe_clients-is_client uuid left works).1, p, own-any uuid db.probe_tasks q h)),
)
