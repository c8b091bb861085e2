-- ===== src/Rpc/DispatchLaws.antt =====
-- internal/api, rpc.go and rpc_komari.go: what a request does to the database, and which requests
-- fail.
use sounding.Prelude.{
  ◌≡◌, refl, Bool, true, false, Option, none, some, List, [], ◌∷◌, ◌++◌, Text, lookup, Option-cases,
  inl, inr, All, arith,
}
use sounding.Store.Db.{Db, M, done}
use sounding.Store.Reads.{SameTables, IsRead, FailsFirst, Succeeds, done-Succeeds}
use sounding.Rpc.Types.{Handler, Reply, RpcRequest}
use sounding.Rpc.Reads.{
  IsQuery, then_done, nodes-IsQuery, recent_status-IsQuery, ping_records-IsQuery,
  latest_status-IsQuery, since-IsQuery, ping_tasks-IsQuery, node_recent_status-IsQuery,
  get_records-IsQuery, ping_records_of-IsQuery, query_metrics-IsQuery, ping_metric_stats-IsQuery,
}
use sounding.Rpc.Dispatch.{
  Method, KomariMethod, methods, komari_methods, listed_methods, method_of, call, call_komari,
  switch, dispatch, rpc_serve, replied, answer_call, answer_komari, unknown_method, failed,
  store_failed,
}
use sounding.Rpc.MethodNames.{
  is_case, is_known, listed_methods-known, all-All, method_of-bare, method_of-namespace,
}

-- Which methods ask the store.
abbrev pub asks : Method → Bool
asks Method.ping = false
asks Method.get_client = false
asks Method.get_nodes = true
asks Method.get_nodes_latest_status = true
asks Method.get_ping_records = true

abbrev pub asks_komari : KomariMethod → Bool
asks_komari KomariMethod.get_methods = false
asks_komari KomariMethod.get_help = false
asks_komari KomariMethod.get_version = false
asks_komari KomariMethod.get_public_info = false
asks_komari KomariMethod.get_public_me = false
asks_komari KomariMethod.record_visitor_event = false
asks_komari KomariMethod.get_logs = false
asks_komari KomariMethod.edit_settings = false
asks_komari KomariMethod.list_metric_definitions = false
asks_komari KomariMethod.get_node_recent_status = true
asks_komari KomariMethod.get_records = true
asks_komari KomariMethod.get_public_nodes_information = true
asks_komari KomariMethod.get_public_client_recent_records = true
asks_komari KomariMethod.get_public_records_by_uuid = true
asks_komari KomariMethod.get_public_ping_records = true
asks_komari KomariMethod.get_public_ping_tasks = true
asks_komari KomariMethod.query_metrics = true
asks_komari KomariMethod.get_ping_metric_stats = true

-- What a method does that asks the store, or does not.
record Law (asking : Bool) (m : M Reply) : Type 0 where
  reads : IsRead m
  succeeds : Succeeds m
  fails : asking ≡ true → FailsFirst m

query-Law : {m : M Reply} → IsQuery m → Law true m
query-Law p = record { reads = p.reads; succeeds = p.succeeds; fails = λ _. p.fails }

constant-Law : (r : Reply) → Law false (done r)
constant-Law r = record { reads = λ db. refl; succeeds = done-Succeeds r; fails = λ e. cc }

module _ (h : Handler) (params : Text) where
  call-Law : (m : Method) → Law (asks m) (call h m params)
  unfolding call
  call-Law Method.ping = constant-Law _
  call-Law Method.get_client = constant-Law _
  call-Law Method.get_nodes = query-Law (then_done _ _ nodes-IsQuery)
  call-Law Method.get_nodes_latest_status = query-Law (then_done _ _ (latest_status-IsQuery h))
  call-Law Method.get_ping_records = query-Law (then_done _ _ (ping_records-IsQuery _ _ _))

  call_komari-Law : (m : KomariMethod) → Law (asks_komari m) (call_komari h m params)
  unfolding call_komari
  call_komari-Law KomariMethod.get_methods = constant-Law _
  call_komari-Law KomariMethod.get_help = constant-Law _
  call_komari-Law KomariMethod.get_version = constant-Law _
  call_komari-Law KomariMethod.get_public_info = constant-Law _
  call_komari-Law KomariMethod.get_public_me = constant-Law _
  call_komari-Law KomariMethod.record_visitor_event = constant-Law _
  call_komari-Law KomariMethod.get_logs = constant-Law _
  call_komari-Law KomariMethod.edit_settings = constant-Law _
  call_komari-Law KomariMethod.list_metric_definitions = constant-Law _
  call_komari-Law KomariMethod.get_node_recent_status =
      query-Law (node_recent_status-IsQuery h params)
  call_komari-Law KomariMethod.get_records = query-Law (get_records-IsQuery h _)
  call_komari-Law KomariMethod.get_public_nodes_information =
      query-Law (then_done _ _ nodes-IsQuery)
  call_komari-Law KomariMethod.get_public_client_recent_records =
      query-Law (then_done _ _ (recent_status-IsQuery _ 150))
  call_komari-Law KomariMethod.get_public_records_by_uuid =
      query-Law (then_done _ _ (since-IsQuery h _ _ _ _))
  call_komari-Law KomariMethod.get_public_ping_records = query-Law (ping_records_of-IsQuery h _)
  call_komari-Law KomariMethod.get_public_ping_tasks = query-Law (ping_tasks-IsQuery h)
  call_komari-Law KomariMethod.query_metrics = query-Law (query_metrics-IsQuery h _)
  call_komari-Law KomariMethod.get_ping_metric_stats = query-Law (ping_metric_stats-IsQuery h _)

switch-SameTables :
    (h : Handler) (req : RpcRequest) (m : Option Method) (k : Option KomariMethod) (db : Db)
    → SameTables db (switch h req m k db).1
unfolding switch
switch-SameTables h req (some m) k db = (call-Law h req.params m).reads db
switch-SameTables h req none (some k) db = (call_komari-Law h req.params k).reads db
switch-SameTables h req none none db = refl

-- Whatever the body of a request says and whichever statements fail, no table of the database changes.
pub rpc_serve-SameTables :
    (h : Handler) (body : Text) (db : Db) → SameTables db (rpc_serve h body db).1
unfolding rpc_serve dispatch
rpc_serve-SameTables h body db = elim (Option-cases (h.decoders.request body)) [
  | inl none_read ↦ rw (rpc_serve, none_read) refl
  | inr (req, e) ↦ rw (rpc_serve, e) (switch-SameTables h req _ _ db)
]

switch-kept :
    (h : Handler) (req : RpcRequest) (m : Option Method) (k : Option KomariMethod) (db : Db)
    → db.faults ≡ []
    → (switch h req m k db).1 ≡ db
unfolding switch
switch-kept h req (some m) k db works =
    let (r, e) = (call-Law h req.params m).succeeds db works in rw e refl
switch-kept h req none (some k) db works =
    let (r, e) = (call_komari-Law h req.params k).succeeds db works in rw e refl
switch-kept h req none none db works = refl

-- On a database that works, a request leaves it as it is.
pub rpc_serve-kept :
    (h : Handler) (body : Text) (db : Db) → db.faults ≡ [] → (rpc_serve h body db).1 ≡ db
unfolding rpc_serve dispatch
rpc_serve-kept h body db works = elim (Option-cases (h.decoders.request body)) [
  | inl none_read ↦ rw (rpc_serve, none_read) refl
  | inr (req, e) ↦ rw (rpc_serve, e) (switch-kept h req _ _ db works)
]

-- A method of `dispatchKomari` that asks the store answers an error of the first statement with the code
-- -32601 and the message that there is no such method.
pub dispatch-hides_errors :
    (h : Handler) (req : RpcRequest) (db : Db) (m : KomariMethod) (e : Text)
    (fs : List (Option Text))
    → lookup (method_of req.method) methods ≡ none
    → lookup (method_of req.method) komari_methods ≡ some m
    → asks_komari m ≡ true
    → db.faults ≡ some e ∷ fs
    → (dispatch h req db).0 ≡ unknown_method req
unfolding dispatch switch answer_komari
dispatch-hides_errors h req db m e fs other found asking fault =
    rw (other, found, (call_komari-Law h req.params m).fails asking db e fs fault) refl

-- A method of `dispatch` itself that asks the store answers an error of the first statement with the code
-- -32000 and the error's text.
pub dispatch-store_failed :
    (h : Handler) (req : RpcRequest) (db : Db) (m : Method) (e : Text) (fs : List (Option Text))
    → lookup (method_of req.method) methods ≡ some m
    → asks m ≡ true
    → db.faults ≡ some e ∷ fs
    → (dispatch h req db).0 ≡ failed req.id store_failed e
unfolding dispatch switch answer_call
dispatch-store_failed h req db m e fs found asking fault =
    rw (found, (call-Law h req.params m).fails asking db e fs fault) refl

-- A request is answered by a result, and the database is the same.
abbrev pub IsAnswered : Handler → Db → RpcRequest → Type 0
IsAnswered h db req = (r : Reply) × (dispatch h req db ≡ (replied req r, db))

module _ (h : Handler) (db : Db) (works : db.faults ≡ []) (req : RpcRequest) where
  switch_result :
      (m : Option Method) (k : Option KomariMethod)
      → is_case m k ≡ true
      → (r : Reply) × (switch h req m k db ≡ (replied req r, db))
  unfolding switch answer_call answer_komari
  switch_result (some m) k e =
      let (r, done) = (call-Law h req.params m).succeeds db works in (r, rw done refl)
  switch_result none (some k) e =
      let (r, done) = (call_komari-Law h req.params k).succeeds db works in (r, rw done refl)
  switch_result none none e = absurd (ground arith)

  named-IsAnswered :
      (name : Text) → is_known name ≡ true → method_of req.method ≡ name → IsAnswered h db req
  unfolding dispatch
  named-IsAnswered name known e =
      rw e (switch_result (lookup name methods) (lookup name komari_methods) (ground arith))

-- On a database that works, each method that getMethods lists is answered by a result, and so it is
-- behind any namespace; the database is the same.
pub dispatch-listed :
    (h : Handler) (db : Db) (req : RpcRequest) (ns : Text)
    → db.faults ≡ []
    → All
        (λ name.
          IsAnswered h db (record req { method = name })
          × IsAnswered h db (record req { method = ns ++ b':' ∷ name }))
        listed_methods
dispatch-listed h db req ns works =
    all-All is_known _
      (λ name known. (
        named-IsAnswered h db works (record req { method = name }) name known
            (method_of-bare name known),
        named-IsAnswered h db works (record req { method = ns ++ b':' ∷ name }) name known
            (method_of-namespace ns name known),
      ))
      listed_methods listed_methods-known
