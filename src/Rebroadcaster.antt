-- ===== src/Rebroadcaster.antt =====
-- base/rebroadcaster.go: one round of `rebroadcast`, which `Start` runs for each new block. The node
-- is an argument: what it says to a transaction, after the transactions sent before.
pub mod Round
mod Tests
use multiwallet.Prelude.{
  Bool, true, false, Option, none, some, List, [], ◌∷◌, ◌++◌, if◌then◌else◌, Text, text_eq, select,
}
use multiwallet.Database.Models.{UnconfirmedTransaction, Tables}
use multiwallet.Database.Tables.{delete_by}
use multiwallet.Database.Tx.{Result, ok, err, Tx, Engine, query, write, update, view}

-- The database, and the transactions sent to the node so far.
pub record Relay : Type 0 where
  pub engine : Engine
  pub sent : List Text

-- `broadcastFunc`: whether it succeeds.
abbrev pub Node : Type 0
Node = List Text → Text → Bool

abbrev pub drop_unconfirmed : Text → Tables → Tables
drop_unconfirmed txid t = record t { unconfirmed = delete_by (λ u. u.txid) txid t.unconfirmed }

-- `tx.Delete("txid", utx.Txid, &utx)`
unfoldable pub delete_unconfirmed : Text → Tx (Unit {0})
delete_unconfirmed txid = write (drop_unconfirmed txid)

-- `Where("coin=?", coin).Find(&unconf)`
abbrev pub find_unconfirmed : Text → Tables → List UnconfirmedTransaction
find_unconfirmed coin t = select (λ u. text_eq u.coin coin) t.unconfirmed

-- The body of the loop; an error of the node or of the database is only logged.
unfoldable pub rebroadcast_one : Node → UnconfirmedTransaction → Relay → Relay
rebroadcast_one node utx r =
    let sent = r.sent ++ utx.tx_bytes ∷ [] in
    if node r.sent utx.tx_bytes
    then record r { engine = (update (delete_unconfirmed utx.txid) r.engine).1; sent = sent }
    else record r { sent = sent }

unfoldable pub rebroadcast_each : Node → List UnconfirmedTransaction → Relay → Relay
rebroadcast_each node [] r = r
rebroadcast_each node (utx ∷ unconf) r = rebroadcast_each node unconf (rebroadcast_one node utx r)

abbrev pub rebroadcast_found : Node → Relay → Result (List UnconfirmedTransaction) × Engine → Relay
rebroadcast_found node r (err x, e) = record r { engine = e }
rebroadcast_found node r (ok unconf, e) = rebroadcast_each node unconf (record r { engine = e })

unfoldable pub rebroadcast : Node → Text → Relay → Relay
rebroadcast node coin r =
    rebroadcast_found node r (view (query (λ t. ok (find_unconfirmed coin t))) r.engine)
