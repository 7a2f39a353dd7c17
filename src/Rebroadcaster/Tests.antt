-- ===== src/Rebroadcaster/Tests.antt =====
-- A round over two transactions, of which the node takes one.
use multiwallet.Prelude.{true, false, [], ◌∷◌, ◌≡◌, refl, ◌⊎◌, Text, codes, text_eq}
use multiwallet.Database.Models.{UnconfirmedTransaction, empty_tables}
use multiwallet.Database.Tables.{delete_by}
use multiwallet.Database.Tx.{query, statement, write, update, view, write_tx, read_tx, finish}
use multiwallet.Rebroadcaster.{
  Relay, Node, find_unconfirmed, rebroadcast, rebroadcast_each, rebroadcast_one, delete_unconfirmed,
}
use multiwallet.Rebroadcaster.Round.{IsSwept, rebroadcast-IsSwept}

abbrev pending : Text → UnconfirmedTransaction
pending txid = record { txid = txid; tx_bytes = txid; timestamp = 0; coin = codes "BTC" }

abbrev relay : Relay
relay = record {
  engine = record {
    tables = record empty_tables { unconfirmed = pending (codes "a") ∷ pending (codes "b") ∷ [] };
    step = 0;
    faults = λ n. false;
  };
  sent = [];
}

-- The node takes "b" only.
abbrev node : Node
node sent bytes = text_eq bytes (codes "b")

round_result :
    ((rebroadcast node (codes "BTC") relay).engine.tables.unconfirmed ≡ pending (codes "a") ∷ [])
    × ((rebroadcast node (codes "BTC") relay).sent ≡ codes "a" ∷ codes "b" ∷ [])
unfolding rebroadcast rebroadcast_each rebroadcast_one delete_unconfirmed query statement write
    update view write_tx read_tx finish delete_by text_eq
round_result = (refl, refl)

rebroadcast_example :
    ((relay.engine.faults relay.engine.step ≡ true)
      × ((rebroadcast node (codes "BTC") relay).engine.tables ≡ relay.engine.tables)
      × ((rebroadcast node (codes "BTC") relay).sent ≡ relay.sent))
    ⊎ IsSwept node
        (find_unconfirmed (codes "BTC") relay.engine.tables)
        relay
        (rebroadcast node (codes "BTC") relay)
rebroadcast_example = rebroadcast-IsSwept node (codes "BTC") relay
