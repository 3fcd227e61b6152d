-- ===== src/Samples/Sync.antt =====
-- The block that one node mines in Samples/Chain.antt, sent to another.
use personalblockchain.Prelude.{◌≡◌, refl, false}
use personalblockchain.Prelude.Map.{contains}
use personalblockchain.Block.Serial as BlockSerial
use personalblockchain.Network.Node.ChainMessages.{on_new_block}
use personalblockchain.Network.Node.Sync.{on_new_block-mined}
use personalblockchain.Samples.Toy.{toy, whole, adjuster}
use personalblockchain.Samples.Texts.{alice_address}
use personalblockchain.Samples.Values.{values, values-IsLawful}
use personalblockchain.Samples.Chain.{engine, storage, start, mined, mined-start}
use personalblockchain.Samples.Calls.{start-IsConsistent, start_holds, mined_at_one, timely}
use personalblockchain.Samples.Storage.{mined-AreComplete}
use personalblockchain.Samples.Node.{node, clock, key}
use personalblockchain.Prelude.{arith}

unseen : contains mined.1.hash node.seen_block_hashes ≡ false
unfolding contains
unseen = refl

on_new_block-mined_example :
    let result =
      on_new_block values toy engine storage clock 0 key
        (BlockSerial.to_json values toy mined.1)
        node in
    (result.blockchain.chain ≡ mined.0.chain)
    × (result.blockchain.state_manager ≡ mined.0.state_manager)
on_new_block-mined_example =
    on_new_block-mined values toy whole adjuster storage storage clock 7_000_000_000 7_000_000_000
      1000 0 key start mined.0 node mined.1 alice_address values-IsLawful mined-AreComplete unseen
      start-IsConsistent start-IsConsistent refl mined-start start_holds
      (omega (arith, mined_at_one)) (omega (arith, mined_at_one)) timely
