-- ===== src/Core/State/Resume.antt =====
-- A chain comes back from its snapshot.
use potash.Common.{◌≡◌, arith}
use potash.Core.Error.{ok}
use potash.Core.State.{AssetChain, resume, snapshot}
use potash.Core.State.Apply.{IsChain}

-- A chain of a valid state that is resumed from its own snapshot, with its commitment and version, is
-- the same chain.
pub resume_chain-snapshot :
    (c : AssetChain) → IsChain c → resume c.asset_commitment c.schema_version (snapshot c) ≡ ok c
unfolding resume snapshot
resume_chain-snapshot c chain = ground (arith, chain.schema, chain.category)
