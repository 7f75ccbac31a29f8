-- ===== src/Log/Commit.antt =====
-- `LogHeader::commit`: the disk at the commit point and at the end.
use ov.Prelude.{ℕ, ◌+◌, ◌≤◌, ◌≡◌, refl, List, [], length, All, done}
use ov.Log.{log_size, SuperBlock, Layout, Io}
use ov.Log.Ops.{commit}
use ov.Log.Header.{IsWord}
use ov.Log.Bodies.{IsHome}

-- A transaction whose blocks the log can hold, none of them in the log's own area.
pub record IsTransaction (sb : SuperBlock) (bns : List ℕ) : Type 0 where
  pub short : length bns ≤ sb.nlog
  pub log_fits : sb.nlog ≤ log_size
  pub words : All IsWord bns
  pub home : All (IsHome sb (sb.nlog + 1)) bns

-- There is nothing to do for an empty transaction.
pub commit-empty :
    {l : Layout} (sb : SuperBlock) (io : Io l)
    → commit (record { sb = sb; blocks = [] }) io ≡ done (record { sb = sb; blocks = [] }, io)
unfolding commit
commit-empty sb io = refl
