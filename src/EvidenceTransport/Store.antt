-- ===== src/EvidenceTransport/Store.antt =====
-- The registries of one service: an object is a handle, the number of the objects before it.
use Prim.Native.String.{String}
use flop_agent_intelligence.Common.{ℕ, List}
use flop_agent_intelligence.EvidenceTransport.Types.{EvidenceSnapshot}
use flop_agent_intelligence.EvidenceTransport.Parse.{Row}

pub data ProofKind : Type 0 where
  complete_export reviewed_retention_loss : ProofKind

-- A snapshot with the rows that `records` keeps for it.
pub record Entry : Type 0 where
  pub snapshot : EvidenceSnapshot
  pub rows : List Row

pub record Trusted : Type 0 where
  pub snapshot : ℕ
  pub acquisition_id : String

pub record ProofRecord : Type 0 where
  pub snapshot : ℕ
  pub acquisition : ℕ
  pub kind : ProofKind
  pub acquisition_id : String

pub record Registry : Type 0 where
  pub acquired : List Entry
  pub trusted : List Trusted
  pub proofs : List ProofRecord
