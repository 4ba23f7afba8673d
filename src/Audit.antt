-- ===== src/Audit.antt =====
-- src/lib/audit.ts: the log of privileged actions. Entries are only ever added.
use article.Prelude.{ℕ, String, List, ◌∷◌}

-- Metadata, address and browser of the entry are left out.
pub record AuditEntry : Type 0 where
  pub actor_id : ℕ
  pub action : String
  pub target_type : String
  pub target_id : ℕ

unfoldable pub record_audit : AuditEntry → List AuditEntry → List AuditEntry
record_audit entry log = entry ∷ log
