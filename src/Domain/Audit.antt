-- ===== src/Domain/Audit.antt =====
-- internal/domain/audit/audit.go: the append-only audit event. The metadata map is a list of pairs.
use webmcp_backend.Common.{
  ℕ, String, ◌||◌, List, [], ◌∷◌, ◌==◌, nat_eq, message, Checked, reject, ◌>>◌,
}
use webmcp_backend.Common.Text.{is_blank}
use webmcp_backend.Domain.Core.{Ident, ActorType, validate_ids, validate_actor_type}

pub record Event : Type 0 where
  pub id : Ident
  pub actor_type : ActorType
  pub actor_id : Ident
  pub action : String
  pub aggregate : String
  pub aggregate_id : Ident
  pub request_id : String
  pub operation_id : Ident
  pub occurred_at : ℕ
  pub metadata : List (String × String)

unfoldable validate_event : Event → Checked
validate_event e = do
  validate_ids
      (("audit_event_id", e.id) ∷ ("actor_id", e.actor_id) ∷ ("aggregate_id", e.aggregate_id) ∷ [])
  validate_actor_type e.actor_type
  reject (is_blank e.action || is_blank e.aggregate || is_blank e.request_id || e.occurred_at == 0)
      (message "audit action, aggregate, request id and timestamp are required")
