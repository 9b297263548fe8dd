-- ===== src/Drafts/Requests.antt =====
-- `approve_draft` and `reject_draft` of apps/api/app/routers/agents.py, and the submission at the end of
-- `request_graph_draft`. The audit ledger is an interface: its state, and its `append`, which answers
-- `none` where it raises an exception. The answer's bridge text is left out.
use plantlens.Prelude.{ℕ, String, Option, none, some}
use plantlens.Auth.{Principal, Guard, passed, require_human_approver}
use plantlens.Drafts.{
  DraftStatus, approved, rejected, Draft, AgentDraftQueue, Resolution, resolved, not_found, already,
  resolve,
}

-- What an append records: who did what to which draft, of which type.
pub record AuditEntry : Type 0 where
  pub actor : Principal
  pub action : String
  pub entity_id : String
  pub draft_type : String
  pub status : DraftStatus

pub record Ledger (L : Type 0) : Type 0 where
  pub append : L → ℕ → AuditEntry → Option L

-- The status codes 403, 404, 409 and 500, or the draft
pub data Response (P : Type 0) : Type 0 where
  ok : Draft P → Response P
  forbidden : Guard → Response P
  missing conflict failed : Response P

-- The service: the queue and the ledger.
pub record Desk (P L : Type 0) : Type 0 where
  pub queue : AgentDraftQueue P
  pub ledger : L

module _ {P L : Type 0} ⦃l : Ledger L⦄ where
  abbrev pub recorded : AgentDraftQueue P → L → Draft P → Option L → Response P × Desk P L
  recorded q ledger draft none = (failed, record { queue = q; ledger = ledger })
  recorded q ledger draft (some ledger') = (ok draft, record { queue = q; ledger = ledger' })

  -- The handlers behind `resolve`.
  unfoldable pub record_decision :
      L
      → Principal
      → String
      → String
      → DraftStatus
      → ℕ
      → Resolution P × AgentDraftQueue P
      → Response P × Desk P L
  record_decision ledger p action id status now (resolved draft, q) = recorded q ledger draft (
      l.append ledger now (record {
        actor = p;
        action = action;
        entity_id = id;
        draft_type = draft.draft_type;
        status = status;
      }))
  record_decision ledger p action id status now (not_found, q) =
      (missing, record { queue = q; ledger = ledger })
  record_decision ledger p action id status now (already s, q) =
      (conflict, record { queue = q; ledger = ledger })

  abbrev pub decide_if :
      Guard → Desk P L → Principal → String → String → DraftStatus → ℕ → Response P × Desk P L
  decide_if passed d p action id status now =
      record_decision d.ledger p action id status now (resolve d.queue id status p.subject now)
  decide_if g d p action id status now = (forbidden g, d)

  -- approve_draft
  unfoldable pub approve_draft : Desk P L → Principal → String → ℕ → Response P × Desk P L
  approve_draft d p id now =
      decide_if (require_human_approver p) d p "agent.draft.approve" id approved now

  -- reject_draft
  unfoldable pub reject_draft : Desk P L → Principal → String → ℕ → Response P × Desk P L
  reject_draft d p id now =
      decide_if (require_human_approver p) d p "agent.draft.reject" id rejected now
