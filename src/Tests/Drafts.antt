-- ===== src/Tests/Drafts.antt =====
-- Two drafts of one agent, decided by an operator. The ledger of the tests takes two records.
use plantlens.Prelude.{
  String, ◌≡◌, refl, true, none, some, List, [], ◌∷◌, length, ltb, if◌then◌else◌,
}
use plantlens.Prelude.Dict.{lookup, insert}
use plantlens.Auth.{Principal, Role, ActorType, require_human_approver, agent_refused}
use plantlens.Drafts.{Draft, DraftStatus, is_pending, empty_queue, submit, get, settle, resolve}
use plantlens.Drafts.Requests.{
  Ledger, AuditEntry, Desk, forbidden, record_decision, approve_draft, reject_draft,
}
use plantlens.Drafts.Decided.{IsHumanApprover, IsSound}
use plantlens.Drafts.Life.{
  Run, start, submitted, approve, reject, decisions, Run-IsSound, decided_stays,
}
use plantlens.Drafts.Unaudited.{ApprovedUnrecorded, approved_by, approve_draft-ApprovedUnrecorded}

instance abbrev two_records : Ledger (List AuditEntry)
two_records = record {
  append = λ entries now e. if ltb (length entries) 2 then some (e ∷ entries) else none;
}

abbrev operator : Principal
operator = record {
  subject = "ops-7";
  role = Role.operator;
  actor_type = ActorType.user;
  display_name = none;
}

-- An agent with an operator's role
abbrev disguised : Principal
disguised = record {
  subject = "bot-1";
  role = Role.operator;
  actor_type = ActorType.agent;
  display_name = none;
}

operator-IsHumanApprover : IsHumanApprover operator
operator-IsHumanApprover = record { not_agent = refl; role = refl }

abbrev opened : Desk String (List AuditEntry)
opened = record { queue = empty_queue; ledger = [] }

opened-IsSound : IsSound [] opened.queue
unfolding lookup
opened-IsSound = record { artifacts = λ id. refl; decided = λ id. tt }

abbrev filed : Desk String (List AuditEntry)
filed = record opened {
  queue = (submit opened.queue "DRF_1" 10 "graph_draft" "add edge" "bot-1").1;
}

abbrev approved_desk : Desk String (List AuditEntry)
approved_desk = (approve_draft filed operator "DRF_1" 20).1

filed-Run : Run opened filed
unfolding lookup
filed-Run = submitted "DRF_1" 10 "graph_draft" "add edge" "bot-1" start refl

approved-Run : Run opened approved_desk
approved-Run = approve operator "DRF_1" 20 filed-Run

agents_refused : (approve_draft filed disguised "DRF_1" 20).0 ≡ forbidden agent_refused
unfolding approve_draft require_human_approver
agents_refused = refl

Run-IsSound_example : IsSound (decisions [] approved-Run) approved_desk.queue
Run-IsSound_example = Run-IsSound [] approved-Run opened-IsSound

abbrev draft : Draft String
draft = approved_by operator 20 (submit opened.queue "DRF_1" 10 "graph_draft" "add edge" "bot-1").0

draft_approved : get approved_desk.queue "DRF_1" ≡ some draft
unfolding approve_draft require_human_approver resolve record_decision settle submit lookup insert
draft_approved = refl

abbrev rejected_again : Desk String (List AuditEntry)
rejected_again = (reject_draft approved_desk operator "DRF_1" 30).1

decided_stays_example : get rejected_again.queue "DRF_1" ≡ some draft
decided_stays_example =
    decided_stays "DRF_1" draft (reject operator "DRF_1" 30 start) draft_approved refl

-- The ledger has no room.
abbrev full : Desk String (List AuditEntry)
full =
    let e : AuditEntry = record {
      actor = operator;
      action = "agent.draft.reject";
      entity_id = "DRF_0";
      draft_type = "graph_draft";
      status = DraftStatus.rejected;
    } in
    record filed { ledger = e ∷ e ∷ [] }

abbrev waiting : Draft String
waiting = (submit opened.queue "DRF_1" 10 "graph_draft" "add edge" "bot-1").0

waiting_there : get full.queue "DRF_1" ≡ some waiting
unfolding submit lookup insert
waiting_there = refl

waiting_pending : is_pending waiting.status ≡ true
unfolding submit
waiting_pending = refl

approve_draft-ApprovedUnrecorded_example :
    ApprovedUnrecorded full
      (approved_by operator 20 waiting)
      "DRF_1"
      (approve_draft full operator "DRF_1" 20)
approve_draft-ApprovedUnrecorded_example =
    approve_draft-ApprovedUnrecorded full operator "DRF_1" 20 waiting waiting_there waiting_pending
      operator-IsHumanApprover refl
