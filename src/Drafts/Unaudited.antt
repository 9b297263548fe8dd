-- ===== src/Drafts/Unaudited.antt =====
-- An approval whose audit record cannot be written.
use plantlens.Prelude.{ℕ, String, ◌≡◌, refl, sym, subst, true, false, none, some, eq_iff}
use plantlens.Prelude.Dict.{Dict, lookup, insert, lookup-insert}
use plantlens.Auth.{Principal, Guard, passed, agent_refused, role_refused, require_human_approver}
use plantlens.Drafts.{
  DraftStatus, approved, rejected, is_pending, Draft, get, settle, resolve, get_approved,
}
use plantlens.Drafts.Requests.{
  Ledger, AuditEntry, Response, conflict, failed, Desk, record_decision, decide_if, approve_draft,
  reject_draft,
}
use plantlens.Drafts.Decided.{IsHumanApprover}
use plantlens.Drafts.Life.{Run, decided_stays}

human_passes : (p : Principal) → IsHumanApprover p → require_human_approver p ≡ passed
unfolding require_human_approver
human_passes p h = rw (h.not_agent, h.role)

module _ {P : Type 0} where
  abbrev pub approval_entry : Principal → String → Draft P → AuditEntry
  approval_entry p id old = record {
    actor = p;
    action = "agent.draft.approve";
    entity_id = id;
    draft_type = old.draft_type;
    status = approved;
  }

  abbrev pub approved_by : Principal → ℕ → Draft P → Draft P
  approved_by p now old = record old {
    status = approved;
    resolved_by = some p.subject;
    resolved_at = some now;
  }

  stored :
      (id : String) (draft : Draft P) (d : Dict (Draft P))
      → lookup id (insert id draft d) ≡ some draft
  stored id draft d = rw (lookup-insert id id draft d, (eq_iff id id).1 refl)

module _ {P L : Type 0} ⦃l : Ledger L⦄ where
  -- The request fails, the ledger keeps no trace of it, but the draft is approved. It stays so in any run of
  -- the service, where no decision on it, whoever asks for it, changes the queue or the ledger; to a human
  -- approver it is a conflict.
  pub record ApprovedUnrecorded (d : Desk P L) (draft : Draft P) (id : String)
      (answer : Response P × Desk P L) : Type 0 where
    pub fails : answer.0 ≡ failed
    pub same_ledger : answer.1.ledger ≡ d.ledger
    pub artifact : get_approved answer.1.queue id ≡ some draft
    pub stands : {e : Desk P L} → Run answer.1 e → get e.queue id ≡ some draft
    pub no_approval :
        {e : Desk P L} (p : Principal) (now : ℕ)
        → Run answer.1 e
        → ((approve_draft e p id now).1 ≡ e)
          × (IsHumanApprover p → (approve_draft e p id now).0 ≡ conflict)
    pub no_rejection :
        {e : Desk P L} (p : Principal) (now : ℕ)
        → Run answer.1 e
        → ((reject_draft e p id now).1 ≡ e)
          × (IsHumanApprover p → (reject_draft e p id now).0 ≡ conflict)

  settled_unchanged :
      (d : Desk P L) (draft : Draft P) (p : Principal) (action id : String) (s : DraftStatus)
      (now : ℕ)
      → get d.queue id ≡ some draft
      → is_pending draft.status ≡ false
      → (g : Guard) → (decide_if g d p action id s now).1 ≡ d
  unfolding resolve record_decision
  settled_unchanged d draft p action id s now found done passed = rw (found, done) refl
  settled_unchanged d draft p action id s now found done agent_refused = refl
  settled_unchanged d draft p action id s now found done role_refused = refl

  settled_conflicts :
      (d : Desk P L) (draft : Draft P) (p : Principal) (action id : String) (s : DraftStatus)
      (now : ℕ)
      → get d.queue id ≡ some draft
      → is_pending draft.status ≡ false
      → IsHumanApprover p
      → (decide_if (require_human_approver p) d p action id s now).0 ≡ conflict
  unfolding resolve record_decision
  settled_conflicts d draft p action id s now found done human =
      rw (human_passes p human, found, done)

  unrecorded_approval :
      (d : Desk P L) (p : Principal) (id : String) (now : ℕ) (old : Draft P)
      → get d.queue id ≡ some old
      → is_pending old.status ≡ true
      → IsHumanApprover p
      → l.append d.ledger now (approval_entry p id old) ≡ none
      → approve_draft d p id now ≡ (
        failed,
        record { queue = (settle d.queue id approved p.subject now old).1; ledger = d.ledger },
      )
  unfolding approve_draft resolve record_decision settle
  unrecorded_approval d p id now old found waiting human broken =
      rw (human_passes p human, found, waiting, broken)

  -- Let a human approver approve a pending draft, and let the ledger refuse the record of it. Then the
  -- request fails and the ledger stays as it was, but the draft is approved, as draft and as artifact. In
  -- any run of the service from there the draft stays as it is, and a request to decide on it, whoever makes
  -- it, leaves the queue and the ledger alone; to a human approver it is a conflict.
  pub approve_draft-ApprovedUnrecorded :
      (d : Desk P L) (p : Principal) (id : String) (now : ℕ) (old : Draft P)
      → get d.queue id ≡ some old
      → is_pending old.status ≡ true
      → IsHumanApprover p
      → l.append d.ledger now (approval_entry p id old) ≡ none
      → ApprovedUnrecorded d (approved_by p now old) id (approve_draft d p id now)
  unfolding settle approve_draft reject_draft
  approve_draft-ApprovedUnrecorded d p id now old found waiting human broken =
      let draft = approved_by p now old in
      let after : Desk P L = record {
        queue = (settle d.queue id approved p.subject now old).1;
        ledger = d.ledger;
      } in
      let kept : get after.queue id ≡ some draft = stored id draft d.queue.drafts in
      let stays : (e : Desk P L) → Run after e → get e.queue id ≡ some draft =
        λ e r. decided_stays id draft r kept refl in
      subst (ApprovedUnrecorded d draft id)
        (sym (unrecorded_approval d p id now old found waiting human broken))
        (record {
          fails = refl;
          same_ledger = refl;
          artifact = stored id draft d.queue.approved_artifacts;
          stands = λ {e} r. stays e r;
          no_approval = λ {e} p' now' r. (
            settled_unchanged e draft p' "agent.draft.approve" id approved now' (stays e r) refl
                (require_human_approver p'),
            settled_conflicts e draft p' "agent.draft.approve" id approved now' (stays e r) refl,
          );
          no_rejection = λ {e} p' now' r. (
            settled_unchanged e draft p' "agent.draft.reject" id rejected now' (stays e r) refl
                (require_human_approver p'),
            settled_conflicts e draft p' "agent.draft.reject" id rejected now' (stays e r) refl,
          );
        })
