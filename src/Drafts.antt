-- ===== src/Drafts.antt =====
-- `AgentDraftQueue` of apps/api/app/services/agent_queue.py. The payload is an element of a type P. The
-- random id of a draft and the instants are arguments. A deep copy of an immutable value is the value;
-- the lock makes each method one step.
pub mod Requests
pub mod Decided
pub mod Life
pub mod Unaudited
use plantlens.Prelude.{ℕ, String, Bool, true, false, Option, none, some, List, []}
use plantlens.Prelude.{filter, if◌then◌else◌}
use plantlens.Prelude.Dict.{Dict, lookup, insert, values}

pub data DraftStatus : Type 0 where
  pending approved rejected : DraftStatus

abbrev pub is_pending : DraftStatus → Bool
is_pending pending = true
is_pending _ = false

abbrev pub is_approved : DraftStatus → Bool
is_approved approved = true
is_approved _ = false

pub record Draft (P : Type 0) : Type 0 where
  pub draft_id : String
  pub draft_type : String
  pub status : DraftStatus
  pub proposed_by : String
  pub created_at : ℕ
  pub payload : P
  pub resolved_by : Option String
  pub resolved_at : Option ℕ

pub record AgentDraftQueue (P : Type 0) : Type 0 where
  pub drafts : Dict (Draft P)
  pub approved_artifacts : Dict (Draft P)

-- The outcome of `resolve`: the draft, a `KeyError` or a `ValueError`
pub data Resolution (P : Type 0) : Type 0 where
  resolved : Draft P → Resolution P
  not_found : Resolution P
  already : DraftStatus → Resolution P

module _ {P : Type 0} where
  abbrev pub empty_queue : AgentDraftQueue P
  empty_queue = record { drafts = []; approved_artifacts = [] }

  -- submit
  unfoldable pub submit :
      AgentDraftQueue P
      → (draft_id : String) (now : ℕ) (draft_type : String) (payload : P) (proposed_by : String)
      → Draft P × AgentDraftQueue P
  submit q draft_id now draft_type payload proposed_by =
      let draft : Draft P = record {
        draft_id = draft_id;
        draft_type = draft_type;
        status = pending;
        proposed_by = proposed_by;
        created_at = now;
        payload = payload;
        resolved_by = none;
        resolved_at = none;
      } in
      (draft, record q { drafts = insert draft_id draft q.drafts })

  -- get
  abbrev pub get : AgentDraftQueue P → String → Option (Draft P)
  get q draft_id = lookup draft_id q.drafts

  -- list_pending
  abbrev pub list_pending : AgentDraftQueue P → List (Draft P)
  list_pending q = filter (λ (d : Draft P). is_pending d.status) (values q.drafts)

  -- The part of `resolve` behind its two errors: the draft in the dict is changed in place.
  unfoldable pub settle :
      AgentDraftQueue P → String → DraftStatus → String → ℕ → Draft P → Draft P × AgentDraftQueue P
  settle q draft_id status resolved_by now draft =
      let draft' : Draft P = record draft {
        status = status;
        resolved_by = some resolved_by;
        resolved_at = some now;
      } in
      (
        draft',
        record {
          drafts = insert draft_id draft' q.drafts;
          approved_artifacts =
              if is_approved status
              then insert draft_id draft' q.approved_artifacts
              else q.approved_artifacts;
        },
      )

  abbrev pub resolve_found :
      AgentDraftQueue P
      → String
      → DraftStatus
      → String
      → ℕ
      → Option (Draft P)
      → Resolution P × AgentDraftQueue P
  resolve_found q draft_id status resolved_by now none = (not_found, q)
  resolve_found q draft_id status resolved_by now (some draft) =
      if is_pending draft.status
      then (let (draft', q') = settle q draft_id status resolved_by now draft in
          (resolved draft', q'))
      else (already draft.status, q)

  -- resolve
  unfoldable pub resolve :
      AgentDraftQueue P
      → (draft_id : String) (status : DraftStatus) (resolved_by : String) (now : ℕ)
      → Resolution P × AgentDraftQueue P
  resolve q draft_id status resolved_by now =
      resolve_found q draft_id status resolved_by now (lookup draft_id q.drafts)

  -- list_approved
  abbrev pub list_approved : AgentDraftQueue P → List (Draft P)
  list_approved q = values q.approved_artifacts

  -- get_approved
  abbrev pub get_approved : AgentDraftQueue P → String → Option (Draft P)
  get_approved q draft_id = lookup draft_id q.approved_artifacts

  -- clear
  abbrev pub clear : AgentDraftQueue P → AgentDraftQueue P
  clear q = empty_queue
