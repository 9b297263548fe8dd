-- ===== src/Drafts/Decided.antt =====
-- What a call keeps true of the queue: what is approved, and by whom.
use plantlens.Prelude.{
  ℕ, String, ◌≡◌, refl, sym, ap, ◌∙◌, subst, true, false, Option, none, some, List, ◌∷◌, arith,
  str_eq, eq_iff, if◌then◌else◌, Bool-cases, inl, inr, ◌⊎◌,
}
use mathlib.Core.List.{Memᴰ}
use plantlens.Prelude.Dict.{lookup, insert, lookup-insert}
use plantlens.Auth.{
  Principal, Guard, passed, agent_refused, role_refused, is_agent, human_approver_role,
  require_human_approver,
}
use plantlens.Drafts.{
  DraftStatus, pending, approved, rejected, is_pending, is_approved, Draft, AgentDraftQueue,
  Resolution, resolved, not_found, already, submit, get, settle, resolve_found, resolve,
  get_approved,
}
use plantlens.Drafts.Requests.{Ledger, Desk, record_decision, recorded, decide_if}

pub record IsHumanApprover (p : Principal) : Type 0 where
  pub not_agent : is_agent p ≡ false
  pub role : human_approver_role p.role ≡ true

-- The two decisions that the handlers make.
pub data IsVerdict : DraftStatus → Type 0 where
  approval : IsVerdict approved
  rejection : IsVerdict rejected

pub guard_human : (p : Principal) → require_human_approver p ≡ passed → IsHumanApprover p
unfolding require_human_approver
guard_human p e = record { not_agent = ground (arith, e); role = ground (arith, e) }

-- A request to decide on a draft.
pub record Decision : Type 0 where
  pub by : Principal
  pub draft_id : String
  pub verdict : DraftStatus

module _ {P : Type 0} where
  -- A human approver requested the decision that the draft has, and it is signed with the approver's
  -- subject. The requests so far are `log`.
  pub record SignedByHuman (log : List Decision) (id : String) (d : Draft P) : Type 0 where
    pub approver : Principal
    pub human : IsHumanApprover approver
    pub requested : Memᴰ (record { by = approver; draft_id = id; verdict = d.status }) log
    pub signed : d.resolved_by ≡ some approver.subject

  abbrev pub only_approved : Option (Draft P) → Option (Draft P)
  only_approved none = none
  only_approved (some d) = if is_approved d.status then some d else none

  pending_unapproved : (d : Draft P) → is_pending d.status ≡ true → only_approved (some d) ≡ none
  pending_unapproved d h = ground (arith, h)

  abbrev pub IsDecided : List Decision → String → Option (Draft P) → Type 0
  IsDecided log id none = Unit
  IsDecided log id (some d) = (d.status ≡ pending) ⊎ SignedByHuman log id d

  -- The approved artifacts are the approved drafts, and a draft that is not pending got its status by the
  -- request of a human approver, who signed it.
  pub record IsSound (log : List Decision) (q : AgentDraftQueue P) : Type 0 where
    pub artifacts : (id : String) → get_approved q id ≡ only_approved (get q id)
    pub decided : (id : String) → IsDecided log id (get q id)

  IsDecided-cons :
      (x : Decision) (log : List Decision) (id : String) (o : Option (Draft P))
      → IsDecided log id o
      → IsDecided (x ∷ log) id o
  IsDecided-cons x log id none h = h
  IsDecided-cons x log id (some d) (inl h) = inl h
  IsDecided-cons x log id (some d) (inr h) = inr (record {
    approver = h.approver;
    human = h.human;
    requested = Memᴰ.tail h.requested;
    signed = h.signed;
  })

  -- One more request keeps a queue sound.
  pub IsSound-cons :
      (x : Decision) (log : List Decision) (q : AgentDraftQueue P)
      → IsSound log q
      → IsSound (x ∷ log) q
  IsSound-cons x log q h = record {
    artifacts = h.artifacts;
    decided = λ id. IsDecided-cons x log id (get q id) (h.decided id);
  }

  -- The soundness at one key, where a draft is put and the artifact under the key is known.
  put-artifact :
      (log : List Decision) (q : AgentDraftQueue P) (id other : String) (d : Draft P)
      → get_approved q id ≡ only_approved (some d)
      → IsSound log q
      → get_approved q other ≡ only_approved (lookup other (insert id d q.drafts))
  put-artifact log q id other d a h = elim (Bool-cases (str_eq id other)) [
    | inl e ↦
        rw (lookup-insert id other d q.drafts, e)
          (subst (λ k. get_approved q k ≡ only_approved (some d)) ((eq_iff id other).0 e) a)
    | inr e ↦ rw (lookup-insert id other d q.drafts, e) (h.artifacts other)
  ]

  put-IsDecided :
      (log : List Decision) (q : AgentDraftQueue P) (id other : String) (d : Draft P)
      → IsDecided log id (some d)
      → IsSound log q
      → IsDecided log other (lookup other (insert id d q.drafts))
  put-IsDecided log q id other d s h = elim (Bool-cases (str_eq id other)) [
    | inl e ↦
        rw (lookup-insert id other d q.drafts, e)
          (subst (λ k. IsDecided log k (some d)) ((eq_iff id other).0 e) s)
    | inr e ↦ rw (lookup-insert id other d q.drafts, e) (h.decided other)
  ]

  pub submit-IsSound :
      (log : List Decision) (q : AgentDraftQueue P) (id : String) (now : ℕ) (t : String) (p : P)
      (by : String)
      → get q id ≡ none
      → IsSound log q
      → IsSound log (submit q id now t p by).1
  unfolding submit
  submit-IsSound log q id now t p by new h =
      let draft = (submit q id now t p by).0 in
      record {
        artifacts =
            λ other. put-artifact log q id other draft (h.artifacts id ∙ ap only_approved new) h;
        decided = λ other. put-IsDecided log q id other draft (inl refl) h;
      }

  approve-IsSound :
      (log : List Decision) (q : AgentDraftQueue P) (id by : String) (now : ℕ) (old : Draft P)
      → SignedByHuman log id (settle q id approved by now old).0
      → IsSound log q
      → IsSound log (settle q id approved by now old).1
  unfolding settle
  approve-IsSound log q id by now old s h =
      let draft = (settle q id approved by now old).0 in
      record {
        artifacts = λ other. elim (Bool-cases (str_eq id other)) [
          | inl e ↦ rw (
            lookup-insert id other draft q.drafts,
            lookup-insert id other draft q.approved_artifacts,
            e,
          )
          | inr e ↦
              rw
                (
                  lookup-insert id other draft q.drafts,
                  lookup-insert id other draft q.approved_artifacts,
                  e,
                )
                (h.artifacts other)
        ];
        decided = λ other. put-IsDecided log q id other draft (inr s) h;
      }

  reject-IsSound :
      (log : List Decision) (q : AgentDraftQueue P) (id by : String) (now : ℕ) (old : Draft P)
      → get q id ≡ some old
      → is_pending old.status ≡ true
      → SignedByHuman log id (settle q id rejected by now old).0
      → IsSound log q
      → IsSound log (settle q id rejected by now old).1
  unfolding settle
  reject-IsSound log q id by now old found waiting s h =
      let draft = (settle q id rejected by now old).0 in
      record {
        artifacts = λ other.
            put-artifact log q id other draft
              (h.artifacts id ∙ ap only_approved found ∙ pending_unapproved old waiting) h;
        decided = λ other. put-IsDecided log q id other draft (inr s) h;
      }

  settle-IsSound :
      (log : List Decision) (q : AgentDraftQueue P) (id by : String) (now : ℕ) (old : Draft P)
      (s : DraftStatus)
      → IsVerdict s
      → get q id ≡ some old
      → is_pending old.status ≡ true
      → SignedByHuman log id (settle q id s by now old).0
      → IsSound log q
      → IsSound log (settle q id s by now old).1
  settle-IsSound log q id by now old pending v found waiting signed h = elim v [ ]
  settle-IsSound log q id by now old approved approval found waiting signed h =
      approve-IsSound log q id by now old signed h
  settle-IsSound log q id by now old rejected rejection found waiting signed h =
      reject-IsSound log q id by now old found waiting signed h

  resolve_found-IsSound :
      (log : List Decision) (q : AgentDraftQueue P) (id : String) (p : Principal) (now : ℕ)
      (s : DraftStatus)
      → IsVerdict s
      → IsHumanApprover p
      → IsSound log q
      → (found : Option (Draft P)) → get q id ≡ found
      → IsSound
          (record { by = p; draft_id = id; verdict = s } ∷ log)
          (resolve_found q id s p.subject now found).1
  unfolding settle
  resolve_found-IsSound log q id p now s v human h none e = IsSound-cons _ log q h
  resolve_found-IsSound log q id p now s v human h (some old) e =
      let log' : List Decision = record { by = p; draft_id = id; verdict = s } ∷ log in
      elim (Bool-cases (is_pending old.status)) [
        | inl w ↦ rw w (
            settle-IsSound log' q id p.subject now old s v e w
              (record { approver = p; human = human; requested = Memᴰ.head refl; signed = refl })
              (IsSound-cons _ log q h))
        | inr w ↦ rw w (IsSound-cons _ log q h)
      ]

module _ {P L : Type 0} ⦃l : Ledger L⦄ where
  recorded-queue :
      (q : AgentDraftQueue P) (ledger : L) (d : Draft P) (o : Option L)
      → (recorded q ledger d o).1.queue ≡ q
  recorded-queue q ledger d none = refl
  recorded-queue q ledger d (some _) = refl

  pub record_decision-queue :
      (ledger : L) (p : Principal) (action id : String) (s : DraftStatus) (now : ℕ)
      (r : Resolution P × AgentDraftQueue P)
      → (record_decision ledger p action id s now r).1.queue ≡ r.1
  unfolding record_decision
  record_decision-queue ledger p action id s now (resolved d, q) = recorded-queue q ledger d _
  record_decision-queue ledger p action id s now (not_found, q) = refl
  record_decision-queue ledger p action id s now (already _, q) = refl

  pub decide-IsSound :
      (log : List Decision) (d : Desk P L) (p : Principal) (action id : String) (s : DraftStatus)
      (now : ℕ)
      → IsVerdict s
      → IsSound log d.queue
      → (g : Guard) → (g ≡ passed → IsHumanApprover p)
      → IsSound
          (record { by = p; draft_id = id; verdict = s } ∷ log)
          (decide_if g d p action id s now).1.queue
  unfolding resolve
  decide-IsSound log d p action id s now v h passed human =
      subst (IsSound (record { by = p; draft_id = id; verdict = s } ∷ log))
        (sym
          (record_decision-queue d.ledger p action id s now (resolve d.queue id s p.subject now)))
        (resolve_found-IsSound log d.queue id p now s v (human refl) h (get d.queue id) refl)
  decide-IsSound log d p action id s now v h agent_refused human = IsSound-cons _ log d.queue h
  decide-IsSound log d p action id s now v h role_refused human = IsSound-cons _ log d.queue h
