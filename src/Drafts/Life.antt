-- ===== src/Drafts/Life.antt =====
-- The life of the service: submissions and decisions in any order.
use plantlens.Prelude.{
  List, ◌∷◌, ℕ, String, ◌≡◌, refl, sym, ap, ◌∙◌, Bool, false, Option, none, some, arith, str_eq,
  eq_iff, Bool-cases, inl, inr, is_some,
}
use plantlens.Prelude.Dict.{lookup, insert, lookup-insert}
use plantlens.Auth.{Principal, Guard, passed, agent_refused, role_refused, require_human_approver}
use plantlens.Drafts.{
  DraftStatus, approved, rejected, is_pending, Draft, AgentDraftQueue, submit, get, settle,
  resolve_found, resolve,
}
use plantlens.Drafts.Requests.{Ledger, Desk, decide_if, approve_draft, reject_draft}
use plantlens.Drafts.Decided.{
  IsSound, approval, rejection, guard_human, Decision, submit-IsSound, decide-IsSound,
  record_decision-queue,
}

module _ {P : Type 0} where
  abbrev waits : Option (Draft P) → Bool
  waits none = false
  waits (some d) = is_pending d.status

  put-other :
      (q : AgentDraftQueue P) (id other : String) (new draft : Draft P)
      → get q other ≡ some draft
      → (id ≡ other → ⊥)
      → lookup other (insert id new q.drafts) ≡ some draft
  put-other q id other new draft h ne = elim (Bool-cases (str_eq id other)) [
    | inl e ↦ absurd (ne ((eq_iff id other).0 e))
    | inr e ↦ rw (lookup-insert id other new q.drafts, e) h
  ]

  resolve_found-final :
      (q : AgentDraftQueue P) (id by other : String) (s : DraftStatus) (now : ℕ) (draft : Draft P)
      → get q other ≡ some draft
      → is_pending draft.status ≡ false
      → (found : Option (Draft P)) → get q id ≡ found
      → get (resolve_found q id s by now found).1 other ≡ some draft
  unfolding settle
  resolve_found-final q id by other s now draft h done none e = h
  resolve_found-final q id by other s now draft h done (some old) e =
      elim (Bool-cases (is_pending old.status)) [
        | inl w ↦ rw w (
            put-other q id other (settle q id s by now old).0 draft h
              (λ same. ground (arith, w, done, ap waits (sym e ∙ ap (get q) same ∙ h))))
        | inr w ↦ rw w h
      ]

module _ {P L : Type 0} ⦃l : Ledger L⦄ where
  -- The calls between two states. An id that a submission draws is new.
  pub data Run (d : Desk P L) : Desk P L → Type 0 where
    start : Run d d
    submitted :
        {e : Desk P L} (id : String) (now : ℕ) (draft_type : String) (payload : P) (by : String)
        → Run d e
        → get e.queue id ≡ none
        → Run d (record e { queue = (submit e.queue id now draft_type payload by).1 })
    approve :
        {e : Desk P L} (p : Principal) (id : String) (now : ℕ)
        → Run d e
        → Run d (approve_draft e p id now).1
    reject :
        {e : Desk P L} (p : Principal) (id : String) (now : ℕ)
        → Run d e
        → Run d (reject_draft e p id now).1

  -- The requests to decide, the latest first, after those of `log`.
  abbrev pub decisions : {d e : Desk P L} → List Decision → Run d e → List Decision
  decisions log start = log
  decisions log (submitted id now t payload by r new) = decisions log r
  decisions log (approve p id now r) =
      record { by = p; draft_id = id; verdict = approved } ∷ decisions log r
  decisions log (reject p id now r) =
      record { by = p; draft_id = id; verdict = rejected } ∷ decisions log r

  -- A queue that is sound with the requests before a run of the service is sound with those of the run added:
  -- the approved artifacts are exactly the approved drafts, and each draft that is not pending has the
  -- status that a principal requested for it who is not an agent and has an approver's role, and is signed
  -- with the subject of that principal.
  pub Run-IsSound :
      {d e : Desk P L} (log : List Decision) (r : Run d e)
      → IsSound log d.queue
      → IsSound (decisions log r) e.queue
  unfolding approve_draft reject_draft
  Run-IsSound log start h = h
  Run-IsSound log (submitted {e} id now t payload by r new) h =
      submit-IsSound (decisions log r) e.queue id now t payload by new (Run-IsSound log r h)
  Run-IsSound log (approve {e} p id now r) h =
      decide-IsSound (decisions log r) e p _ id approved now approval (Run-IsSound log r h)
        (require_human_approver p) (guard_human p)
  Run-IsSound log (reject {e} p id now r) h =
      decide-IsSound (decisions log r) e p _ id rejected now rejection (Run-IsSound log r h)
        (require_human_approver p) (guard_human p)

  decide-final :
      (d : Desk P L) (p : Principal) (action id other : String) (s : DraftStatus) (now : ℕ)
      (draft : Draft P)
      → get d.queue other ≡ some draft
      → is_pending draft.status ≡ false
      → (g : Guard) → get (decide_if g d p action id s now).1.queue other ≡ some draft
  unfolding resolve
  decide-final d p action id other s now draft h done passed =
      ap (λ q. get q other)
        (record_decision-queue d.ledger p action id s now (resolve d.queue id s p.subject now))
      ∙ resolve_found-final d.queue id p.subject other s now draft h done (get d.queue id) refl
  decide-final d p action id other s now draft h done agent_refused = h
  decide-final d p action id other s now draft h done role_refused = h

  -- A decision is final: in any run of the service, a draft that is not pending stays as it is.
  pub decided_stays :
      {d e : Desk P L} (id : String) (draft : Draft P)
      → Run d e
      → get d.queue id ≡ some draft
      → is_pending draft.status ≡ false
      → get e.queue id ≡ some draft
  unfolding approve_draft reject_draft submit
  decided_stays id draft start h done = h
  decided_stays id draft (submitted {e} other now t payload by r new) h done =
      let before = decided_stays id draft r h done in
      put-other e.queue other id (submit e.queue other now t payload by).0 draft before
        (λ same. ground (arith, ap is_some (sym new ∙ ap (get e.queue) same ∙ before)))
  decided_stays id draft (approve {e} p other now r) h done =
      decide-final e p _ other id approved now draft (decided_stays id draft r h done) done
        (require_human_approver p)
  decided_stays id draft (reject {e} p other now r) h done =
      decide-final e p _ other id rejected now draft (decided_stays id draft r h done) done
        (require_human_approver p)
