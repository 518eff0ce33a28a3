-- ===== src/Evidence/Store/Keeps/Calls.antt =====
-- evidence/store.py: the calls, and the writes each of them makes.
use mcp_zero_trust_layer.Base.{
  leb, ◌==◌, nat_eq, string_eq, option_eq, length, any, first, int_eq, bool_eq, String, ◌≡◌, refl,
  ap, ◌∙◌, inl, inr, Bool, true, false, not, Option, none, some, List, [], ◌∷◌, arith,
}
use mcp_zero_trust_layer.Value.{
  Value, str, dict, Fields, get_or_null, put, value_error, Outcome, ok, raise, ◌>>=◌, Outcome-cases,
}
use mcp_zero_trust_layer.Config.{capability_type_eq}
use mcp_zero_trust_layer.Evidence.Canonical.{canonical, digest}
use mcp_zero_trust_layer.Evidence.Tables.{
  Operation, Database, Observation, EvidenceLibraries, item, find_operation, has_conflict,
  phase_event, event_payload, authorization_of, commit, append, insert_operation, consume_approval,
  reserve_new, reserve_found, reserve_authorized, reserve,
}
use mcp_zero_trust_layer.Evidence.Store.{
  conflicts, observations_of, last_hash, undelivered, emit_all, recorded_check, flush, take_receipt,
  record_in, refuse_conflict, record_event, insert_observation, observe, append_observation,
}
use mcp_zero_trust_layer.Evidence.Store.Keeps.{
  Call, reservation, recording, observation, flushing, Gives, Gives-then, Gives-bind, Gives-if,
  perform, perform_all, IsKept,
}

module _ (libraries : EvidenceLibraries) {D : Type 0} (P : Database D → Type 0)
    (k : IsKept libraries P) where
  pub append-Gives :
      (fresh : String) (operation : Value) (event : Fields) (s : Database D)
      → P s
      → Gives P (append libraries fresh operation event s)
  unfolding append
  append-Gives fresh operation event s p =
      Gives-then P (canonical libraries.digests (dict (event_payload fresh operation event))) _
        λ text _.
          Gives-then P
            (libraries.text_column (get_or_null "event_id" (event_payload fresh operation event))) _
            λ id _. Gives-then P (libraries.text_column operation) _ λ column _.
              Gives-if P (any (λ row. row.event_id == id) s.events) _ _ (λ _. tt)
                (λ _. k.of_event s _ p)

  commit-kept :
      {A : Type 0} (m : Outcome (A × Database D)) (s : Database D)
      → P s
      → Gives (λ r. P r.1) m
      → P (commit m s).1
  unfolding commit
  commit-kept (ok r) s p g = g
  commit-kept (raise e) s p g = p

  pub consume_approval-Gives :
      (consume : Option (D → Bool × D)) (s : Database D)
      → P s
      → Gives (λ t. P t × (t.operations ≡ s.operations)) (consume_approval libraries consume s)
  unfolding consume_approval
  consume_approval-Gives none s p = (p, refl)
  consume_approval-Gives (some consume) s p =
      Gives-if (λ t. P t × (t.operations ≡ s.operations)) (consume s.approvals).0 _ _
        (λ _. (k.of_approvals s _ p, refl)) (λ _. tt)

  reserve_new-Gives :
      (fresh : String) (bundle : Fields) (scope fingerprint : String)
      (consume : Option (D → Bool × D)) (auth : Value) (s : Database D)
      → first (λ o. o.scope == scope) s.operations ≡ none
      → P s
      → Gives (λ r. P r.1) (reserve_new libraries fresh bundle scope fingerprint consume auth s)
  unfolding reserve_new insert_operation
  reserve_new-Gives fresh bundle scope fingerprint consume auth s free p =
      Gives-then (λ r. P r.1) (item "operation_id" auth) _
        λ operation _.
          Gives-bind (λ t. P t × (t.operations ≡ s.operations)) (λ r. P r.1)
            (consume_approval libraries consume s) _ (consume_approval-Gives consume s p)
            λ s1 (p1, same).
              Gives-then (λ r. P r.1) (item "tenant" auth) _
                λ tenant _.
                  Gives-then (λ r. P r.1) (canonical libraries.digests (dict bundle)) _
                    λ text _.
                      Gives-then (λ r. P r.1) (libraries.text_column operation) _
                        λ id _.
                          Gives-then (λ r. P r.1) (libraries.text_column tenant) _
                            λ tenant_text _.
                              Gives-bind P (λ r. P r.1) _ _
                                (Gives-if P (any (λ q. q.operation_id == id) s1.operations) _ _
                                  (λ _. tt) (λ new. k.of_operation s1 _ (rw same free) new p1))
                                λ s2 p2.
                                  Gives-bind P (λ r. P r.1) _ _
                                    (append-Gives fresh operation (phase_event "dispatch_intent") s2
                                      p2)
                                    λ s3 p3. p3

  reserve_found-kept :
      (fresh : String) (bundle : Fields) (scope fingerprint : String)
      (consume : Option (D → Bool × D)) (auth : Value) (s : Database D) (found : Option Operation)
      → first (λ o. o.scope == scope) s.operations ≡ found
      → P s
      → P (reserve_found libraries fresh bundle scope fingerprint consume auth s found).1
  unfolding reserve_found
  reserve_found-kept fresh bundle scope fingerprint consume auth s (some previous) e p = p
  reserve_found-kept fresh bundle scope fingerprint consume auth s none e p =
      commit-kept _ s p (reserve_new-Gives fresh bundle scope fingerprint consume auth s e p)

  reserve_authorized-kept :
      (fresh : String) (bundle : Fields) (scope fingerprint : String)
      (consume : Option (D → Bool × D)) (s : Database D) (m : Outcome Value)
      → P s
      → P (reserve_authorized libraries fresh bundle scope fingerprint consume s m).1
  unfolding reserve_authorized
  reserve_authorized-kept fresh bundle scope fingerprint consume s (raise e) p = p
  reserve_authorized-kept fresh bundle scope fingerprint consume s (ok auth) p =
      reserve_found-kept fresh bundle scope fingerprint consume auth s
        (first (λ o. o.scope == scope) s.operations) refl p

  reserve-kept :
      (fresh : String) (bundle : Fields) (scope fingerprint : String)
      (consume : Option (D → Bool × D)) (s : Database D)
      → P s
      → P (reserve libraries fresh bundle scope fingerprint consume s).1
  unfolding reserve
  reserve-kept fresh bundle scope fingerprint consume s p =
      reserve_authorized-kept fresh bundle scope fingerprint consume s (authorization_of bundle) p

  take_receipt-Gives :
      (fresh id tenant : String) (o : Operation) (receipt : Option Fields) (s : Database D)
      → find_operation id tenant s.operations ≡ some o
      → P s
      → Gives (λ r. P r.1) (take_receipt libraries fresh id o.bundle receipt s)
  unfolding take_receipt
  take_receipt-Gives fresh id tenant o none s found p = p
  take_receipt-Gives fresh id tenant o (some receipt) s found p =
      Gives-then (λ r. P r.1) (conflicts (get_or_null "receipt" o.bundle) (dict receipt)) _
        λ conflict e.
          Gives-if (λ r. P r.1) conflict _ _
            (λ _.
              Gives-bind P (λ r. P r.1) _ _
                (append-Gives fresh (str id) (phase_event "receipt_conflict") s p) (λ s1 p1. p1))
            (λ no.
              Gives-then (λ r. P r.1)
                (canonical libraries.digests (dict (put "receipt" (dict receipt) o.bundle))) _
                (λ text _. k.of_receipt s id tenant o receipt found (e ∙ ap ok no) p))

  found_then :
      (fresh other id tenant : String) (event : Fields) (receipt : Option Fields) (s : Database D)
      (found : Option Operation)
      → find_operation id tenant s.operations ≡ found
      → P s
      → Gives
          (λ r. P r.1)
          (elim found as (λ _. Outcome (Bool × Database D)) [
            | none ↦ raise (value_error "OPERATION_NOT_FOUND")
            | some o ↦ take_receipt libraries fresh id o.bundle receipt s >>= λ (conflict, s1).
                append libraries other (str id) event s1 >>= λ s2. ok (conflict, s2)
          ])
  found_then fresh other id tenant event receipt s none e p = tt
  found_then fresh other id tenant event receipt s (some o) e p =
      Gives-bind (λ r. P r.1) (λ r. P r.1) _ _ (take_receipt-Gives fresh id tenant o receipt s e p)
        λ (conflict, s1) p1.
          Gives-bind P (λ r. P r.1) _ _ (append-Gives other (str id) event s1 p1) λ s2 p2. p2

  refuse_conflict-kept : (r : Outcome Bool × Database D) → P r.1 → P (refuse_conflict libraries r).1
  refuse_conflict-kept (raise e, s) p = p
  refuse_conflict-kept (ok true, s) p = p
  refuse_conflict-kept (ok false, s) p = p

  record_event-kept :
      (fresh other id tenant : String) (event : Fields) (receipt : Option Fields) (s : Database D)
      → P s
      → P (record_event libraries fresh other id tenant event receipt s).1
  unfolding record_event record_in
  record_event-kept fresh other id tenant event receipt s p = refuse_conflict-kept _ (
      commit-kept _ s p (
        found_then fresh other id tenant event receipt s (find_operation id tenant s.operations)
          refl p))

  observe-Gives :
      (fresh id : String) (document : Value) (parsed : Observation) (bundle : Fields)
      (s : Database D)
      → P s
      → Gives P (observe libraries fresh id document parsed bundle s)
  unfolding observe insert_observation
  observe-Gives fresh id document parsed bundle s p =
      Gives-then P (digest libraries.digests "checked_bundle" (dict bundle) "") _ λ bound _.
        Gives-if P (not (bound == parsed.evidence_digest)) _ _ (λ _. tt)
          λ _.
            Gives-if P (has_conflict id s.events) _ _ (λ _. tt)
              λ _.
                Gives-if P (leb 256 (length (observations_of id s.observations))) _ _ (λ _. tt)
                  λ room.
                    Gives-if P
                      (not
                        (parsed.previous_digest == last_hash (observations_of id s.observations)))
                      _ _ (λ _. tt)
                      λ _. Gives-then P (libraries.observation_digest document) _ λ hash _.
                        Gives-then P (canonical libraries.digests document) _ λ text _.
                          Gives-if P (any (λ row. row.observation_hash == hash) s.observations) _ _
                            (λ _. tt)
                            λ _. append-Gives fresh (str id) (recorded_check hash parsed) _ (
                              k.of_observation s
                                (record {
                                  observed_operation = id;
                                  observation_hash = hash;
                                  document = document;
                                })
                                (ground arith) p)

  observed_then :
      (fresh id tenant : String) (document : Value) (parsed : Observation) (s : Database D)
      (found : Option Operation)
      → P s
      → P
          (elim found as (λ _. Outcome (Unit {0}) × Database D) [
            | none ↦ (raise (value_error "OPERATION_NOT_FOUND"), s)
            | some o ↦
                commit
                  (observe libraries fresh id document parsed o.bundle s >>= λ s1. ok (tt, s1))
                  s
          ]).1
  observed_then fresh id tenant document parsed s none p = p
  observed_then fresh id tenant document parsed s (some o) p = commit-kept _ s p (
      Gives-bind P (λ r. P r.1) _ _ (observe-Gives fresh id document parsed o.bundle s p)
        λ s1 p1. p1)

  append_observation-kept :
      (fresh id tenant : String) (document : Value) (s : Database D)
      → P s
      → P (append_observation libraries fresh id tenant document s).1
  unfolding append_observation
  append_observation-kept fresh id tenant document s p =
      elim (Outcome-cases (libraries.parse_observation document)) [
        | inl (parsed, e) ↦
            rw (e, append_observation)
              (observed_then fresh id tenant document parsed s
                (find_operation id tenant s.operations) p)
        | inr (x, e) ↦ rw (e, append_observation) p
      ]

  flush-kept : (emit : Fields → Outcome (Unit {0})) (s : Database D) → P s → P (flush emit s).1
  unfolding flush
  flush-kept emit s p = elim (Outcome-cases (emit_all emit (undelivered 1000 s.events))) [
    | inl (u, e) ↦ rw (e, flush) (k.of_delivery s 1000 p)
    | inr (x, e) ↦ rw (e, flush) p
  ]

  perform-kept : (call : Call D) (s : Database D) → P s → P (perform libraries call s)
  unfolding perform
  perform-kept (reservation fresh bundle scope fingerprint consume) s p =
      reserve-kept fresh bundle scope fingerprint consume s p
  perform-kept (recording fresh other id tenant event receipt) s p =
      record_event-kept fresh other id tenant event receipt s p
  perform-kept (observation fresh id tenant document) s p =
      append_observation-kept fresh id tenant document s p
  perform-kept (flushing emit) s p = flush-kept emit s p

  -- A property that the writes keep holds after any calls.
  pub perform_all-kept :
      (calls : List (Call D)) (s : Database D) → P s → P (perform_all libraries calls s)
  perform_all-kept [] s p = p
  perform_all-kept (call ∷ calls) s p = perform_all-kept calls _ (perform-kept call s p)
