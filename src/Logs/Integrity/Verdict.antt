-- ===== src/Logs/Integrity/Verdict.antt =====
-- What a verification without failures means.
use intrusion_detection_syst.Prelude.{
  String, ◌≡◌, refl, sym, ◌∙◌, true, Option, none, some, List, [], ◌∷◌, ◌++◌, map, ◌↔◌, nat_eq,
  string_eq, arith, nat_beq_iff,
}
use intrusion_detection_syst.Prelude.Lists.{length, All, get_last?}
use intrusion_detection_syst.Logs.Integrity.Chain.{Checkpoint, Log, Digests, genesis}
use intrusion_detection_syst.Logs.Integrity.Seal.{last_checkpoint, chain_of}
use intrusion_detection_syst.Logs.Integrity.Verify.{
  VerifyResult, fingerprints, distinct, recompute, id_of, check_segment, check_seed, check_all,
  finish_verify, fresh_result, verify_audit_log,
}

-- A segment as it was sealed: as many fingerprints, of distinct ids, and the same chain hash.
pub record IsIntact (d : Digests) (log : Log) (cp : Checkpoint) : Type 0 where
  pub counted : length (fingerprints d log cp) ≡ cp.row_count
  pub distinct_ids : distinct (map id_of (fingerprints d log cp)) ≡ true
  pub same_hash : recompute d log cp ≡ cp.chain_hash

-- Every segment is intact, and each seed is the chain hash before it.
abbrev pub Intact : Digests → Log → String → List Checkpoint → Type 0
Intact d log prev_chain [] = Unit
Intact d log prev_chain (cp ∷ cps) =
    (cp.prev_chain_hash ≡ prev_chain) × IsIntact d log cp × Intact d log cp.chain_hash cps

ok-check_seed :
    (prev_chain : String) (cp : Checkpoint) (r : VerifyResult)
    → ((check_seed prev_chain cp r).ok ≡ true) ↔ ((r.ok ≡ true) × (cp.prev_chain_hash ≡ prev_chain))
unfolding check_seed
ok-check_seed prev_chain cp r = (
  λ h. ground (arith, string_eq.test_iff cp.prev_chain_hash prev_chain),
  λ h. ground (arith, string_eq.test_iff cp.prev_chain_hash prev_chain),
)

ok-check_segment :
    (d : Digests) (log : Log) (cp : Checkpoint) (r : VerifyResult)
    → ((check_segment d log cp r).ok ≡ true) ↔ ((r.ok ≡ true) × IsIntact d log cp)
unfolding check_segment
ok-check_segment d log cp r = (
  λ h. ground (
    arith,
    nat_beq_iff (length (fingerprints d log cp)) cp.row_count,
    string_eq.test_iff (recompute d log cp) cp.chain_hash,
  ),
  λ h. ground (
    arith,
    nat_beq_iff (length (fingerprints d log cp)) cp.row_count,
    string_eq.test_iff (recompute d log cp) cp.chain_hash,
  ),
)

ok-check_all :
    (d : Digests) (log : Log) (prev_chain : String) (cps : List Checkpoint) (r : VerifyResult)
    → ((check_all d log prev_chain cps r).ok ≡ true) ↔ ((r.ok ≡ true) × Intact d log prev_chain cps)
unfolding check_all
ok-check_all d log prev_chain [] r = (λ h. (h, tt), λ h. h.0)
ok-check_all d log prev_chain (cp ∷ cps) r =
    let r1 = check_seed prev_chain cp r in
    let r2 = check_segment d log cp r1 in
    let seed = ok-check_seed prev_chain cp r in
    let segment = ok-check_segment d log cp r1 in
    let rest = ok-check_all d log cp.chain_hash cps r2 in
    (
      λ h.
          let a = rest.0 h in let b = segment.0 a.0 in let c = seed.0 b.0 in (c.0, (c.1, b.1, a.1)),
      λ h. rest.1 (segment.1 (seed.1 (h.0, h.1.0), h.1.1), h.1.2),
    )

ok-finish_verify :
    (log : Log) (last : Option Checkpoint) (r : VerifyResult) → (finish_verify log last r).ok ≡ r.ok
unfolding finish_verify
ok-finish_verify log none r = refl
ok-finish_verify log (some cp) r = refl

-- A verification reports no failure exactly if every checkpoint's seed is the chain hash of the one
-- before it, and every segment has the sealed number of fingerprints, of distinct ids, that fold to
-- the sealed hash.
pub verify_audit_log-ok_iff :
    (d : Digests) (log : Log)
    → ((verify_audit_log d log).ok ≡ true) ↔ Intact d log genesis log.audit_checkpoints
unfolding verify_audit_log
verify_audit_log-ok_iff d log =
    let checked = check_all d log genesis log.audit_checkpoints (fresh_result log) in
    let same = ok-finish_verify log (last_checkpoint log) checked in
    let exact = ok-check_all d log genesis log.audit_checkpoints (fresh_result log) in
    (λ h. (exact.0 (sym same ∙ h)).1, λ h. same ∙ exact.1 (refl, h))

-- Segments that stay intact one by one stay intact as a chain.
pub Intact-map :
    (d : Digests) (log log' : Log) (Q : Checkpoint → Type 0)
    → ((cp : Checkpoint) → Q cp → IsIntact d log cp → IsIntact d log' cp)
    → (prev_chain : String) (cps : List Checkpoint) → All Q cps
    → Intact d log prev_chain cps
    → Intact d log' prev_chain cps
Intact-map d log log' Q f prev_chain [] q h = tt
Intact-map d log log' Q f prev_chain (cp ∷ cps) q h =
    (h.0, f cp q.0 h.1, Intact-map d log log' Q f cp.chain_hash cps q.1 h.2)

abbrev pub chain_end : String → List Checkpoint → String
chain_end prev_chain [] = prev_chain
chain_end prev_chain (cp ∷ cps) = chain_end cp.chain_hash cps

pub Intact-append :
    (d : Digests) (log : Log) (prev_chain : String) (cps : List Checkpoint) (cp : Checkpoint)
    → Intact d log prev_chain cps
    → cp.prev_chain_hash ≡ chain_end prev_chain cps
    → IsIntact d log cp
    → Intact d log prev_chain (cps ++ cp ∷ [])
Intact-append d log prev_chain [] cp h e i = (e, i, tt)
Intact-append d log prev_chain (c ∷ cps) cp h e i =
    (h.0, h.1, Intact-append d log c.chain_hash cps cp h.2 e i)

pub chain_of-get_last? : (cps : List Checkpoint) → chain_of (get_last? cps) ≡ chain_end genesis cps
chain_of-get_last? [] = refl
chain_of-get_last? (cp ∷ []) = refl
chain_of-get_last? (cp ∷ c ∷ cps) = chain_of-get_last? (c ∷ cps)
