-- ===== src/Slashing/Once.antt =====
-- `check_report` and repeated calls of `apply_report` in src/slashing.rs.
use inazuma_core.Base.{
  ℕ, ◌⊎◌, ◌≡◌, refl, ◌∙◌, is_some, true, false, arith, ok, err, Result-cases, inl, inr, ◌*◌, ◌<◌,
  u128_mod,
}
use mathlib.Core.Path.{subst}
use inazuma_core.Platform.{Platform}
use inazuma_core.Records.{Evidence, SlashRecord}
use inazuma_core.Types.{Account, is_active_validator}
use inazuma_core.State.{Store, account, slash}
use inazuma_core.State.Supply.{supply}
use inazuma_core.Slashing.{
  already_slashed, already_tombstoned, verify_evidence, check_evidence, punish, Reported,
  apply_report, evidence_id,
}
use inazuma_core.Slashing.Report.{ReportOutcome, Convicts, apply_report_lem}

-- No height makes a tombstoned account electable again.
pub tombstoned_inactive :
    (height : ℕ) (a : Account)
    → a.penalties.tombstoned ≡ true
    → is_active_validator height a ≡ false
unfolding is_active_validator
tombstoned_inactive height a h = ground arith

module _ (env : Platform) where
  -- Evidence with a slash record on the books.
  known_evidence :
      (t : Store env) (height reporter offender : ℕ) (evidence : Evidence)
      → verify_evidence env evidence ≡ ok offender
      → is_some (slash env t (evidence_id env evidence)) ≡ true
      → apply_report env t height reporter evidence ≡ (err already_slashed, t)
  unfolding apply_report
  known_evidence t height reporter offender evidence e h = rw (apply_report, e, h) refl

  -- A signer with a tombstone.
  known_offender :
      (t : Store env) (height reporter offender : ℕ) (evidence : Evidence)
      → verify_evidence env evidence ≡ ok offender
      → (account env t offender).penalties.tombstoned ≡ true
      → ((apply_report env t height reporter evidence).1 ≡ t)
        × (((apply_report env t height reporter evidence).0 ≡ err already_slashed)
            ⊎ ((apply_report env t height reporter evidence).0 ≡ err already_tombstoned))
  unfolding apply_report
  known_offender t height reporter offender evidence e h = ground (arith, e, h)

module _ (env : Platform) (s : Store env) (height reporter : ℕ) (evidence : Evidence) where
  -- Evidence that `check_report` admits for a store is always punished when it is applied to that store.
  pub check_evidence-apply_report :
      check_evidence env s height evidence ≡ ok evidence
      → (r : SlashRecord) × ((apply_report env s height reporter evidence).0 ≡ ok r)
  unfolding check_evidence apply_report
  check_evidence-apply_report h = elim (Result-cases (verify_evidence env evidence)) [
    | inl (offender, e) ↦ ((punish env s height reporter evidence offender).0, ground (arith, e, h))
    | inr (x, e) ↦ absurd (ground (arith, e, h))
  ]

  -- Where a hundred times the supply fits a word, evidence that was punished is never punished again, on
  -- any store that still has the slash record and the signer's tombstone, whoever reports it and at
  -- whatever height: the report fails for the slash record and writes nothing. Other evidence that
  -- convicts the same signer is not punished either, and writes nothing.
  pub apply_report_once :
      (r : SlashRecord) (s' t : Store env) (height' reporter' : ℕ) (evidence' : Evidence)
      → supply env s * 100 < u128_mod
      → apply_report env s height reporter evidence ≡ (ok r, s')
      → slash env t (evidence_id env evidence) ≡ slash env s' (evidence_id env evidence)
      → (account env t r.offender).penalties.tombstoned
        ≡ (account env s' r.offender).penalties.tombstoned
      → verify_evidence env evidence' ≡ ok r.offender
      → (apply_report env t height' reporter' evidence ≡ (err already_slashed, t))
        × ((apply_report env t height' reporter' evidence').1 ≡ t)
        × (((apply_report env t height' reporter' evidence').0 ≡ err already_slashed)
            ⊎ ((apply_report env t height' reporter' evidence').0 ≡ err already_tombstoned))
  apply_report_once r s' t height' reporter' evidence' fits h kept tomb names =
      let both = apply_report_lem env s height reporter evidence fits in
      let (lost, convicts) =
        subst (λ (x : Reported env). ReportOutcome env s x × Convicts env s reporter evidence x) h
          both in
      let (still, why) =
        known_offender env t height' reporter' r.offender evidence' names (tomb ∙ lost.2) in
      (
        known_evidence env t height' reporter' r.offender evidence convicts.0
            (rw (kept, convicts.2) refl),
        still,
        why,
      )
