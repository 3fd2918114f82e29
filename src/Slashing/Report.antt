-- ===== src/Slashing/Report.antt =====
-- `apply_report` of src/slashing.rs against the supply.
use inazuma_core.Base.{
  ℕ, ◌+◌, ◌-◌, ◌*◌, ◌/◌, ◌≤◌, ◌<◌, ◌≡◌, refl, ◌⊎◌, some, lookup-insert, u128_mul, u128_add, true,
  arith, u128_mod, u128_sub, u128_add-eq, u128_sub-eq, u128_mul-eq, ok, err, Result-cases, inl, inr,
}
use inazuma_core.Platform.{Platform}
use inazuma_core.Records.{Evidence, SlashRecord}
use inazuma_core.Types.{Account}
use inazuma_core.State.{Store, account, set_account, total_staked, put_slash, slash}
use inazuma_core.State.Accounts.{account-set_account}
use inazuma_core.State.Supply.{worth, supply, supply-set_account, worth-le-supply}
use inazuma_core.Slashing.{
  slash_account, equivocation_burn_pct, verify_evidence, pay_bounty, punish, Reported, apply_report,
  evidence_id,
}
use inazuma_core.Slashing.Burn.{
  equivocation_burn_pct_bounds, worth-slash_account, slash_account-takes,
}

module _ (env : Platform) where
  -- The bounty is a part of what was burned, and it is added to the supply.
  pay_bounty_lem :
      (s : Store env) (reporter offender burned : ℕ)
      → (supply env s + burned) * 100 < u128_mod
      → let (s', bounty) = pay_bounty env s reporter offender burned in
        (supply env s' ≡ supply env s + bounty)
        × (bounty ≤ burned)
        × (account env s' offender ≡ account env s offender)
  unfolding pay_bounty
  pay_bounty_lem s reporter offender burned fits =
      let r = account env s reporter in
      let bounty = burned * 10 / 100 in
      let paid = record r { balance = r.balance + bounty } in
      ground (
        arith,
        u128_mul-eq burned 10 (omega arith),
        u128_add-eq r.balance bounty,
        worth-le-supply env s reporter,
        supply-set_account env s reporter paid,
        account-set_account env s reporter offender paid,
      )

  supply-put_slash :
      (s : Store env) (r : SlashRecord) → supply env (put_slash env s r) ≡ supply env s
  unfolding supply put_slash
  supply-put_slash s r = refl

  account-put_slash :
      (s : Store env) (r : SlashRecord) (a : ℕ)
      → account env (put_slash env s r) a ≡ account env s a
  unfolding account put_slash
  account-put_slash s r a = refl

  -- How a report ends. A slash takes what it burned out of the supply and no more, takes at least a
  -- twentieth of the bonded stake, burned or paid as the bounty, and leaves the offender
  -- tombstoned; a failed report writes nothing.
  abbrev pub ReportOutcome : Store env → Reported env → Type 0
  ReportOutcome s (ok r, s') =
      (supply env s' + r.burned ≡ supply env s)
      × ((account env s r.offender).staked * 5 / 100 ≤ r.burned + r.bounty)
      × ((account env s' r.offender).penalties.tombstoned ≡ true)
  ReportOutcome s (err e, s') = s' ≡ s

  slash_account-tombstoned :
      (pct : ℕ) (a : Account) → (slash_account pct a).0.penalties.tombstoned ≡ true
  unfolding slash_account
  slash_account-tombstoned pct a = refl

  pub punish_lem :
      (s : Store env) (height reporter : ℕ) (evidence : Evidence) (offender : ℕ)
      → supply env s * 100 < u128_mod
      → let (r, s') = punish env s height reporter evidence offender in
        (r.offender ≡ offender) × ReportOutcome s (ok r, s')
  unfolding punish
  punish_lem s height reporter evidence offender fits =
      let a = account env s offender in
      let pct = equivocation_burn_pct a.staked (total_staked env s) in
      let bounds = equivocation_burn_pct_bounds a.staked (total_staked env s) in
      let small : worth a * 100 < u128_mod = omega (arith, worth-le-supply env s offender) in
      let slashed = (slash_account pct a).0 in
      let taken = (slash_account pct a).1 in
      let s₁ = set_account env s offender slashed in
      let split : worth slashed + taken ≡ worth a = worth-slash_account pct a bounds.1 small in
      let moved : supply env s₁ + taken ≡ supply env s =
        omega (arith, split, supply-set_account env s offender slashed) in
      let paid = pay_bounty_lem s₁ reporter offender taken (omega (arith, moved)) in
      let net : u128_sub taken (pay_bounty env s₁ reporter offender taken).1
          ≡ taken - (pay_bounty env s₁ reporter offender taken).1 =
        u128_sub-eq _ _ paid.1 (omega (arith, moved)) in
      let enough = slash_account-takes pct a bounds.0 bounds.1 small in
      (
        refl,
        (
          rw (supply-put_slash, net) (omega (arith, paid, moved)),
          rw net (omega (arith, paid, enough)),
          rw (account-put_slash, paid.2, account-set_account)
              (ground (arith, slash_account-tombstoned pct a)),
        ),
      )

  -- A slash, beside that, is of the signer whom the evidence convicts: the record names it, the
  -- reporter and the evidence, it is stored, and no account but those two changes.
  abbrev pub Convicts : Store env → ℕ → Evidence → Reported env → Type 0
  Convicts s reporter evidence (ok r, s') =
      (verify_evidence env evidence ≡ ok r.offender)
      × (r.reporter ≡ reporter)
      × (slash env s' (evidence_id env evidence) ≡ some r)
      × ((b : ℕ) → (account env s' b ≡ account env s b) ⊎ (b ≡ r.offender) ⊎ (b ≡ reporter))
  Convicts s reporter evidence (err e, s') = s' ≡ s

  slash-put_slash : (s : Store env) (r : SlashRecord) → slash env (put_slash env s r) r.id ≡ some r
  unfolding slash put_slash
  slash-put_slash s r = ground (
    arith,
    env.get-iter SlashRecord (env.tree_insert SlashRecord s.slashes r.id r) r.id,
    env.iter-insert SlashRecord s.slashes r.id r,
    lookup-insert r.id r.id r (env.iter SlashRecord s.slashes),
  )

  account-pay_bounty :
      (s : Store env) (reporter offender burned b : ℕ)
      → (account env (pay_bounty env s reporter offender burned).0 b ≡ account env s b)
        ⊎ (b ≡ reporter)
  unfolding pay_bounty
  account-pay_bounty s reporter offender burned b =
      let r = account env s reporter in
      let bounty = u128_mul burned 10 / 100 in
      ground (
        arith,
        account-set_account env s reporter b (record r { balance = u128_add r.balance bounty }),
      )

  punish-Convicts :
      (s : Store env) (height reporter : ℕ) (evidence : Evidence) (offender : ℕ)
      → verify_evidence env evidence ≡ ok offender
      → let (r, s') = punish env s height reporter evidence offender in
        Convicts s reporter evidence (ok r, s')
  unfolding punish
  punish-Convicts s height reporter evidence offender e =
      let a = account env s offender in
      let pct = equivocation_burn_pct a.staked (total_staked env s) in
      let slashed = (slash_account pct a).0 in
      let s₁ = set_account env s offender slashed in
      let s₂ = (pay_bounty env s₁ reporter offender (slash_account pct a).1).0 in
      let r = (punish env s height reporter evidence offender).0 in
      (
        e,
        refl,
        slash-put_slash s₂ r,
        λ (b : ℕ). ground (
          arith,
          account-put_slash s₂ r b,
          account-pay_bounty s₁ reporter offender (slash_account pct a).1 b,
          account-set_account env s offender b slashed,
        ),
      )

  -- Where a hundred times the supply fits a 128-bit word, a report either fails and writes nothing, or
  -- it slashes the signer whom the evidence convicts: exactly the burned coins leave the supply, the
  -- bounty does not, at least a twentieth of the signer's bonded stake is burned or paid as the bounty,
  -- the signer is tombstoned, the record is stored under the evidence, and no account but the signer's
  -- and the reporter's changes.
  pub apply_report_lem :
      (s : Store env) (height reporter : ℕ) (evidence : Evidence)
      → supply env s * 100 < u128_mod
      → ReportOutcome s (apply_report env s height reporter evidence)
        × Convicts s reporter evidence (apply_report env s height reporter evidence)
  unfolding apply_report
  apply_report_lem s height reporter evidence fits =
      elim (Result-cases (verify_evidence env evidence)) [
        | inl (offender, e) ↦ ground (
          arith,
          e,
          punish_lem s height reporter evidence offender fits,
          punish-Convicts s height reporter evidence offender e,
        )
        | inr (x, e) ↦ ground (arith, e)
      ]
