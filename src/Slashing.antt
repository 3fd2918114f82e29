-- ===== src/Slashing.antt =====
-- Slashing, src/slashing.rs: evidence of equivocation and how it is punished, and the way out of a
-- downtime jail. The `println!` lines are left out.
pub mod Burn
pub mod Report
pub mod Once
pub mod Unjail
use inazuma_core.Base.{
  ℕ, is_some, ◌+◌, ◌-◌, ◌*◌, ◌/◌, min, max, Bool, true, false, not, ◌&&◌, ◌||◌, Option, none, some,
  List, [], ◌∷◌, length, ltb, leb, ◌==◌, if◌then◌else◌, retain, u128_add, u128_sub, u128_mul,
  u128_saturating_mul, Result, ok, err,
}
use inazuma_core.Platform.{Platform}
use inazuma_core.Records.{
  Vote, HeaderProof, Evidence, Offence, SlashRecord, block, vote, double_sign, double_vote,
}
use inazuma_core.State.{Store, account, set_account, total_staked, slash, put_slash, unwrap_or}
use inazuma_core.Types.{
  Account, Unbond, Penalties, unbonding_total, downtime_jail_enabled, equivocation_min_burn_pct,
  equivocation_correlation_factor, evidence_max_age_blocks, reporter_bounty_pct, tombstone_height,
}

pub data SlashError : Type 0 where
  heights_differ at_genesis same_hash different_signers bad_signature bad_pubkey : SlashError
  address_mismatch no_evidence from_the_future too_old already_slashed : SlashError
  already_tombstoned nothing_to_slash not_jailed fault_jail still_jailed : SlashError

unfoldable pub equivocation_burn_pct : ℕ → ℕ → ℕ
equivocation_burn_pct offender_stake total_stake =
    if total_stake == 0
    then equivocation_min_burn_pct
    else (let share_pct = u128_saturating_mul offender_stake 100 / total_stake in
        let correlated = u128_saturating_mul share_pct equivocation_correlation_factor in
        min (max correlated equivocation_min_burn_pct) 100)

abbrev pub reject_if : {A : Type 0} → Bool → SlashError → Result SlashError A → Result SlashError A
reject_if b e rest = if b then err e else rest

unfoldable pub label : Evidence → Offence
label (block a b) = double_sign
label (vote a b) = double_vote

unfoldable pub evidence_height : Evidence → ℕ
evidence_height (block a b) = a.height
evidence_height (vote a b) = a.height

-- The loop over `acct.unbonding.iter_mut()`: the entries after their cuts, and the total burned.
unfoldable pub cut_unbonding : ℕ → ℕ → List Unbond → List Unbond × ℕ
cut_unbonding pct burned [] = ([], burned)
cut_unbonding pct burned (u ∷ us) =
    let cut = u128_mul u.amount pct / 100 in
    let (rest, total) = cut_unbonding pct (u128_add burned cut) us in
    (record u { amount = u128_sub u.amount cut } ∷ rest, total)

-- The offender's account after the burn, and what was taken from it.
unfoldable pub slash_account : ℕ → Account → Account × ℕ
unfolding cut_unbonding
slash_account pct a =
    let burned = u128_mul a.staked pct / 100 in
    let (cut, total) = cut_unbonding pct burned a.unbonding in
    (
      record a {
        staked = u128_sub a.staked burned;
        unbonding = retain (λ u. ltb 0 u.amount) cut;
        penalties = record a.penalties {
          tombstoned = true;
          jailed_until = tombstone_height;
          jail_fault = true;
          slashed = u128_add a.penalties.slashed total;
        };
      },
      total,
    )

module _ (env : Platform) where
  -- `Vote::voter` and `Vote::verify_signature` (src/consensus.rs)
  unfoldable pub voter : Vote → Option ℕ
  voter v = elim (env.hex_decode v.voter_pubkey) [
    | none ↦ none
    | some raw ↦ if length raw == 32 then some (env.address_from_pubkey raw) else none
  ]

  unfoldable pub verify_vote : Vote → Bool
  verify_vote v =
      env.delimiter_free v.hash
      && env.delimiter_free v.voter_pubkey
      && env.sig_verify v.voter_pubkey (env.vote_bytes v.height v.hash) v.signature

  -- `HeaderProof::is_authentic`, which is `Block::verify_producer` of the rebuilt block
  unfoldable pub is_authentic : HeaderProof → Bool
  is_authentic h =
      let text =
        env.header_bytes h.height h.parent_hash h.timestamp_ms h.state_root h.txs_root h.producer
          h.producer_pubkey in
      elim (env.hex_decode h.producer_pubkey) [
        | none ↦ false
        | some raw ↦
            length raw == 32
            && env.address_from_pubkey raw == h.producer
            && h.hash == env.header_hash text h.signature
            && env.sig_verify h.producer_pubkey text h.signature
      ]

  unfoldable pub evidence_id : Evidence → ℕ
  unfolding label evidence_height voter
  evidence_id (block a b) =
      env.slash_key double_sign a.height a.producer (min a.hash b.hash) (max a.hash b.hash)
  evidence_id (vote a b) =
      env.slash_key double_vote a.height (unwrap_or (voter a) env.empty_text) (min a.hash b.hash)
        (max a.hash b.hash)

  -- The end of `Evidence::verify` for votes, once the voter is known.
  unfoldable pub verify_key : Vote → ℕ → Result SlashError ℕ
  verify_key a v = elim (env.hex_decode a.voter_pubkey) [
    | none ↦ err bad_pubkey
    | some raw ↦ reject_if (not (length raw == 32)) bad_pubkey (
        reject_if (not (env.address_from_pubkey raw == v)) address_mismatch (
          reject_if
            (not (env.sig_verify a.voter_pubkey (env.vote_bytes a.height a.hash) a.signature))
            bad_signature (ok v)))
  ]

  unfoldable pub verify_evidence : Evidence → Result SlashError ℕ
  unfolding voter verify_vote is_authentic verify_key
  verify_evidence (block a b) = reject_if (not (a.height == b.height)) heights_differ (
      reject_if (a.height == 0) at_genesis (
        reject_if (a.hash == b.hash) same_hash (
          reject_if (not (a.producer == b.producer) || not (a.producer_pubkey == b.producer_pubkey))
            different_signers
            (reject_if (not (is_authentic a) || not (is_authentic b)) bad_signature
              (ok a.producer)))))
  verify_evidence (vote a b) = reject_if (not (a.height == b.height)) heights_differ (
      reject_if (a.height == 0) at_genesis (
        reject_if (a.hash == b.hash) same_hash (
          reject_if (not (a.voter_pubkey == b.voter_pubkey)) different_signers (
            reject_if (not (verify_vote a) || not (verify_vote b)) bad_signature
              (elim (voter a) [ none ↦ err bad_pubkey | some v ↦ verify_key a v ])))))

  -- `check_report`, after the payload's `args` were decoded.
  unfoldable pub check_evidence : Store env → ℕ → Evidence → Result SlashError Evidence
  unfolding evidence_height
  check_evidence s height evidence = elim (verify_evidence evidence) [
    | err e ↦ err e
    | ok offender ↦
        let a = account env s offender in
        reject_if (ltb height (evidence_height evidence)) from_the_future (
          reject_if (ltb evidence_max_age_blocks (height - evidence_height evidence)) too_old (
            reject_if (is_some (slash env s (evidence_id evidence))) already_slashed (
              reject_if a.penalties.tombstoned already_tombstoned (
                reject_if (a.staked == 0 && unbonding_total a == 0) nothing_to_slash
                  (ok evidence)))))
  ]

  unfoldable pub check_report : Store env → ℕ → ℕ → Result SlashError Evidence
  unfolding check_evidence
  check_report s height args = elim (env.decode_evidence args) [
    | none ↦ err no_evidence
    | some evidence ↦ check_evidence s height evidence
  ]

  -- The reporter's cut, out of what was confiscated: the store after it is paid, and its amount.
  unfoldable pub pay_bounty : Store env → ℕ → ℕ → ℕ → Store env × ℕ
  pay_bounty s reporter offender burned =
      let bounty = u128_mul burned reporter_bounty_pct / 100 in
      if ltb 0 bounty && not (reporter == offender)
      then (
        (let r = account env s reporter in
            set_account env s reporter (record r { balance = u128_add r.balance bounty })),
        bounty,
      )
      else (s, 0)

  -- The part of `apply_report` that writes, for a known offender.
  unfoldable pub punish : Store env → ℕ → ℕ → Evidence → ℕ → SlashRecord × Store env
  unfolding label evidence_height slash_account pay_bounty
  punish s height reporter evidence offender =
      let a = account env s offender in
      let pct = equivocation_burn_pct a.staked (total_staked env s) in
      let (slashed, taken) = slash_account pct a in
      let (s', bounty) = pay_bounty (set_account env s offender slashed) reporter offender taken in
      let r : SlashRecord = record {
        id = evidence_id evidence;
        offence = label evidence;
        offender = offender;
        offence_height = evidence_height evidence;
        applied_height = height;
        burned = u128_sub taken bounty;
        bounty = bounty;
        reporter = reporter;
        tombstoned = true;
        jailed_until = tombstone_height;
      } in
      (r, put_slash env s' r)

  abbrev pub Reported : Type 0
  Reported = Result SlashError SlashRecord × Store env

  unfoldable pub apply_report : Store env → ℕ → ℕ → Evidence → Reported
  apply_report s height reporter evidence = elim (verify_evidence evidence) [
    | err e ↦ (err e, s)
    | ok offender ↦
        if is_some (slash env s (evidence_id evidence))
        then (err already_slashed, s)
        else (if (account env s offender).penalties.tombstoned
            then (err already_tombstoned, s)
            else (let (r, s') = punish s height reporter evidence offender in (ok r, s')))
  ]

  -- The account with its downtime jail lifted.
  abbrev pub released : Account → Account
  released a = record a { penalties = record a.penalties { jailed_until = 0; missed_streak = 0 } }

  unfoldable pub apply_unjail : Store env → ℕ → ℕ → Result SlashError (Unit {0}) × Store env
  unfolding downtime_jail_enabled
  apply_unjail s height address =
      let a = account env s address in
      let free = set_account env s address (released a) in
      if a.penalties.tombstoned
      then (err already_tombstoned, s)
      else (if a.penalties.jailed_until == 0
          then (err not_jailed, s)
          else (if a.penalties.jail_fault
              then (err fault_jail, s)
              else (if ltb height a.penalties.jailed_until
                  then (if not (downtime_jail_enabled height)
                      then (ok tt, free)
                      else (err still_jailed, s))
                  else (ok tt, free))))
