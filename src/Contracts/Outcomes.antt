-- ===== src/Contracts/Outcomes.antt =====
-- What a run of a contract in src/contracts.rs hands to the chain.
use inazuma_core.Base.{
  ℕ, zero, suc, ◌≤◌, ◌≡◌, Bool, true, false, Option, none, some, List, [], ◌∷◌, Dict, lookup,
  length, arith, Option-cases, Result-cases, inl, inr,
}
use inazuma_core.Platform.{Platform}
use inazuma_core.State.{Store, account}
use inazuma_core.Guest.{RunError, Outcome, Ending, exited, trapped, no_invoke}
use inazuma_core.Externals.{Externals}
use inazuma_core.Contracts.Host.{
  Host, run, collect_writes, failed, outcome_of, new_host, execute, max_writes, max_transfers,
  max_logs, max_return_bytes,
}
use inazuma_core.Contracts.Within.{sent, AllValid, Within, run-Within}

module _ (env : Platform) where
  -- An outcome of a contract with the balance.
  unfoldable pub IsContained : ℕ → Outcome → Type 0
  IsContained balance o =
      (length o.writes ≤ max_writes)
      × (length o.transfers ≤ max_transfers)
      × (length o.logs ≤ max_logs)
      × (length o.ret ≤ max_return_bytes)
      × (sent o.transfers ≤ balance)
      × AllValid env o.transfers
      × (o.is_ok ≡ false → (o.writes ≡ []) × (o.transfers ≡ []))

  module _ (ext : Externals env) where
    collect_writes-length :
        (overlay : Dict (Option (List ℕ))) (order : List ℕ)
        → length (collect_writes env ext overlay order) ≤ length order
    unfolding collect_writes
    collect_writes-length overlay [] = omega arith
    collect_writes-length overlay (k ∷ ks) = elim (Option-cases (lookup k overlay)) [
      | inl e ↦ ground (arith, e, collect_writes-length overlay ks)
      | inr (none, e) ↦ ground (arith, e, collect_writes-length overlay ks)
      | inr (some bytes, e) ↦ ground (arith, e, collect_writes-length overlay ks)
    ]

    failed-IsContained :
        (balance : ℕ) (e : RunError) (fuel : ℕ) → IsContained balance (failed env ext e fuel)
    unfolding failed IsContained AllValid
    failed-IsContained balance e fuel = ground arith

    outcome_of-IsContained :
        (balance : ℕ) (begun : Bool) (fuel : ℕ) (e : Ending) (h : Host)
        → Within env balance h
        → IsContained balance (
            outcome_of env ext
              (record { is_started = begun; fuel_used = fuel; ending = e; host = h }))
    unfolding outcome_of failed IsContained Within AllValid
    outcome_of-IsContained balance false fuel e h w =
        failed-IsContained balance RunError.instantiate_failed fuel
    outcome_of-IsContained balance true fuel no_invoke h w =
        failed-IsContained balance RunError.no_entry 0
    outcome_of-IsContained balance true fuel (exited zero) h w =
        ground (arith, w, collect_writes-length h.overlay h.order)
    outcome_of-IsContained balance true fuel (exited (suc c)) h w = ground (arith, w)
    outcome_of-IsContained balance true fuel (trapped e) h w = ground (arith, w)

    new_host-Within :
        (s : Store env) (contract caller : ℕ) (input : List ℕ) (value height : ℕ)
        → Within env
            (account env s contract).balance
            (new_host env ext s contract caller input value height)
    unfolding new_host Within AllValid
    new_host-Within s contract caller input value height = ground arith

    -- Whatever a contract's program does, the outcome of a call has at most 512 writes, 32 transfers
    -- and 64 logs and returns at most 8 KiB, its transfers go to valid addresses and send in sum no
    -- more than the contract's balance, and where the call fails there are no writes and no transfers.
    pub execute-IsContained :
        (s : Store env) (contract caller : ℕ) (code input : List ℕ) (value height fuel : ℕ)
        → IsContained
            (account env s contract).balance
            (execute env ext s contract caller code input value height fuel)
    unfolding execute
    execute-IsContained s contract caller code input value height fuel =
        let balance = (account env s contract).balance in
        elim (Result-cases (ext.wasm_run code fuel)) [
          | inr (x, e) ↦ rw (execute, e) (failed-IsContained balance (RunError.invalid_wasm x) 0)
          | inl (guest, e) ↦
              let h = new_host env ext s contract caller input value height in
              let r = run env ext s false h guest in
              rw (execute, e)
                (outcome_of-IsContained balance r.is_started r.fuel_used r.ending r.host (
                  run-Within env ext balance s false h guest
                    (new_host-Within s contract caller input value height)))
        ]
