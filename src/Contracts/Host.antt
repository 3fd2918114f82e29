-- ===== src/Contracts/Host.antt =====
-- `execute` of src/contracts.rs and the functions that a contract calls in the host. Setting up the fuel
-- and linking the functions cannot fail and are left out.
use inazuma_core.Base.{
  ℕ, zero, suc, ◌+◌, ◌-◌, ◌*◌, ◌^◌, Bool, true, false, not, Option, none, some, List, [], ◌∷◌, ◌++◌,
  Dict, lookup, insert, length, take, ltb, leb, ◌==◌, if◌then◌else◌, Result, ok, err, is_some, min,
}
use inazuma_core.Platform.{Platform}
use inazuma_core.State.{Store, account}
use inazuma_core.Guest.{
  Signed, pos, negsuc, HostCall, Reply, Trap, Ending, Guest, RunError, Outcome, ask, started, ended,
  exited, trapped, no_memory, bad_length, out_of_bounds, bad_capacity, empty_key, too_many_writes,
  negative_amount, too_many_transfers, invalid_wasm, reverted, instantiate_failed, no_entry,
  in_trap, no_invoke,
}
use inazuma_core.Externals.{Externals}
use inazuma_core.Contracts.{contract_storage}

abbrev pub max_key_bytes : ℕ
max_key_bytes = 128

abbrev pub max_value_bytes : ℕ
max_value_bytes = 8 * 1024

abbrev pub max_writes : ℕ
max_writes = 512

abbrev pub max_transfers : ℕ
max_transfers = 32

abbrev pub max_logs : ℕ
max_logs = 64

abbrev pub max_return_bytes : ℕ
max_return_bytes = 8 * 1024

-- `Host`, whose store is an argument of the functions. `spendable` is what the contract may still send.
pub record Host : Type 0 where
  pub contract : ℕ
  pub caller : ℕ
  pub value : ℕ
  pub height : ℕ
  pub input : List ℕ
  pub overlay : Dict (Option (List ℕ))
  pub order : List ℕ
  pub logs : List ℕ
  pub ret : List ℕ
  pub transfers : List (ℕ × ℕ)
  pub spendable : ℕ

abbrev pub drop : ℕ → List ℕ → List ℕ
drop zero xs = xs
drop (suc n) [] = []
drop (suc n) (x ∷ xs) = drop n xs

-- `Memory::read` of `len` bytes; a negative pointer is beyond every memory.
unfoldable pub slice : Option (List ℕ) → Signed → ℕ → Result Trap (List ℕ)
slice none ptr len = err no_memory
slice (some mem) (negsuc p) len = err out_of_bounds
slice (some mem) (pos p) len =
    if ltb (length mem) (p + len) then err out_of_bounds else ok (take len (drop p mem))

unfoldable pub read_bytes : Option (List ℕ) → Signed → Signed → ℕ → Result Trap (List ℕ)
unfolding slice
read_bytes mem ptr (negsuc n) max = err bad_length
read_bytes mem ptr (pos n) max = if ltb max n then err bad_length else slice mem ptr n

-- `Memory::write`
unfoldable pub patch : Option (List ℕ) → Signed → List ℕ → Result Trap (List ℕ)
patch none ptr bytes = err no_memory
patch (some mem) (negsuc p) bytes = err out_of_bounds
patch (some mem) (pos p) bytes =
    if ltb (length mem) (p + length bytes)
    then err out_of_bounds
    else ok (take p mem ++ (bytes ++ drop (p + length bytes) mem))

-- A reply is the number of bytes there are, and nothing is written where the room is too small.
unfoldable pub write_out : Option (List ℕ) → Signed → Signed → List ℕ → Result Trap Reply
unfolding patch
write_out mem ptr (negsuc c) bytes = err bad_capacity
write_out mem ptr (pos room) bytes =
    if ltb room (length bytes)
    then ok (record { code = pos (length bytes); memory = mem })
    else elim (patch mem ptr bytes) [
      | err e ↦ err e
      | ok mem' ↦ ok (record { code = pos (length bytes); memory = some mem' })
    ]

-- `as i64` of an amount that was cut to its range, and of a height.
abbrev pub i64_max : ℕ
i64_max = 2 ^ 63 - 1

abbrev pub as_i64 : ℕ → Signed
as_i64 n = if leb n i64_max then pos n else negsuc (2 ^ 64 - 1 - n)

abbrev pub Stepped : Type 0
Stepped = Result Trap Reply × Host

-- A host function that writes to the memory and leaves the host alone.
abbrev pub shows : Host → Result Trap Reply → Stepped
shows h r = (r, h)

abbrev pub returns : Host → Option (List ℕ) → Signed → Stepped
returns h mem n = (ok (record { code = n; memory = mem }), h)

-- `?` on the bytes that a host function reads.
abbrev pub reading : Host → Result Trap (List ℕ) → (List ℕ → Stepped) → Stepped
reading h (err e) f = (err e, h)
reading h (ok bytes) f = f bytes

module _ (env : Platform) (ext : Externals env) where
  unfoldable pub read_key : Store env → Host → ℕ → Option (List ℕ)
  read_key s h key = elim (lookup key h.overlay) [
    | some v ↦ v
    | none ↦ elim (contract_storage env s h.contract key) [
      | none ↦ none
      | some v ↦ some (ext.value_bytes v)
    ]
  ]

  -- The end of `inz_write`: a key that is written first takes a place in the order, and an empty value
  -- clears it.
  unfoldable pub put_overlay : Host → Option (List ℕ) → ℕ → List ℕ → Stepped
  put_overlay h mem key bytes =
      let value : Option (List ℕ) = if length bytes == 0 then none else some bytes in
      if is_some (lookup key h.overlay)
      then returns (record h { overlay = insert key value h.overlay }) mem (pos 0)
      else (if leb max_writes (length h.order)
          then (err too_many_writes, h)
          else returns
              (record h { overlay = insert key value h.overlay; order = h.order ++ key ∷ [] }) mem
              (pos 0))

  unfoldable pub write_key : Host → Option (List ℕ) → Signed → Signed → Signed → Signed → Stepped
  unfolding put_overlay
  write_key h mem kptr klen vptr vlen = reading h (read_bytes mem kptr klen max_key_bytes) (λ bytes.
      let key = ext.from_utf8_lossy bytes in
      if env.is_empty key then (err empty_key, h) else elim vlen [
        | pos zero ↦ put_overlay h mem key []
        | len ↦ reading h (read_bytes mem vptr len max_value_bytes) (put_overlay h mem key)
      ])

  -- The end of `inz_transfer`.
  unfoldable pub queue_transfer : Host → Option (List ℕ) → ℕ → ℕ → Stepped
  queue_transfer h mem to amount =
      if not (env.is_valid_address to)
      then returns h mem (negsuc 0)
      else (if leb max_transfers (length h.transfers)
          then (err too_many_transfers, h)
          else (if ltb h.spendable amount
              then returns h mem (negsuc 1)
              else returns
                  (record h {
                    spendable = h.spendable - amount;
                    transfers = h.transfers ++ (to, amount) ∷ [];
                  })
                  mem (pos 0)))

  unfoldable pub push_log : Host → Option (List ℕ) → List ℕ → Stepped
  push_log h mem bytes =
      returns
        (if ltb (length h.logs) max_logs
          then record h { logs = h.logs ++ ext.from_utf8_lossy bytes ∷ [] }
          else h)
        mem (pos 0)

  -- One call of a host function, on the exported memory.
  unfoldable pub host_call : Store env → Host → Option (List ℕ) → HostCall → Stepped
  unfolding read_key write_key queue_transfer push_log write_out
  host_call s h mem call = elim call [
    | HostCall.inz_input_len ↦ returns h mem (pos (length h.input))
    | HostCall.inz_input ptr room ↦ shows h (write_out mem ptr room h.input)
    | HostCall.inz_return ptr len ↦
        reading h (read_bytes mem ptr len max_return_bytes)
          (λ bytes. returns (record h { ret = bytes }) mem (pos 0))
    | HostCall.inz_log ptr len ↦ reading h (read_bytes mem ptr len 1024) (push_log h mem)
    | HostCall.inz_caller ptr room ↦ shows h (write_out mem ptr room (ext.as_bytes h.caller))
    | HostCall.inz_self ptr room ↦ shows h (write_out mem ptr room (ext.as_bytes h.contract))
    | HostCall.inz_value ↦ returns h mem (pos (min h.value i64_max))
    | HostCall.inz_height ↦ returns h mem (as_i64 h.height)
    | HostCall.inz_balance ↦ returns h mem (pos (min (account env s h.contract).balance i64_max))
    | HostCall.inz_read kptr klen ptr room ↦
        reading h (read_bytes mem kptr klen max_key_bytes) (λ bytes.
          elim (read_key s h (ext.from_utf8_lossy bytes)) [
            | none ↦ returns h mem (negsuc 0)
            | some v ↦ shows h (write_out mem ptr room v)
          ])
    | HostCall.inz_write kptr klen vptr vlen ↦ write_key h mem kptr klen vptr vlen
    | HostCall.inz_transfer aptr alen (negsuc n) ↦ (err negative_amount, h)
    | HostCall.inz_transfer aptr alen (pos amount) ↦
        reading h (read_bytes mem aptr alen 64)
          (λ bytes. queue_transfer h mem (ext.from_utf8_lossy bytes) amount)
  ]

  -- A run that is over: whether it was started, the fuel, how it ended, and the host.
  pub record Ended : Type 0 where
    pub is_started : Bool
    pub fuel_used : ℕ
    pub ending : Ending
    pub host : Host

  unfoldable pub run : Store env → Bool → Host → Guest → Ended
  unfolding host_call
  run s begun h (ended fuel e) = record {
    is_started = begun;
    fuel_used = fuel;
    ending = e;
    host = h;
  }
  run s begun h (started g) = run s true h g
  run s begun h (ask fuel mem call k) =
      let (r, h') = host_call s h mem call in
      elim r [
        | err e ↦ record { is_started = begun; fuel_used = fuel; ending = trapped e; host = h' }
        | ok reply ↦ run s begun h' (k reply)
      ]

  -- The writes in the order of their keys.
  unfoldable pub collect_writes : Dict (Option (List ℕ)) → List ℕ → List (ℕ × Option ℕ)
  collect_writes overlay [] = []
  collect_writes overlay (k ∷ ks) =
      let rest = collect_writes overlay ks in
      elim (lookup k overlay) [
        | none ↦ rest
        | some none ↦ (k, none) ∷ rest
        | some (some bytes) ↦ (k, some (ext.stored_value bytes)) ∷ rest
      ]

  unfoldable pub failed : RunError → ℕ → Outcome
  failed e fuel = record {
    is_ok = false;
    ret = [];
    logs = [];
    fuel_used = fuel;
    error = some (ext.describe e);
    writes = [];
    transfers = [];
  }

  -- The `match` on the result of `invoke`.
  unfoldable pub outcome_of : Ended → Outcome
  unfolding collect_writes failed
  outcome_of r =
      let without : RunError → List ℕ → Outcome =
        λ e ret. record (failed e r.fuel_used) { ret = ret; logs = r.host.logs } in
      if not r.is_started then failed instantiate_failed r.fuel_used else elim r.ending [
        | no_invoke ↦ failed no_entry 0
        | exited zero ↦ record {
          is_ok = true;
          ret = r.host.ret;
          logs = r.host.logs;
          fuel_used = r.fuel_used;
          error = none;
          writes = collect_writes r.host.overlay r.host.order;
          transfers = r.host.transfers;
        }
        | exited (suc c) ↦ without (reverted (suc c)) r.host.ret
        | trapped e ↦ without (in_trap e) []
      ]

  unfoldable pub new_host : Store env → ℕ → ℕ → List ℕ → ℕ → ℕ → Host
  new_host s contract caller input value height = record {
    contract = contract;
    caller = caller;
    value = value;
    height = height;
    input = input;
    overlay = [];
    order = [];
    logs = [];
    ret = [];
    transfers = [];
    spendable = (account env s contract).balance;
  }

  unfoldable pub execute : Store env → ℕ → ℕ → List ℕ → List ℕ → ℕ → ℕ → ℕ → Outcome
  unfolding run outcome_of new_host
  execute s contract caller code input value height fuel = elim (ext.wasm_run code fuel) [
    | err e ↦ failed (invalid_wasm e) 0
    | ok guest ↦ outcome_of (run s false (new_host s contract caller input value height) guest)
  ]
