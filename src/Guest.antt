-- ===== src/Guest.antt =====
-- A contract as src/contracts.rs sees it: the program that the `wasmi` package runs, as the tree of the
-- host functions that it calls, each with what it does next for every reply.
use inazuma_core.Base.{ℕ, Bool, Option, List}

-- A machine integer with a sign: `negsuc n` is -(n + 1).
pub data Signed : Type 0 where
  pos negsuc : ℕ → Signed

-- The functions of `link_host` with their arguments.
pub data HostCall : Type 0 where
  inz_input_len inz_value inz_height inz_balance : HostCall
  inz_input inz_return inz_log inz_caller inz_self : Signed → Signed → HostCall
  inz_read inz_write : Signed → Signed → Signed → Signed → HostCall
  inz_transfer : Signed → Signed → Signed → HostCall

-- What a host function hands back, and the memory after it.
pub record Reply : Type 0 where
  pub code : Signed
  pub memory : Option (List ℕ)

pub data Trap : Type 0 where
  no_memory bad_length out_of_bounds bad_capacity empty_key too_many_writes : Trap
  negative_amount too_many_transfers : Trap
  in_guest : ℕ → Trap

pub data Ending : Type 0 where
  exited : ℕ → Ending
  no_invoke : Ending
  trapped : Trap → Ending

-- `ask` has the fuel used so far and the exported memory; `started` marks the end of `instantiate` and
-- `start`, and `ended` has the fuel used.
pub data Guest : Type 0 where
  ask : ℕ → Option (List ℕ) → HostCall → (Reply → Guest) → Guest
  started : Guest → Guest
  ended : ℕ → Ending → Guest

-- Why a run has no effect.
pub data RunError : Type 0 where
  invalid_wasm reverted : ℕ → RunError
  instantiate_failed no_entry : RunError
  in_trap : Trap → RunError

-- What a contract call wants to write; src/contracts.rs `Outcome`.
pub record Outcome : Type 0 where
  pub is_ok : Bool
  pub ret : List ℕ
  pub logs : List ℕ
  pub fuel_used : ℕ
  pub error : Option ℕ
  pub writes : List (ℕ × Option ℕ)
  pub transfers : List (ℕ × ℕ)
