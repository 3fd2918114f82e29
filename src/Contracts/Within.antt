-- ===== src/Contracts/Within.antt =====
-- What a contract of src/contracts.rs asks for stays within its limits, whatever program runs: sizes,
-- and the coins that it sends.
use inazuma_core.Base.{
  ℕ, zero, suc, ◌+◌, ◌≤◌, ◌≡◌, refl, Bool, true, Option, none, some, List, [], ◌∷◌, ◌++◌, length,
  take, length-append, sum_by, sum_by-append, arith, Option-cases, Result-cases, inl, inr, Result,
  ok, err,
}
use inazuma_core.Platform.{Platform}
use inazuma_core.State.{Store}
use inazuma_core.Guest.{Signed, pos, negsuc, HostCall, Trap, Guest, ask, started, ended}
use inazuma_core.Externals.{Externals}
use inazuma_core.Contracts.Host.{
  Host, Stepped, slice, drop, read_bytes, reading, put_overlay, write_key, queue_transfer, push_log,
  host_call, run, read_key, max_writes, max_transfers, max_logs, max_return_bytes, max_key_bytes,
  max_value_bytes,
}

-- The coins that a list of transfers sends.
abbrev pub sent : List (ℕ × ℕ) → ℕ
sent ts = sum_by (λ t. t.1) ts

length-take : (n : ℕ) (xs : List ℕ) → length (take n xs) ≤ n
length-take zero xs = omega arith
length-take (suc n) [] = omega arith
length-take (suc n) (x ∷ xs) = omega (arith, length-take n xs)

slice-length :
    (mem : Option (List ℕ)) (ptr : Signed) (n : ℕ) (bytes : List ℕ)
    → slice mem ptr n ≡ ok bytes
    → length bytes ≤ n
unfolding slice
slice-length none ptr n bytes h = absurd (ground (arith, h))
slice-length (some mem) (negsuc p) n bytes h = absurd (ground (arith, h))
slice-length (some mem) (pos p) n bytes h = ground (arith, h, length-take n (drop p mem))

read_bytes-length :
    (mem : Option (List ℕ)) (ptr len : Signed) (max : ℕ) (bytes : List ℕ)
    → read_bytes mem ptr len max ≡ ok bytes
    → length bytes ≤ max
unfolding read_bytes
read_bytes-length mem ptr (negsuc n) max bytes h = absurd (ground (arith, h))
read_bytes-length mem ptr (pos n) max bytes h = ground (arith, h, slice-length mem ptr n bytes)

module _ (env : Platform) where
  unfoldable pub AllValid : List (ℕ × ℕ) → Type 0
  AllValid [] = Unit {0}
  AllValid (t ∷ ts) = (env.is_valid_address t.0 ≡ true) × AllValid ts

  AllValid-append : (ts us : List (ℕ × ℕ)) → AllValid ts → AllValid us → AllValid (ts ++ us)
  unfolding AllValid
  AllValid-append [] us h k = k
  AllValid-append (t ∷ ts) us h k = (h.0, AllValid-append ts us h.1 k)

  -- A host whose contract had the balance when it was called.
  unfoldable pub Within : ℕ → Host → Type 0
  Within balance h =
      (length h.order ≤ max_writes)
      × (length h.transfers ≤ max_transfers)
      × (length h.logs ≤ max_logs)
      × (length h.ret ≤ max_return_bytes)
      × (sent h.transfers + h.spendable ≡ balance)
      × AllValid h.transfers

  module _ (ext : Externals env) (balance : ℕ) where
    reading-Within :
        (h : Host) (r : Result Trap (List ℕ)) (f : List ℕ → Stepped)
        → Within balance h
        → ((bytes : List ℕ) → r ≡ ok bytes → Within balance (f bytes).1)
        → Within balance (reading h r f).1
    reading-Within h (err e) f w k = w
    reading-Within h (ok bytes) f w k = k bytes refl

    put_overlay-Within :
        (h : Host) (mem : Option (List ℕ)) (key : ℕ) (bytes : List ℕ)
        → Within balance h
        → Within balance (put_overlay env ext h mem key bytes).1
    unfolding put_overlay Within
    put_overlay-Within h mem key bytes w = ground (arith, w, length-append h.order (key ∷ []))

    put_value-Within :
        (h : Host) (mem : Option (List ℕ)) (key : ℕ) (vp vl : Signed)
        → Within balance h
        → Within balance
            (reading h (read_bytes mem vp vl max_value_bytes) (put_overlay env ext h mem key)).1
    put_value-Within h mem key vp vl w =
        reading-Within h (read_bytes mem vp vl max_value_bytes) (put_overlay env ext h mem key) w
          (λ v e. put_overlay-Within h mem key v w)

    write_key-Within :
        (h : Host) (mem : Option (List ℕ)) (kp kl vp vl : Signed)
        → Within balance h
        → Within balance (write_key env ext h mem kp kl vp vl).1
    unfolding write_key
    write_key-Within h mem kp kl vp (pos zero) w =
        reading-Within h (read_bytes mem kp kl max_key_bytes) _ w
          (λ bytes e. ground (arith, w, put_overlay-Within h mem (ext.from_utf8_lossy bytes) [] w))
    write_key-Within h mem kp kl vp (pos (suc n)) w =
        reading-Within h (read_bytes mem kp kl max_key_bytes) _ w (λ bytes e.
          ground (arith, w, put_value-Within h mem (ext.from_utf8_lossy bytes) vp (pos (suc n)) w))
    write_key-Within h mem kp kl vp (negsuc n) w =
        reading-Within h (read_bytes mem kp kl max_key_bytes) _ w (λ bytes e.
          ground (arith, w, put_value-Within h mem (ext.from_utf8_lossy bytes) vp (negsuc n) w))

    queue_transfer-Within :
        (h : Host) (mem : Option (List ℕ)) (to x : ℕ)
        → Within balance h
        → Within balance (queue_transfer env ext h mem to x).1
    unfolding queue_transfer Within AllValid
    queue_transfer-Within h mem to x w = ground (
      arith,
      w,
      length-append h.transfers ((to, x) ∷ []),
      sum_by-append (λ t. t.1) h.transfers ((to, x) ∷ []),
      AllValid-append h.transfers ((to, x) ∷ []) w.5,
    )

    push_log-Within :
        (h : Host) (mem : Option (List ℕ)) (bytes : List ℕ)
        → Within balance h
        → Within balance (push_log env ext h mem bytes).1
    unfolding push_log Within
    push_log-Within h mem bytes w =
        ground (arith, w, length-append h.logs (ext.from_utf8_lossy bytes ∷ []))

    returned-Within :
        (h : Host) (mem : Option (List ℕ)) (bytes : List ℕ)
        → Within balance h
        → length bytes ≤ max_return_bytes
        → Within balance (record h { ret = bytes })
    unfolding Within
    returned-Within h mem bytes w k = (w.0, w.1, w.2, k, w.4, w.5)

    -- No call of a host function takes the host out of its limits.
    host_call-Within :
        (s : Store env) (h : Host) (mem : Option (List ℕ)) (call : HostCall)
        → Within balance h
        → Within balance (host_call env ext s h mem call).1
    unfolding host_call
    host_call-Within s h mem HostCall.inz_input_len w = w
    host_call-Within s h mem HostCall.inz_value w = w
    host_call-Within s h mem HostCall.inz_height w = w
    host_call-Within s h mem HostCall.inz_balance w = w
    host_call-Within s h mem (HostCall.inz_input ptr room) w = w
    host_call-Within s h mem (HostCall.inz_caller ptr room) w = w
    host_call-Within s h mem (HostCall.inz_self ptr room) w = w
    host_call-Within s h mem (HostCall.inz_return ptr len) w =
        reading-Within h (read_bytes mem ptr len max_return_bytes) _ w (λ bytes e.
          returned-Within h mem bytes w (read_bytes-length mem ptr len max_return_bytes bytes e))
    host_call-Within s h mem (HostCall.inz_log ptr len) w =
        reading-Within h (read_bytes mem ptr len 1024) _ w
          (λ bytes e. push_log-Within h mem bytes w)
    host_call-Within s h mem (HostCall.inz_read kptr klen ptr room) w =
        reading-Within h (read_bytes mem kptr klen max_key_bytes) _ w (λ bytes e.
          ground (arith, w, Option-cases (read_key env ext s h (ext.from_utf8_lossy bytes))))
    host_call-Within s h mem (HostCall.inz_write kptr klen vptr vlen) w =
        write_key-Within h mem kptr klen vptr vlen w
    host_call-Within s h mem (HostCall.inz_transfer aptr alen (negsuc n)) w = w
    host_call-Within s h mem (HostCall.inz_transfer aptr alen (pos x)) w =
        reading-Within h (read_bytes mem aptr alen 64) _ w
          (λ bytes e. queue_transfer-Within h mem (ext.from_utf8_lossy bytes) x w)

    pub run-Within :
        (s : Store env) (begun : Bool) (h : Host) (g : Guest)
        → Within balance h
        → Within balance (run env ext s begun h g).host
    unfolding run
    run-Within s begun h (ended fuel e) w = w
    run-Within s begun h (started g) w = run-Within s true h g w
    run-Within s begun h (ask fuel mem call k) w =
        elim (Result-cases (host_call env ext s h mem call).0) [
          | inr (x, e) ↦ rw (run, e) (host_call-Within s h mem call w)
          | inl (reply, e) ↦
              rw (run, e)
                (run-Within s begun (host_call env ext s h mem call).1 (k reply)
                  (host_call-Within s h mem call w))
        ]
