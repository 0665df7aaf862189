-- ===== src/Nonce/Storage.antt =====
-- src/xian/nonce.py: the node-local reservations of the mempool, over the committed nonces of the
-- state. The lock makes every method one step. Times are whole ticks of the monotonic clock, and
-- each reading of the clock is an argument. A reservation is mutated in place only under its key,
-- so that the dicts can be values.
pub mod Run
pub mod Pruning
pub mod Reserve
pub mod Holding
pub mod Outcome
pub mod Reconciled
mod Tests
use xian_abci.Prelude.{
  ℕ, zero, suc, ltb, leb, String, Bool, true, false, not, ◌&&◌, if◌then◌else◌, ◌==◌, string_eq,
  length, Option, none, some, [], ◌∷◌,
}
use xian_abci.Prelude.Int.{ℤ, pos, negsuc, ltb_ℤ, leb_ℤ, pos_part, int_eq, ◌+ℤ◌, ◌-ℤ◌}
use xian_abci.Prelude.Dict.{Dict, lookup, insert, erase, contains}
use xian_abci.Result.{
  Except, ok, err, transaction, type_error, nonce_invalid, too_many_pending, ◌>>=◌,
}
use xian_abci.Value.{Value, null, bool, int, float, str, arr, obj, get_item}
use xian_abci.Value.Number.{Float, float_int, float_eq}
use xian_abci.Nonce.Tracker.{next_of, text_key}

pub record NonceReservation : Type 0 where
  pub tx_hash : String
  pub reserved_at : ℤ

abbrev pub Reservations : Type 0
Reservations = Dict ℤ NonceReservation

-- `pending_nonces`.
abbrev pub Pending : Type 0
Pending = Dict String Reservations

pub record Settings : Type 0 where
  pub reservation_ttl_seconds : ℤ
  pub max_pending_nonces_per_sender : ℕ

-- `max(int(limit), 1)`.
abbrev pub at_least_one : ℤ → ℕ
at_least_one limit = if leb_ℤ limit (pos 1) then 1 else pos_part limit

-- `pending_nonces.get(sender, {})`.
abbrev pub of_sender : String → Pending → Reservations
of_sender sender p = elim (lookup sender p) [ none ↦ [] | some d ↦ d ]

-- A dict that has become empty is dropped.
abbrev pub put_sender : String → Reservations → Pending → Pending
put_sender sender [] p = erase sender p
put_sender sender (e ∷ d) p = insert sender (e ∷ d) p

unfoldable pub drop_expired : ℤ → Reservations → Reservations
drop_expired expires_before [] = []
drop_expired expires_before ((nonce, r) ∷ d) =
    let rest = drop_expired expires_before d in
    if ltb_ℤ r.reserved_at expires_before then rest else (nonce, r) ∷ rest

unfoldable pub drop_committed : ℤ → Reservations → Reservations
drop_committed committed [] = []
drop_committed committed ((nonce, r) ∷ d) =
    let rest = drop_committed committed d in
    if leb_ℤ nonce committed then rest else (nonce, r) ∷ rest

-- The loop of `get_pending_nonce`. It goes on at most once for each reservation.
unfoldable pub advance : ℕ → ℤ → Reservations → ℤ
advance zero latest d = latest
advance (suc fuel) latest d =
    let further = advance fuel (latest +ℤ pos 1) d in
    if contains (latest +ℤ pos 1) d then further else latest

-- `-1` for a sender without a committed nonce.
abbrev pub or_minus_one : Option ℤ → ℤ
or_minus_one none = negsuc 0
or_minus_one (some n) = n

-- The end of the run of reservations that starts above the committed nonce.
abbrev pub latest_pending : ℤ → Reservations → Option ℤ
latest_pending current [] = none
latest_pending current (e ∷ d) =
    let latest = advance (length (e ∷ d)) current (e ∷ d) in
    if latest == current then none else some latest

-- `if current_nonce is None: current_nonce = self.get_nonce(sender)`.
abbrev pub or_else : Option ℤ → Option ℤ → Option ℤ
or_else committed none = committed
or_else committed (some n) = some n

abbrev or_zero : Option ℤ → ℤ
or_zero none = pos 0
or_zero (some n) = n

-- The int that a nonce is as a dict key, if any.
abbrev float_key : Float → Except ℤ → Option ℤ
float_key x (ok n) = if float_eq x n then some n else none
float_key x (err e) = none

abbrev pub nonce_key : Value → Except (Option ℤ)
nonce_key null = ok none
nonce_key (bool b) = ok (some (if b then pos 1 else pos 0))
nonce_key (int n) = ok (some n)
nonce_key (float x) = ok (float_key x (float_int x))
nonce_key (str s) = ok none
nonce_key (arr vs) = err type_error
nonce_key (obj fs) = err type_error

abbrev pub is_nonce : Option ℤ → ℤ → Bool
is_nonce none expected = false
is_nonce (some n) expected = n == expected

abbrev pub lookup_nonce : Option ℤ → Reservations → Option NonceReservation
lookup_nonce none d = none
lookup_nonce (some n) d = lookup n d

abbrev pub read_nonce : Value → Except (Value × String)
read_nonce tx = do
  payload ← get_item tx "payload"
  nonce ← get_item payload "nonce"
  sender ← get_item payload "sender"
  key ← text_key sender
  ok (nonce, key)

module _ (settings : Settings) where
  abbrev pub expires_before : ℤ → ℤ
  expires_before now = now -ℤ settings.reservation_ttl_seconds

  abbrev pub prune_reservations : ℤ → String → Reservations → Pending → Pending
  prune_reservations now sender [] p = erase sender p
  prune_reservations now sender (e ∷ d) p =
      if leb_ℤ settings.reservation_ttl_seconds (pos 0)
      then p
      else put_sender sender (drop_expired (expires_before now) (e ∷ d)) p

  unfoldable pub prune_pending_for_sender : ℤ → String → Pending → Pending
  prune_pending_for_sender now sender p = prune_reservations now sender (of_sender sender p) p

  -- `for sender in list(self.pending_nonces)`, with the clock's reading for each.
  unfoldable pub prune_senders : (String → ℤ) → Pending → Pending → Pending
  prune_senders now [] p = p
  prune_senders now ((sender, _) ∷ senders) p =
      prune_senders now senders (prune_pending_for_sender (now sender) sender p)

  unfoldable pub prune_pending : (String → ℤ) → Pending → Pending
  prune_pending now p = prune_senders now p p

  module _ (committed_nonce : String → Option ℤ) where
    unfoldable pub get_pending_nonce : ℤ → String → Pending → Option ℤ × Pending
    get_pending_nonce now sender p =
        let p' = prune_pending_for_sender now sender p in
        (latest_pending (or_minus_one (committed_nonce sender)) (of_sender sender p'), p')

    unfoldable pub get_latest_nonce : ℤ → String → Pending → ℤ × Pending
    get_latest_nonce now sender p =
        let (latest, p') = get_pending_nonce now sender p in
        (or_zero (or_else (committed_nonce sender) latest), p')

    unfoldable pub get_next_nonce : ℤ → String → Pending → ℤ × Pending
    get_next_nonce now sender p =
        let (current, p') = get_pending_nonce now sender p in
        (next_of (or_else (committed_nonce sender) current), p')

    abbrev pub set_reservation : String → ℤ → String → ℤ → Pending → Pending
    set_reservation sender nonce tx_hash now p =
        insert sender
          (insert nonce (record { tx_hash = tx_hash; reserved_at = now }) (of_sender sender p)) p

    -- A nonce that is not reserved for the transaction yet. The dict of the sender is the one that
    -- `get_next_nonce` has pruned; where that dropped it, it is empty, and is put back.
    unfoldable pub reserve_next :
        ℤ → ℤ → String → Option ℤ → String → Pending → Except (Unit {0}) × Pending
    reserve_next now later sender tx_nonce tx_hash p =
        let (expected, p') = get_next_nonce now sender p in
        if not (is_nonce tx_nonce expected)
        then (err (transaction (nonce_invalid expected)), p')
        else if leb settings.max_pending_nonces_per_sender (length (of_sender sender p'))
        then (err (transaction too_many_pending), p')
        else (ok tt, set_reservation sender expected tx_hash later p')

    abbrev pub is_reserved_for : String → Option NonceReservation → Bool
    is_reserved_for tx_hash none = false
    is_reserved_for tx_hash (some r) = r.tx_hash == tx_hash

    -- The same transaction again only renews its reservation.
    unfoldable pub check_sender_nonce :
        ℤ → ℤ → String → Option ℤ → String → Pending → Except (Unit {0}) × Pending
    check_sender_nonce now later sender tx_nonce tx_hash p =
        if is_reserved_for tx_hash (lookup_nonce tx_nonce (of_sender sender p))
        then elim tx_nonce [
          | none ↦ (ok tt, p)
          | some n ↦ (ok tt, set_reservation sender n tx_hash now p)
        ]
        else reserve_next now later sender tx_nonce tx_hash p

    -- A value that is no dict key is refused after the first pruning.
    abbrev pub check_key :
        ℤ → ℤ → String → String → Pending → Except (Option ℤ) → Except (Unit {0}) × Pending
    check_key now later sender tx_hash p (err e) = (err e, p)
    check_key now later sender tx_hash p (ok tx_nonce) =
        check_sender_nonce now later sender tx_nonce tx_hash p

    abbrev pub check_read :
        ℤ → ℤ → ℤ → String → Pending → Except (Value × String) → Except (Unit {0}) × Pending
    check_read first now later tx_hash p (err e) = (err e, p)
    check_read first now later tx_hash p (ok (value, sender)) =
        check_key now later sender tx_hash (prune_pending_for_sender first sender p)
          (nonce_key value)

    -- The clock is read up to three times: `first` for the pruning, `now`, and `later` for the
    -- reservation. What a refusal leaves is pruned.
    unfoldable pub check_nonce : ℤ → ℤ → ℤ → Pending → Value → String → Except (Unit {0}) × Pending
    check_nonce first now later p tx tx_hash = check_read first now later tx_hash p (read_nonce tx)

    -- `range(current_nonce + 1, value + 1)`, which has `count` nonces from `nonce` on.
    abbrev pub manual_reservations : (ℤ → String) → ℤ → ℕ → ℤ → Reservations
    manual_reservations tx_hash now zero nonce = []
    manual_reservations tx_hash now (suc count) nonce =
        (nonce, record { tx_hash = tx_hash nonce; reserved_at = now })
        ∷ manual_reservations tx_hash now count (nonce +ℤ pos 1)

    -- The text of the hash is `f"manual:{sender}:{nonce}"`.
    unfoldable pub set_pending_nonce : (String → ℤ → String) → ℤ → String → ℤ → Pending → Pending
    set_pending_nonce manual_hash now sender value p =
        let current = or_minus_one (committed_nonce sender) in
        put_sender sender
          (manual_reservations (manual_hash sender) now (pos_part (value -ℤ current))
            (current +ℤ pos 1))
          p

    abbrev pub reconcile_reservations : String → Option ℤ → Pending → Pending
    reconcile_reservations sender none p = p
    reconcile_reservations sender (some committed) p =
        put_sender sender (drop_committed committed (of_sender sender p)) p

    unfoldable pub reconcile_senders : Pending → Pending → Pending
    reconcile_senders [] p = p
    reconcile_senders ((sender, _) ∷ senders) p =
        reconcile_senders senders (reconcile_reservations sender (committed_nonce sender) p)

    unfoldable pub reconcile_pending : (String → ℤ) → Pending → Pending
    reconcile_pending now p = let p' = prune_pending now p in reconcile_senders p' p'

abbrev pub flush_pending : Pending → Pending
flush_pending p = []
