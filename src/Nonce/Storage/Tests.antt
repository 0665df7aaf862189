-- ===== src/Nonce/Storage/Tests.antt =====
-- The theorems on the reservations at one sender with the committed nonce 6.
use xian_abci.Prelude.{ℕ, String, Option, none, some, ◌≡◌, refl, [], ◌∷◌, arith}
use xian_abci.Prelude.Int.{ℤ, pos, ◌+ℤ◌, ◌-ℤ◌, int_eq}
use xian_abci.Prelude.Dict.{IsNodup, lookup, insert, erase}
use xian_abci.Result.{ok}
use xian_abci.Value.{Value, int, str, obj, end, field, get_item, lookup_field}
use xian_abci.Nonce.Storage.{
  Settings, NonceReservation, Pending, of_sender, get_next_nonce, get_pending_nonce, check_nonce,
  check_sender_nonce, reserve_next, prune_pending_for_sender, drop_expired, advance, read_nonce,
  nonce_key, or_minus_one, reconcile_pending,
}
use xian_abci.Nonce.Storage.Run.{FirstFree, get_next_nonce-FirstFree}
use xian_abci.Nonce.Storage.Reserve.{HeldFor, IsBounded, check_nonce-IsBounded}
use xian_abci.Nonce.Storage.Holding.{check_nonce-HeldFor}
use xian_abci.Nonce.Storage.Reconciled.{reconcile_pending-lookup}
use xian_abci.Nonce.Storage.Outcome.{check_nonce-Reserved}

abbrev settings : Settings
settings = record { reservation_ttl_seconds = pos 60; max_pending_nonces_per_sender = 2 }

abbrev six : String → Option ℤ
six sender = some (pos 6)

-- Nonce 7 is reserved since the time 100.
abbrev reserved_seven : NonceReservation
reserved_seven = record { tx_hash = "first"; reserved_at = pos 100 }

abbrev pending : Pending
pending = ("alice", (pos 7, reserved_seven) ∷ []) ∷ []

abbrev with_nonce : ℕ → Value
with_nonce n =
    obj (field "payload" (obj (field "sender" (str "alice") (field "nonce" (int (pos n)) end))) end)

get_next_nonce-FirstFree_example :
    FirstFree
      (or_minus_one (six "alice"))
      (of_sender "alice" (get_next_nonce settings six (pos 120) "alice" pending).1)
      (get_next_nonce settings six (pos 120) "alice" pending).0
get_next_nonce-FirstFree_example = get_next_nonce-FirstFree settings six (pos 120) "alice" pending

pending-IsBounded : IsBounded settings six pending
unfolding lookup
pending-IsBounded = record { within = λ i. ground arith }

check_nonce-IsBounded_example :
    IsBounded settings six
      (check_nonce settings six (pos 120) (pos 121) (pos 122) pending (with_nonce 8) "second").1
check_nonce-IsBounded_example =
    check_nonce-IsBounded settings six (pos 120) (pos 121) (pos 122) pending (with_nonce 8) "second"
      pending-IsBounded

-- Another transaction asks for the same nonce.
check_nonce-HeldFor_example : HeldFor "first" (pos 7) (
    of_sender "alice"
      (check_nonce settings six (pos 120) (pos 121) (pos 122) pending (with_nonce 7) "second").1)
unfolding lookup ◌-ℤ◌
check_nonce-HeldFor_example =
    check_nonce-HeldFor settings six (pos 120) (pos 121) (pos 122) pending (with_nonce 7) "second"
      "alice" (pos 7) reserved_seven refl refl refl

eight_accepted :
    (check_nonce settings six (pos 120) (pos 121) (pos 122) pending (with_nonce 8) "second").0
    ≡ ok tt
unfolding check_nonce check_sender_nonce reserve_next get_next_nonce get_pending_nonce
    prune_pending_for_sender drop_expired advance lookup insert erase ◌-ℤ◌ ◌+ℤ◌ get_item
    lookup_field
eight_accepted = refl

check_nonce-Reserved_example :
    (value : Value) × (sender : String) × (n : ℤ) × (read_nonce (with_nonce 8) ≡ ok (value, sender))
    × (nonce_key value ≡ ok (some n))
    × HeldFor "second" n (
        of_sender sender
          (check_nonce settings six
            (pos 120)
            (pos 121)
            (pos 122)
            pending
            (with_nonce 8)
            "second").1)
check_nonce-Reserved_example =
    check_nonce-Reserved settings six (pos 120) (pos 121) (pos 122) pending (with_nonce 8) "second"
      eight_accepted

-- One reservation that has been committed, one that expires, and one that stays.
abbrev three_pending : Pending
three_pending =
    (
      "alice",
      (pos 6, reserved_seven)
          ∷ (pos 7, reserved_seven)
          ∷ (pos 8, record { tx_hash = "third"; reserved_at = pos 150 })
          ∷ [],
    )
    ∷ []

three-IsNodup : IsNodup (of_sender "alice" three_pending)
unfolding lookup
three-IsNodup = (refl, (refl, (refl, tt)))

reconcile_pending-lookup_example :
    lookup
      (pos 7)
      (of_sender "alice" (reconcile_pending settings six (λ sender. pos 170) three_pending))
    ≡ none
unfolding ◌-ℤ◌ lookup
reconcile_pending-lookup_example =
    reconcile_pending-lookup settings six (λ sender. pos 170) "alice" (pos 7) three_pending
      three-IsNodup
