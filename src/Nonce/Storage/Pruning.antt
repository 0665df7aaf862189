-- ===== src/Nonce/Storage/Pruning.antt =====
-- What the pruning of expired reservations does to the dict of each sender.
use text.Mathlib.TextEquality.{eq_iff}
use xian_abci.Prelude.{
  ◌≤◌, ◌≡◌, String, true, false, if◌then◌else◌, ◌==◌, string_eq, Bool-cases, inl, inr, length, ap,
  some, [], ◌∷◌, arith,
}
use xian_abci.Prelude.Int.{ℤ, pos, ltb_ℤ, leb_ℤ, int_eq, eqb_ℤ_iff}
use xian_abci.Prelude.Dict.{lookup, erase, lookup-insert, lookup-erase}
use xian_abci.Nonce.Storage.{
  Settings, NonceReservation, Reservations, Pending, of_sender, put_sender, drop_expired,
  expires_before, prune_reservations, prune_pending_for_sender,
}

pub of_sender-put :
    (s i : String) (d : Reservations) (p : Pending)
    → of_sender i (put_sender s d p) ≡ (if s == i then d else of_sender i p)
of_sender-put s i [] p = ground (arith, lookup-erase s i p)
of_sender-put s i (e ∷ d) p = ground (arith, lookup-insert s i (e ∷ d) p)

pub of_sender-erase :
    (s i : String) (p : Pending) → of_sender i (erase s p) ≡ (if s == i then [] else of_sender i p)
of_sender-erase s i p = ground (arith, lookup-erase s i p)

length-drop_expired : (b : ℤ) (d : Reservations) → length (drop_expired b d) ≤ length d
unfolding drop_expired
length-drop_expired b [] = omega arith
length-drop_expired b ((n, r) ∷ d) = ground (arith, length-drop_expired b d)

lookup-drop_expired :
    (b n : ℤ) (r : NonceReservation) (d : Reservations)
    → lookup n d ≡ some r
    → ltb_ℤ r.reserved_at b ≡ false
    → lookup n (drop_expired b d) ≡ some r
unfolding drop_expired lookup
lookup-drop_expired b n r [] h live = cc
lookup-drop_expired b n r ((j, q) ∷ d) h live = elim (Bool-cases (j == n)) [
  | inl e ↦ ground (arith, eqb_ℤ_iff j n)
  | inr ne ↦ ground (arith, lookup-drop_expired b n r d)
]

module _ (settings : Settings) where
  -- The reservations of one sender that the pruning leaves.
  abbrev pub live : ℤ → Reservations → Reservations
  live now d =
      if leb_ℤ settings.reservation_ttl_seconds (pos 0)
      then d
      else drop_expired (expires_before settings now) d

  prune_reservations-live :
      (now : ℤ) (s i : String) (d : Reservations) (p : Pending)
      → ((s == i) ≡ true → d ≡ of_sender i p)
      → of_sender i (prune_reservations settings now s d p)
        ≡ (if s == i then live now d else of_sender i p)
  prune_reservations-live now s i [] p own =
      unfold drop_expired in ground (arith, of_sender-erase s i p)
  prune_reservations-live now s i (e ∷ d) p own =
      ground (arith, own, of_sender-put s i (drop_expired (expires_before settings now) (e ∷ d)) p)

  pub of_sender-prune :
      (now : ℤ) (s i : String) (p : Pending)
      → of_sender i (prune_pending_for_sender settings now s p)
        ≡ (if s == i then live now (of_sender s p) else of_sender i p)
  unfolding prune_pending_for_sender
  of_sender-prune now s i p =
      prune_reservations-live now s i (of_sender s p) p
        (λ same. ap (λ j. of_sender j p) ((eq_iff s i).0 same))

  pub length-prune :
      (now : ℤ) (s i : String) (p : Pending)
      → length (of_sender i (prune_pending_for_sender settings now s p)) ≤ length (of_sender i p)
  length-prune now s i p = ground (
    arith,
    of_sender-prune now s i p,
    eq_iff s i,
    length-drop_expired (expires_before settings now) (of_sender s p),
  )

  pub lookup-prune :
      (now : ℤ) (s i : String) (n : ℤ) (r : NonceReservation) (p : Pending)
      → lookup n (of_sender i p) ≡ some r
      → ltb_ℤ r.reserved_at (expires_before settings now) ≡ false
      → lookup n (of_sender i (prune_pending_for_sender settings now s p)) ≡ some r
  lookup-prune now s i n r p h unexpired = ground (
    arith,
    of_sender-prune now s i p,
    eq_iff s i,
    lookup-drop_expired (expires_before settings now) n r (of_sender s p),
  )
