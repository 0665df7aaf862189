-- ===== src/Nonce/Storage/Reconciled.antt =====
-- What the reconciliation with the committed nonces leaves, of src/xian/nonce.py.
use text.Mathlib.TextEquality.{eq_iff}
use xian_abci.Prelude.{
  ◌≡◌, refl, ◌∙◌, ap, String, Bool, false, if◌then◌else◌, ◌==◌, string_eq, Bool-cases, inl, inr,
  Option, Option-cases, none, some, [], ◌∷◌, arith,
}
use xian_abci.Prelude.Int.{ℤ, pos, ltb_ℤ, leb_ℤ, ◌-ℤ◌, int_eq, eqb_ℤ_iff}
use xian_abci.Prelude.Dict.{lookup, contains, IsNodup}
use xian_abci.Nonce.Storage.{
  Settings, NonceReservation, Reservations, Pending, of_sender, drop_expired, drop_committed,
  expires_before, prune_pending_for_sender, prune_senders, prune_pending, reconcile_reservations,
  reconcile_senders, reconcile_pending,
}
use xian_abci.Nonce.Storage.Pruning.{live, of_sender-prune, of_sender-put}

drop_expired_idem :
    (b : ℤ) (d : Reservations) → drop_expired b (drop_expired b d) ≡ drop_expired b d
unfolding drop_expired
drop_expired_idem b [] = refl
drop_expired_idem b ((n, r) ∷ d) = ground (arith, drop_expired_idem b d)

drop_committed_idem :
    (c : ℤ) (d : Reservations) → drop_committed c (drop_committed c d) ≡ drop_committed c d
unfolding drop_committed
drop_committed_idem c [] = refl
drop_committed_idem c ((n, r) ∷ d) = ground (arith, drop_committed_idem c d)

lookup-drop_committed :
    (c n : ℤ) (d : Reservations)
    → lookup n (drop_committed c d) ≡ (if leb_ℤ n c then none else lookup n d)
unfolding drop_committed lookup
lookup-drop_committed c n [] = ground arith
lookup-drop_committed c n ((j, r) ∷ d) = elim (Bool-cases (j == n)) [
  | inl e ↦ ground (arith, eqb_ℤ_iff j n, lookup-drop_committed c n d)
  | inr ne ↦ ground (arith, lookup-drop_committed c n d)
]

-- The reservations above a committed nonce.
abbrev above : Option ℤ → Reservations → Reservations
above none d = d
above (some committed) d = drop_committed committed d

above_idem : (c : Option ℤ) (d : Reservations) → above c (above c d) ≡ above c d
above_idem none d = refl
above_idem (some c) d = drop_committed_idem c d

above-nil : (c : Option ℤ) → above c [] ≡ []
unfolding drop_committed
above-nil none = refl
above-nil (some c) = refl

-- The nonce has been committed, or one above it.
abbrev pub is_committed : ℤ → Option ℤ → Bool
is_committed n none = false
is_committed n (some committed) = leb_ℤ n committed

lookup-above :
    (c : Option ℤ) (n : ℤ) (d : Reservations)
    → lookup n (above c d) ≡ (if is_committed n c then none else lookup n d)
lookup-above none n d = refl
lookup-above (some c) n d = lookup-drop_committed c n d

-- A reservation, or none where it is older than the time after which reservations expire. A time
-- that is not positive expires nothing.
abbrev pub unless_expired : ℤ → ℤ → Option NonceReservation → Option NonceReservation
unless_expired ttl now none = none
unless_expired ttl now (some r) =
    if leb_ℤ ttl (pos 0) then some r else if ltb_ℤ r.reserved_at (now -ℤ ttl) then none else some r

lookup-expired :
    (b n : ℤ) (d : Reservations) → contains n d ≡ false → lookup n (drop_expired b d) ≡ none
unfolding drop_expired lookup
lookup-expired b n [] h = refl
lookup-expired b n ((j, r) ∷ d) h = ground (arith, lookup-expired b n d)

abbrev made_since : ℤ → Option NonceReservation → Option NonceReservation
made_since b none = none
made_since b (some r) = if ltb_ℤ r.reserved_at b then none else some r

-- What is left at a nonce that stands once.
lookup-drop_expired :
    (b n : ℤ) (d : Reservations)
    → IsNodup d
    → lookup n (drop_expired b d) ≡ made_since b (lookup n d)
unfolding drop_expired lookup
lookup-drop_expired b n [] h = refl
lookup-drop_expired b n ((j, r) ∷ d) h = elim (Bool-cases (j == n)) [
  | inl e ↦ ground (arith, eqb_ℤ_iff j n, lookup-expired b n d)
  | inr ne ↦ ground (arith, lookup-drop_expired b n d)
]

-- A sender that is no key has no reservations.
of_sender-missing : (i : String) (p : Pending) → contains i p ≡ false → of_sender i p ≡ []
of_sender-missing i p h = ground arith

module _ (settings : Settings) where
  lookup-live :
      (now n : ℤ) (d : Reservations)
      → IsNodup d
      → lookup n (live settings now d)
        ≡ unless_expired settings.reservation_ttl_seconds now (lookup n d)
  lookup-live now n d once =
      ground
        (arith, lookup-drop_expired (expires_before settings now) n d, Option-cases (lookup n d))

  live_idem :
      (now : ℤ) (d : Reservations) → live settings now (live settings now d) ≡ live settings now d
  live_idem now d = ground (arith, drop_expired_idem (expires_before settings now) d)

  live-nil : (now : ℤ) → live settings now [] ≡ []
  unfolding drop_expired
  live-nil now = ground arith

  of_sender-prune_senders :
      (now : String → ℤ) (i : String) (senders p : Pending)
      → of_sender i (prune_senders settings now senders p)
        ≡ (if contains i senders then live settings (now i) (of_sender i p) else of_sender i p)
  unfolding prune_senders lookup
  of_sender-prune_senders now i [] p = refl
  of_sender-prune_senders now i ((s, d) ∷ senders) p = ground (
    arith,
    eq_iff s i,
    of_sender-prune settings (now s) s i p,
    live_idem (now i) (of_sender i p),
    of_sender-prune_senders now i senders (prune_pending_for_sender settings (now s) s p),
  )

  of_sender-prune_pending :
      (now : String → ℤ) (i : String) (p : Pending)
      → of_sender i (prune_pending settings now p) ≡ live settings (now i) (of_sender i p)
  unfolding prune_pending
  of_sender-prune_pending now i p =
      ground (arith, of_sender-prune_senders now i p p, of_sender-missing i p, live-nil (now i))

  module _ (committed_nonce : String → Option ℤ) where
    of_sender-reconcile_reservations :
        (s i : String) (c : Option ℤ) (p : Pending)
        → of_sender i (reconcile_reservations settings committed_nonce s c p)
          ≡ (if s == i then above c (of_sender i p) else of_sender i p)
    of_sender-reconcile_reservations s i none p = ground arith
    of_sender-reconcile_reservations s i (some c) p =
        ground (arith, eq_iff s i, of_sender-put s i (drop_committed c (of_sender s p)) p)

    of_sender-reconcile_senders :
        (i : String) (senders p : Pending)
        → of_sender i (reconcile_senders settings committed_nonce senders p) ≡ (
            if contains i senders then above (committed_nonce i) (of_sender i p) else of_sender i p)
    unfolding reconcile_senders lookup
    of_sender-reconcile_senders i [] p = refl
    of_sender-reconcile_senders i ((s, d) ∷ senders) p = ground (
      arith,
      eq_iff s i,
      of_sender-reconcile_reservations s i (committed_nonce s) p,
      above_idem (committed_nonce i) (of_sender i p),
      of_sender-reconcile_senders i senders
          (reconcile_reservations settings committed_nonce s (committed_nonce s) p),
    )

    of_sender-reconcile_all :
        (i : String) (p : Pending)
        → of_sender i (reconcile_senders settings committed_nonce p p)
          ≡ above (committed_nonce i) (of_sender i p)
    of_sender-reconcile_all i p = ground (
      arith,
      of_sender-reconcile_senders i p p,
      of_sender-missing i p,
      above-nil (committed_nonce i),
    )

    reconcile_pending-live :
        (now : String → ℤ) (i : String) (n : ℤ) (p : Pending)
        → lookup n (of_sender i (reconcile_pending settings committed_nonce now p)) ≡ (
            if is_committed n (committed_nonce i)
            then none
            else lookup n (live settings (now i) (of_sender i p)))
    unfolding reconcile_pending
    reconcile_pending-live now i n p =
        let kept = live settings (now i) (of_sender i p) in
        ap (lookup n) (
          of_sender-reconcile_all i (prune_pending settings now p)
          ∙ ap (above (committed_nonce i)) (of_sender-prune_pending now i p))
        ∙ lookup-above (committed_nonce i) n kept

    -- After the reconciliation, a sender has no reservation of a nonce that has been committed for
    -- it, nor of one below. Of any other nonce it has the reservation that it had, unless
    -- reservations expire after a positive time and this one has been made longer ago than that; an
    -- expired one is gone. Each nonce stands once in the dict of the sender.
    pub reconcile_pending-lookup :
        (now : String → ℤ) (i : String) (n : ℤ) (p : Pending)
        → IsNodup (of_sender i p)
        → lookup n (of_sender i (reconcile_pending settings committed_nonce now p)) ≡ (
            if is_committed n (committed_nonce i)
            then none
            else unless_expired settings.reservation_ttl_seconds (now i) (lookup n (of_sender i p)))
    reconcile_pending-lookup now i n p once =
        reconcile_pending-live now i n p
        ∙ ap (λ o. if is_committed n (committed_nonce i) then none else o)
            (lookup-live (now i) n (of_sender i p) once)
