-- ===== src/Presence/Scan.antt =====
-- internal/presence/presence.go: what the scan of IsOnline leaves of a user's devices.
use clixor_backend.Prelude.{
  ◌<◌, ◌≡◌, some, List, [], ◌∷◌, Bool, true, false, arith, All, ◌==◌, nat_eq, if_both, Bool-cases,
  inl, inr,
}
use clixor_backend.Map.{Map, get, delete}
use clixor_backend.Map.Laws.{get-delete}
use clixor_backend.Map.Unique.{Unique, delete-Unique}
use clixor_backend.Domain.{Uuid, Time, after}
use clixor_backend.Presence.{scan_devices}

module _ (now : Time) where
  pub scan-Unique :
      (es : List (Uuid × Time)) (m : Map Uuid Time) → Unique m → Unique (scan_devices now es m).1
  unfolding scan_devices
  scan-Unique [] m h = h
  scan-Unique ((d, y) ∷ es) m h =
      if_both {A = Bool × Map Uuid Time} (λ r. Unique r.1) (after y now) (true, m) _ h
        (scan-Unique es (delete m d) (delete-Unique m d h))

  module _ (e : Uuid) (x : Time) where
    -- The scan only deletes,
    pub scan_known :
        (es : List (Uuid × Time)) (m : Map Uuid Time)
        → get (scan_devices now es m).1 e ≡ some x
        → get m e ≡ some x
    unfolding scan_devices
    scan_known [] m h = h
    scan_known ((d, y) ∷ es) m h = elim (Bool-cases (after y now)) [
      | inl on ↦ rw on at h
      | inr off ↦ elim (Bool-cases (d == e)) [
        | inl same ↦ cc (rw (get-delete, same) at (scan_known es (delete m d) (rw off at h)))
        | inr other ↦ rw (get-delete, other) at (scan_known es (delete m d) (rw off at h))
      ]
    ]

    -- and nothing that lasts.
    pub scan_kept :
        (es : List (Uuid × Time)) (m : Map Uuid Time)
        → now < x
        → All (λ p. (p.0 == e) ≡ true → p.1 ≡ x) es
        → get m e ≡ some x
        → get (scan_devices now es m).1 e ≡ some x
    unfolding scan_devices
    scan_kept [] m l a h = h
    scan_kept ((d, y) ∷ es) m l a h = elim (Bool-cases (after y now)) [
      | inl on ↦ rw on h
      | inr off ↦ elim (Bool-cases (d == e)) [
        | inl same ↦ absurd (not_over y off (a.0 same))
        | inr other ↦ rw off (scan_kept es (delete m d) l a.1 (rw (get-delete, other) h))
      ]
    ]
      where
        not_over : (y : Time) → after y now ≡ false → y ≡ x → ⊥
        not_over y off same = ground arith
