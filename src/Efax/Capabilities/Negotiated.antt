-- ===== src/Efax/Capabilities/Negotiated.antt =====
-- The bit rate of mincap of efax/efax.c.
use secure_e_fax.Prelude.{ℕ, ◌≤◌, ◌≡◌, ◌⊎◌, inl, inr, refl, ltb, arith, Bool-cases}
use secure_e_fax.Efax.Capabilities.{Cap, mincap, in_range, brindex, checkcap}

in_range_twice : (max c : ℕ) → in_range max (in_range max c) ≡ in_range max c
in_range_twice max c = ground arith

-- The bit rate that mincap sets is that of one of the stations, with 0 for one that is out of range, and
-- in the order of brindex it is faster than neither.
pub mincap_rate :
    (local remote session : Cap)
    → (((mincap local remote session).0.br ≡ in_range 7 local.br)
        ⊎ ((mincap local remote session).0.br ≡ in_range 7 remote.br))
      × (brindex (mincap local remote session).0.br ≤ brindex (in_range 7 local.br))
      × (brindex (mincap local remote session).0.br ≤ brindex (in_range 7 remote.br))
unfolding mincap checkcap
mincap_rate local remote session =
    let l = in_range 7 local.br in
    let r = in_range 7 remote.br in
    elim (Bool-cases (ltb (brindex r) (brindex l))) [
      | inl slower ↦
          let e : in_range 7 r ≡ r = in_range_twice 7 remote.br in
          rw slower (rw e (inr refl, ground arith, omega arith))
      | inr faster ↦
          let e : in_range 7 l ≡ l = in_range_twice 7 local.br in
          rw faster (rw e (inl refl, omega arith, ground arith))
    ]
