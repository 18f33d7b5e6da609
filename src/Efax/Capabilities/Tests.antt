-- ===== src/Efax/Capabilities/Tests.antt =====
-- The usual capabilities.
use secure_e_fax.Prelude.{◌≡◌, ◌≤◌, ◌⊎◌, refl, [], ◌∷◌, true, false, arith}
use secure_e_fax.Efax.Capabilities.{mkdis, mkcap, mincap, in_range, brindex}
use secure_e_fax.Efax.Capabilities.RoundTrip.{cap, received, mkcap-mkdis}
use secure_e_fax.Efax.Capabilities.Negotiated.{mincap_rate}

frame : mkdis (cap 1 3 0 2 0 0) false true ≡ 0 ∷ 98 ∷ 30 ∷ []
unfolding mkdis
frame = refl

mkcap-mkdis_example : mkcap (mkdis (cap 1 3 0 2 0 0) false true) false ≡ received (cap 1 3 0 2 0 0)
mkcap-mkdis_example =
    mkcap-mkdis 1 3 0 2 0 0 true (omega arith) (omega arith) (omega arith) (omega arith)
      (omega arith) (omega arith) refl

mincap_rate_example :
    (((mincap (cap 1 5 0 2 0 0) (cap 1 6 0 2 0 0) (cap 0 0 0 0 0 0)).0.br ≡ in_range 7 5)
      ⊎ ((mincap (cap 1 5 0 2 0 0) (cap 1 6 0 2 0 0) (cap 0 0 0 0 0 0)).0.br ≡ in_range 7 6))
    × (brindex (mincap (cap 1 5 0 2 0 0) (cap 1 6 0 2 0 0) (cap 0 0 0 0 0 0)).0.br
        ≤ brindex (in_range 7 5))
    × (brindex (mincap (cap 1 5 0 2 0 0) (cap 1 6 0 2 0 0) (cap 0 0 0 0 0 0)).0.br
        ≤ brindex (in_range 7 6))
mincap_rate_example = mincap_rate (cap 1 5 0 2 0 0) (cap 1 6 0 2 0 0) (cap 0 0 0 0 0 0)
