-- ===== src/Socket/Peers/Laws.antt =====
-- Which hosts the socket server admits.
use secure_e_fax.Prelude.{
  ℕ, zero, suc, ◌≡◌, refl, sym, ap, ◌∙◌, true, false, List, [], ◌∷◌, ◌++◌, ◌↔◌, ◌⊎◌, inl, inr, none,
  some, Bool-cases, arith, length, take, drop, replicate, take-append, take-append-drop,
}
use secure_e_fax.Text.{Bytes, codes, bytes_eq, bytes_eq→eq, bytes_eq_refl}
use secure_e_fax.Socket.Peers.{
  is_pattern_char, all_pattern_chars, ends_with_star, stem_length, addr_compare, PeerInfo, unnamed,
  named, HostInfo, no_hostname, hostname, own_names, peer_names, valid_names, matches_any, any_peer,
  is_valid_peer,
}

stem_length-stars :
    (stem : Bytes) (n : ℕ)
    → ends_with_star stem ≡ false
    → stem_length (stem ++ replicate n b'*') ≡ length stem
unfolding stem_length ends_with_star
stem_length-stars [] zero h = refl
stem_length-stars [] (suc n) h = ground (arith, stem_length-stars [] n refl)
stem_length-stars (c ∷ []) n h = ground (arith, stem_length-stars [] n refl)
stem_length-stars (c ∷ d ∷ s) n h = ground (arith, stem_length-stars (d ∷ s) n h)

ends_with_star-stars :
    (stem : Bytes) (n : ℕ) → ends_with_star (stem ++ replicate (suc n) b'*') ≡ true
unfolding ends_with_star
ends_with_star-stars [] zero = refl
ends_with_star-stars [] (suc n) = ends_with_star-stars [] n
ends_with_star-stars (c ∷ []) n = ends_with_star-stars [] n
ends_with_star-stars (c ∷ d ∷ s) n = ends_with_star-stars (d ∷ s) n

all_pattern_chars-stars :
    (stem : Bytes) (n : ℕ)
    → all_pattern_chars stem ≡ true
    → all_pattern_chars (stem ++ replicate n b'*') ≡ true
unfolding all_pattern_chars is_pattern_char
all_pattern_chars-stars [] zero h = refl
all_pattern_chars-stars [] (suc n) h = all_pattern_chars-stars [] n refl
all_pattern_chars-stars (c ∷ s) n h = ground (arith, all_pattern_chars-stars s n)

addr_compare_stars :
    (wild in_str : Bytes)
    → ends_with_star wild ≡ true
    → all_pattern_chars wild ≡ true
    → addr_compare wild in_str
      ≡ bytes_eq (take (stem_length wild) wild) (take (stem_length wild) in_str)
unfolding addr_compare ends_with_star
addr_compare_stars [] in_str e a = cc
addr_compare_stars (c ∷ wild) in_str e a = rw (e, a)

compared :
    (stem in_str : Bytes) (n : ℕ)
    → all_pattern_chars stem ≡ true
    → ends_with_star stem ≡ false
    → addr_compare (stem ++ replicate (suc n) b'*') in_str
      ≡ bytes_eq stem (take (length stem) in_str)
compared stem in_str n a e =
    let stars = replicate (suc n) b'*' in
    addr_compare_stars (stem ++ stars) in_str (ends_with_star-stars stem n)
      (all_pattern_chars-stars stem (suc n) a)
    ∙ ap (λ k. bytes_eq (take k (stem ++ stars)) (take k in_str)) (stem_length-stars stem (suc n) e)
    ∙ ap (λ s. bytes_eq s (take (length stem) in_str)) (take-append stem stars)

-- A permitted address made of digits and dots, with stars at its end, admits exactly the names that
-- begin with what stands before those stars; a star before them is an ordinary character.
pub addr_compare_wild :
    (stem in_str : Bytes) (n : ℕ)
    → all_pattern_chars stem ≡ true
    → ends_with_star stem ≡ false
    → (addr_compare (stem ++ replicate (suc n) b'*') in_str ≡ true)
      ↔ ((rest : Bytes) × (in_str ≡ stem ++ rest))
addr_compare_wild stem in_str n a e = (
  λ h.
      let e1 : stem ≡ take (length stem) in_str =
        bytes_eq→eq stem _ (sym (compared stem in_str n a e) ∙ h) in
      (
        drop (length stem) in_str,
        sym (take-append-drop (length stem) in_str)
            ∙ ap (λ s. s ++ drop (length stem) in_str) (sym e1),
      ),
  λ (rest, p).
      compared stem in_str n a e
      ∙ ap (λ s. bytes_eq stem (take (length stem) s)) p
      ∙ ap (bytes_eq stem) (take-append stem rest)
      ∙ bytes_eq_refl stem,
)

abbrev IsIn : Bytes → List Bytes → Type 0
IsIn x [] = ⊥
IsIn x (y ∷ ys) = (x ≡ y) ⊎ IsIn x ys

matches_any_iff :
    (valids : List Bytes) (peer : Bytes)
    → (matches_any valids peer ≡ true)
      ↔ ((valid : Bytes) × IsIn valid valids × (addr_compare valid peer ≡ true))
unfolding matches_any
matches_any_iff [] peer = (λ h. cc, λ (valid, i, e). absurd i)
matches_any_iff (valid ∷ valids) peer = (
  λ h. elim (Bool-cases (addr_compare valid peer)) [
    | inl b ↦ (valid, inl refl, b)
    | inr b ↦ let (v, i, e) = (matches_any_iff valids peer).0 (ground arith) in (v, inr i, e)
  ],
  λ (v, i, e). elim i [
    | inl q ↦ ground (arith, ap (λ w. addr_compare w peer) q)
    | inr j ↦ let rest = (matches_any_iff valids peer).1 (v, j, e) in ground arith
  ],
)

any_peer_iff :
    (valids peers : List Bytes)
    → (any_peer valids peers ≡ true) ↔ (
        (name : Bytes) × (valid : Bytes) × IsIn name peers
        × IsIn valid valids
        × (addr_compare valid name ≡ true))
unfolding any_peer
any_peer_iff valids [] = (λ h. cc, λ (name, valid, i, j, e). absurd i)
any_peer_iff valids (peer ∷ peers) = (
  λ h. elim (Bool-cases (matches_any valids peer)) [
    | inl b ↦ let (valid, i, e) = (matches_any_iff valids peer).0 b in (peer, valid, inl refl, i, e)
    | inr b ↦
        let (name, valid, i, j, e) = (any_peer_iff valids peers).0 (ground arith) in
        (name, valid, inr i, j, e)
  ],
  λ (name, valid, i, j, e). elim i [
    | inl q ↦
        let found : matches_any valids peer ≡ true =
          (matches_any_iff valids peer).1 (valid, j, ap (addr_compare valid) (sym q) ∙ e) in
        ground arith
    | inr k ↦ let rest = (any_peer_iff valids peers).1 (name, valid, k, j, e) in ground arith
  ],
)

-- The names of a peer.
abbrev pub IsPeerName : PeerInfo → Bytes → Type 0
IsPeerName (unnamed none) x = ⊥
IsPeerName (unnamed (some address)) x = x ≡ address
IsPeerName (named name aliases addresses) x = (x ≡ name) ⊎ (IsIn x aliases ⊎ IsIn x addresses)

-- The names of this host.
abbrev pub IsOwnName : HostInfo → Bytes → Type 0
IsOwnName no_hostname x = ⊥
IsOwnName (hostname name none) x = x ≡ name
IsOwnName (hostname name (some full)) x = (x ≡ name) ⊎ (x ≡ full)

-- What admits a peer: two constants, the names of this host, and the entries of the settings.
abbrev pub IsPermitted : HostInfo → List Bytes → Bytes → Type 0
IsPermitted host permitted x =
    (x ≡ codes "localhost") ⊎ ((x ≡ codes "127.0.0.1") ⊎ (IsOwnName host x ⊎ IsIn x permitted))

IsIn-append : (x : Bytes) (xs ys : List Bytes) → IsIn x (xs ++ ys) ↔ (IsIn x xs ⊎ IsIn x ys)
IsIn-append x [] ys = (λ h. inr h, λ h. ground arith)
IsIn-append x (y ∷ xs) ys = ground (arith, IsIn-append x xs ys)

peer_names_iff : (peer : PeerInfo) (x : Bytes) → IsIn x (peer_names peer) ↔ IsPeerName peer x
unfolding peer_names
peer_names_iff (unnamed none) x = (λ h. h, λ h. h)
peer_names_iff (unnamed (some address)) x = ground arith
peer_names_iff (named name aliases addresses) x = ground (arith, IsIn-append x aliases addresses)

own_names_iff : (host : HostInfo) (x : Bytes) → IsIn x (own_names host) ↔ IsOwnName host x
unfolding own_names
own_names_iff no_hostname x = (λ h. h, λ h. h)
own_names_iff (hostname name none) x = ground arith
own_names_iff (hostname name (some full)) x = ground arith

valid_names_iff :
    (host : HostInfo) (permitted : List Bytes) (x : Bytes)
    → IsIn x (valid_names host permitted) ↔ IsPermitted host permitted x
unfolding valid_names
valid_names_iff host permitted x =
    let own = own_names_iff host x in
    let both = IsIn-append x (own_names host) permitted in ground arith

-- A peer is admitted exactly if one of its names, by which its address or its name, an alias or an
-- address that the name service gives is meant, is one that "localhost", "127.0.0.1", a name of this
-- host or an entry of the settings admits by addr_compare.
pub is_valid_peer_iff :
    (peer : PeerInfo) (host : HostInfo) (permitted : List Bytes)
    → (is_valid_peer peer host permitted ≡ true) ↔ (
        (name : Bytes) × (valid : Bytes) × IsPeerName peer name
        × IsPermitted host permitted valid
        × (addr_compare valid name ≡ true))
unfolding is_valid_peer
is_valid_peer_iff peer host permitted =
    let found = any_peer_iff (valid_names host permitted) (peer_names peer) in
    (
      λ h.
          let (name, valid, is_name, is_valid, e) = found.0 h in
          (
            name,
            valid,
            (peer_names_iff peer name).0 is_name,
            (valid_names_iff host permitted valid).0 is_valid,
            e,
          ),
      λ (name, valid, is_name, is_valid, e). found.1 (
        name,
        valid,
        (peer_names_iff peer name).1 is_name,
        (valid_names_iff host permitted valid).1 is_valid,
        e,
      ),
    )
