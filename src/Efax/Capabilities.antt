-- ===== src/Efax/Capabilities.antt =====
-- Capabilities and the T.30 fields that carry them: checkcap, mkdis, dislen, mkcap and mincap of
-- efax/efax.c. A capability is not negative; the messages are left out.
pub mod RoundTrip
pub mod Negotiated
pub mod Tests
use Prim.Native.Nat.{bit_or}
use secure_e_fax.Prelude.{
  ℕ, zero, suc, ◌+◌, ◌-◌, ◌*◌, ◌/◌, ◌%◌, ◌^◌, List, [], ◌∷◌, Bool, true, false, not, ◌&&◌, ◌||◌,
  if◌then◌else◌, ltb, leb, ◌==◌, get_or, set,
}
use secure_e_fax.Text.{Bytes}

-- cap, with the fields of captype
pub record Cap : Type 0 where
  pub vr : ℕ
  pub br : ℕ
  pub wd : ℕ
  pub ln : ℕ
  pub df : ℕ
  pub ec : ℕ
  pub bf : ℕ
  pub st : ℕ

abbrev pub values : Cap → List ℕ
values c = c.vr ∷ c.br ∷ c.wd ∷ c.ln ∷ c.df ∷ c.ec ∷ c.bf ∷ c.st ∷ []

abbrev pub in_range : ℕ → ℕ → ℕ
in_range max c = if ltb max c then 0 else c

-- checkcap, with capmax
unfoldable pub checkcap : Cap → Cap
checkcap c = record {
  vr = in_range 1 c.vr;
  br = in_range 7 c.br;
  wd = in_range 2 c.wd;
  ln = in_range 2 c.ln;
  df = in_range 3 c.df;
  ec = in_range 2 c.ec;
  bf = in_range 1 c.bf;
  st = in_range 7 c.st;
}

-- t30tabst; what a row leaves out is 0, and X is 255.
pub record Field : Type 0 where
  pub byte : ℕ
  pub shift : ℕ
  pub mask : ℕ
  pub safeval : ℕ
  pub captodis : List ℕ
  pub distocap : List ℕ
  pub captodcs : List ℕ
  pub dcstocap : List ℕ

abbrev pub invalid : ℕ
invalid = 255

abbrev row : ℕ → ℕ → ℕ → ℕ → List ℕ → List ℕ → List ℕ → List ℕ → Field
row byte shift mask safeval dis cap dcs dcap = record {
  byte = byte;
  shift = shift;
  mask = mask;
  safeval = safeval;
  captodis = dis;
  distocap = cap;
  captodcs = dcs;
  dcstocap = dcap;
}

abbrev x : ℕ
x = invalid

abbrev bit : List ℕ
bit = 0 ∷ 1 ∷ []

unfoldable pub t30tab : List Field
t30tab =
    row 1 1 1 0 bit bit bit bit
    ∷ row 1 2 15 0 (0 ∷ 4 ∷ 12 ∷ 12 ∷ 13 ∷ 13 ∷ [])
        (0 ∷ x ∷ x ∷ x ∷ 1 ∷ x ∷ x ∷ x ∷ 3 ∷ x ∷ x ∷ x ∷ 3 ∷ 5 ∷ 3 ∷ x ∷ [])
        (0 ∷ 4 ∷ 12 ∷ 8 ∷ 5 ∷ 1 ∷ [])
        (0 ∷ 5 ∷ 5 ∷ x ∷ 1 ∷ 4 ∷ 4 ∷ x ∷ 3 ∷ 7 ∷ x ∷ x ∷ 2 ∷ 6 ∷ x ∷ x ∷ [])
    ∷ row 2 6 3 0 (0 ∷ 2 ∷ 1 ∷ []) (0 ∷ 2 ∷ 1 ∷ 2 ∷ []) (0 ∷ 2 ∷ 1 ∷ []) (0 ∷ 2 ∷ 1 ∷ 2 ∷ [])
    ∷ row 2 4 3 0 (0 ∷ 2 ∷ 1 ∷ []) (0 ∷ 2 ∷ 1 ∷ x ∷ []) (0 ∷ 2 ∷ 1 ∷ []) (0 ∷ 2 ∷ 1 ∷ x ∷ [])
    ∷ row 1 0 1 0 bit bit bit bit
    ∷ row 3 4 3 0 (0 ∷ 2 ∷ 2 ∷ []) (0 ∷ x ∷ 2 ∷ x ∷ []) (0 ∷ 3 ∷ 2 ∷ []) (0 ∷ 0 ∷ 2 ∷ 1 ∷ [])
    ∷ row 5 5 1 0 bit bit bit bit
    ∷ row 2 1 7 7 (7 ∷ 4 ∷ 3 ∷ 2 ∷ 6 ∷ 0 ∷ 5 ∷ 1 ∷ []) (5 ∷ 7 ∷ 3 ∷ 2 ∷ 1 ∷ 6 ∷ 4 ∷ 0 ∷ [])
        (7 ∷ 4 ∷ x ∷ 2 ∷ x ∷ 0 ∷ x ∷ 1 ∷ []) (5 ∷ 7 ∷ 3 ∷ 1 ∷ x ∷ x ∷ x ∷ 0 ∷ [])
    ∷ []

-- The loop of mkdis, for the three bytes that its callers ask for.
unfoldable pub put_values : Bool → List Field → List ℕ → Bytes → Bytes
put_values isdis [] vs fif = fif
put_values isdis (p ∷ ps) [] fif = fif
put_values isdis (p ∷ ps) (v ∷ vs) fif =
    let k = get_or 0 (if isdis then p.captodis else p.captodcs) v in
    let k' = if k == invalid then 0 else k in
    let joined = bit_or (get_or 0 fif p.byte) (k' * 2 ^ p.shift % 256) in
    put_values isdis ps vs (if ltb p.byte 3 then set fif p.byte joined else fif)

-- mkdis, with len at least DCSLEN
unfoldable pub mkdis : Cap → Bool → Bool → Bytes
unfolding put_values checkcap t30tab
mkdis c isdis t4tx =
    put_values isdis t30tab (values (checkcap c))
      (0 ∷ bit_or (if isdis && t4tx then 128 else 0) 64 ∷ 0 ∷ [])

-- dislen from n on, with 125 - n rounds left
unfoldable pub dislen_from : ℕ → ℕ → Bytes → ℕ
dislen_from zero n fif = n
dislen_from (suc f) n fif =
    let longer = dislen_from f (suc n) fif in if get_or 0 fif (n - 1) % 2 == 1 then longer else n

unfoldable pub dislen : Bytes → ℕ
unfolding dislen_from
dislen fif = dislen_from 122 3 fif

-- One field of mkcap: the value, and whether the field is bad.
unfoldable pub read_field : Bool → ℕ → Bytes → Field → ℕ × Bool
read_field dis len fif p =
    let j = get_or 0 fif p.byte / 2 ^ p.shift % (p.mask + 1) in
    let k = get_or 0 (if dis then p.distocap else p.dcstocap) j in
    if leb len p.byte then (0, false) else if k == invalid then (p.safeval, true) else (k, false)

unfoldable pub read_fields : Bool → ℕ → Bytes → List Field → List ℕ × Bool
unfolding read_field
read_fields dis len fif [] = ([], false)
read_fields dis len fif (p ∷ ps) =
    let (v, bad) = read_field dis len fif p in
    let (vs, more) = read_fields dis len fif ps in (v ∷ vs, bad || more)

-- mkcap: the fields of the capability, and whether one was bad.
unfoldable pub mkcap : Bytes → Bool → List ℕ × Bool
unfolding read_fields dislen t30tab
mkcap fif dis = read_fields dis (dislen fif) fif t30tab

-- brindex and msttab
unfoldable pub brindex : ℕ → ℕ
brindex b = get_or 0 (0 ∷ 1 ∷ 2 ∷ 3 ∷ 4 ∷ 7 ∷ 5 ∷ 6 ∷ []) b

unfoldable pub msttab : ℕ → ℕ → ℕ
msttab vr st =
    get_or 0
      (if vr == 0 then 0 ∷ 1 ∷ 3 ∷ 3 ∷ 5 ∷ 5 ∷ 7 ∷ 7 ∷ [] else 0 ∷ 1 ∷ 1 ∷ 3 ∷ 3 ∷ 5 ∷ 5 ∷ 7 ∷ [])
      st

-- mincap: the session's capabilities, and whether they are incompatible. Its loop ends at BR, the second
-- field.
unfoldable pub mincap : Cap → Cap → Cap → Cap × Bool
unfolding checkcap brindex msttab
mincap local remote session =
    let l = checkcap local in
    let r = checkcap remote in
    let vr = if ltb r.vr l.vr then r.vr else l.vr in
    let br = if ltb (brindex r.br) (brindex l.br) then r.br else l.br in
    let s = checkcap (record session { vr = vr; br = br; st = msttab vr r.st }) in
    (s, not (l.wd == s.wd) || ltb s.ln l.ln || not (l.df == s.df))
