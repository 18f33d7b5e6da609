-- ===== src/Efax/Decoder.antt =====
-- The T.4 decoder of efax/efaxlib.c (addcode, init1dtab, newDECODER) and readfaxruns of efax/efax.c. The
-- field `avail` is `shift + 9`, the number of bits read and not yet decoded; what tgetd() gives until the
-- end of the data is a list of bytes.
pub mod Checks
pub mod Codes
pub mod Window
pub mod Lookup
pub mod Line
pub mod Eol
pub mod Runs
pub mod AtEnd
use secure_e_fax.Prelude.{
  ℕ, zero, suc, ◌+◌, ◌-◌, ◌*◌, ◌/◌, ◌%◌, ◌^◌, List, [], ◌∷◌, ◌++◌, Bool, true, false, not, ◌&&◌,
  ltb, leb, ◌==◌, if◌then◌else◌, take,
}
use secure_e_fax.Text.{Bytes}
use secure_e_fax.Text.Decimal.{ℤ, pos, negsuc}
use secure_e_fax.Outcome.{Outcome, ok, out_of_fuel, ◌>>=◌}
use secure_e_fax.Efax.Tables.{T4, wtab, btab}
use secure_e_fax.Efax.Encoder.{max_runs}

-- The five tables.
pub data Tab : Type 0 where
  tw1 tw2 tb1 tb2 fill : Tab

-- dtab: the code is 0 where none is complete, -1 for EOL, and otherwise the run length + 1
pub record Dtab : Type 0 where
  pub code : ℤ
  pub bits : ℕ
  pub next : Tab

abbrev pub Table : Type 0
Table = ℕ → Dtab

unfoldable pub addcode : Table → ℕ → ℕ → ℤ → ℕ → Tab → Table
addcode tab cword shift code bits next i =
    if leb (cword * 2 ^ shift) i && ltb i (cword * 2 ^ shift + 2 ^ shift)
    then record { code = code; bits = bits; next = next }
    else tab i

-- One code of a colour, with its position in the T.4 table.
add_entry : T4 → ℕ → Tab → Tab → Tab → Table × Table → Table × Table
unfolding addcode
add_entry p k n1 n2 ot (t1, t2) =
    let next = if ltb 63 k then n1 else ot in
    if leb p.bits 9 then (addcode t1 p.code (9 - p.bits) (pos (p.rlen + 1)) p.bits next, t2) else (
      addcode t1 (p.code / 2 ^ (p.bits - 9)) 0 (pos 0) 4 n2,
      addcode t2 p.code (13 - p.bits) (pos (p.rlen + 1)) (p.bits - 4) next,
    )

unfoldable pub init1dtab : List T4 → ℕ → Tab → Tab → Tab → Table × Table → Table × Table
unfolding add_entry
init1dtab [] k n1 n2 ot tabs = tabs
init1dtab (p ∷ ps) k n1 n2 ot tabs = init1dtab ps (suc k) n1 n2 ot (add_entry p k n1 n2 ot tabs)

-- A table as it is before newDECODER, and one whose codes are all undefined.
abbrev zeroed : Table
zeroed i = record { code = pos 0; bits = 0; next = tw1 }

abbrev undefined : Table
undefined = addcode zeroed 0 9 (pos 0) 1 tw1

-- The tables that newDECODER makes.
unfoldable pub white_tables : Table × Table
unfolding init1dtab wtab addcode
white_tables =
    init1dtab wtab 0 tw1 tw2 tb1
      (addcode undefined 0 0 (pos 0) 4 tw2, addcode undefined 0 2 (pos 0) 7 fill)

unfoldable pub black_tables : Table × Table
unfolding init1dtab btab addcode
black_tables =
    init1dtab btab 0 tb1 tb2 tw1
      (addcode undefined 0 0 (pos 0) 4 tb2, addcode undefined 0 2 (pos 0) 7 fill)

add_eol : ℕ → ℕ → Table → Table
unfolding addcode
add_eol zero i t = t
add_eol (suc n) i t = add_eol n (suc i) (addcode t 1 i (negsuc 0) (9 - i) tw1)

unfoldable pub fill_table : Table
unfolding add_eol addcode
fill_table = add_eol 9 0 (addcode undefined 0 0 (pos 0) 9 fill)

unfoldable pub lookup : Tab → Table
lookup tw1 = white_tables.0
lookup tw2 = white_tables.1
lookup tb1 = black_tables.0
lookup tb2 = black_tables.1
lookup fill = fill_table

-- DECODER with the data still to be read; `ended` tells that `c` is negative.
pub record Reader : Type 0 where
  pub x : ℕ
  pub avail : ℕ
  pub tab : Tab
  pub input : Bytes
  pub ended : Bool

-- The loop that reads until there are nine bits; the end of the data reads as fill and an EOL.
unfoldable pub refill : Bytes → Reader → Reader
refill [] r =
    if ltb r.avail 9
    then record r {
      x = (r.x * 2 ^ 15 + 1) % 2 ^ 32;
      avail = r.avail + 15;
      input = [];
      ended = true;
    }
    else record r { input = [] }
refill (c ∷ s) r =
    let more =
      refill s (record r { x = (r.x * 2 ^ 8 + c) % 2 ^ 32; avail = r.avail + 8; ended = false }) in
    if ltb r.avail 9 then more else record r { input = c ∷ s }

-- One lookup.
unfoldable pub step : Reader → Dtab × Reader
unfolding refill
step r =
    let r1 = refill r.input r in
    let t = lookup r1.tab (r1.x / 2 ^ (r1.avail - 9) % 512) in
    (t, record r1 { tab = t.next; avail = r1.avail - t.bits })

abbrev pub prepend : ℕ → List ℕ × Reader → Outcome (List ℕ × Reader)
prepend code (codes, r) = ok (code ∷ codes, r)

-- The codes up to the EOL.
unfoldable pub read_codes : ℕ → Reader → Outcome (List ℕ × Reader)
unfolding step
read_codes zero r = out_of_fuel
read_codes (suc f) r = elim ((step r).0.code) [
  | pos zero ↦ read_codes f (step r).1
  | pos (suc n) ↦ read_codes f (step r).1 >>= prepend (suc n)
  | negsuc n ↦ ok ([], (step r).1)
]

-- Make-up and terminating codes are combined, and the offset of 1 is taken off.
unfoldable pub combine : List ℕ → List ℕ
combine [] = []
combine (p ∷ []) = (p - 1) ∷ []
combine (p ∷ q ∷ ps) =
    let single = (p - 1) ∷ combine (q ∷ ps) in
    let double = (p + q - 2) ∷ combine ps in if ltb 64 p then double else single

abbrev pub sum : List ℕ → ℕ
sum [] = 0
sum (x ∷ xs) = x + sum xs

-- What readfaxruns returns: EOF, -2, or the number of runs.
pub data Answer : Type 0 where
  eof failed : Answer
  line : List ℕ → ℕ → Answer

-- RTCEOL
abbrev pub rtc_eol : ℕ
rtc_eol = 5

pub record Decoder : Type 0 where
  pub reader : Reader
  pub eolcnt : ℕ

-- The end of readfaxruns; the pixel count is a short, here its bit pattern.
finish : Decoder → List ℕ × Reader → Answer × Decoder
unfolding combine
finish d (codes, r) =
    let runs = combine (take (max_runs - 1) codes) in
    let len = sum runs % 2 ^ 16 in
    let eolcnt = if len == 0 then d.eolcnt + 1 else 0 in
    let err = len == 0 && leb rtc_eol eolcnt in
    (
      if r.ended then failed else if err then eof else line runs len,
      record { reader = r; eolcnt = eolcnt },
    )

unfoldable pub readfaxruns : ℕ → Decoder → Outcome (Answer × Decoder)
unfolding read_codes finish
readfaxruns f d = read_codes f (record d.reader { ended = true }) >>= λ read. ok (finish d read)
