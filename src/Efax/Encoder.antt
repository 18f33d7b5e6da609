-- ===== src/Efax/Encoder.antt =====
-- The T.4 encoder of efax/efaxlib.c: newENCODER, putcode and runtocode. A code is below 2 ^ bits, so
-- that `( x << bits ) | code` is a sum; of the bits of a long the lowest 32 are kept, which are more than
-- are ever unsent. The field `pending` is `shift + 8`, the number of bits not yet stored.
pub mod Stream
pub mod Spelling
pub mod Line
use secure_e_fax.Prelude.{
  ℕ, zero, suc, ◌+◌, ◌-◌, ◌*◌, ◌/◌, ◌%◌, ◌^◌, List, [], ◌∷◌, ◌++◌, Bool, true, false, not, Option,
  none, some, ltb, ◌==◌, if◌then◌else◌, get_elem?, length,
}
use secure_e_fax.Text.{Bytes}
use secure_e_fax.Efax.Tables.{T4, wtab, btab}

-- ENCODER
pub record Encoder : Type 0 where
  pub x : ℕ
  pub pending : ℕ

-- newENCODER
abbrev pub new_encoder : Encoder
new_encoder = record { x = 0; pending = 0 }

-- The loop that stores whole bytes, n of them.
unfoldable pub store : ℕ → ℕ → ℕ → Bytes
store zero x pending = []
store (suc n) x pending = x / 2 ^ (pending - 8) % 256 ∷ store n x (pending - 8)

-- The code is joined to the unsent bits, and whole bytes are stored.
unfoldable pub put : Encoder → ℕ → ℕ → Bytes × Encoder
unfolding store
put e code bits =
    let x = (e.x * 2 ^ bits + code) % 2 ^ 32 in
    let pending = e.pending + bits in
    (store (pending / 8) x pending, record { x = x; pending = pending % 8 })

-- putcode; a call with no bits flushes what is left.
unfoldable pub putcode : Encoder → ℕ → ℕ → Bytes × Encoder
unfolding put
putcode e code bits =
    if bits == 0
    then (store 1 ((e.x + code) % 2 ^ 32) 8, record { x = (e.x + code) % 2 ^ 32; pending = 0 })
    else put e code bits

-- MAXRUNS, MAXCODES, MAXRUNLEN
abbrev pub max_runs : ℕ
max_runs = 8192

abbrev pub max_codes : ℕ
max_codes = max_runs * 25 / 8 / 2 + 1

abbrev pub max_run_len : ℕ
max_run_len = 2560 + 63

-- The encoder and the bytes that a call of runtocode has stored.
pub record Sink : Type 0 where
  pub encoder : Encoder
  pub codes : Bytes

abbrev pub push : Sink → Bytes × Encoder → Sink
push s (bytes, e) = record { encoder = e; codes = s.codes ++ bytes }

-- PUTCODE of an entry of the table, if there is room; an index beyond the table reads no code.
unfoldable pub put_entry : Option T4 → Sink → Sink
unfolding put
put_entry none s = s
put_entry (some t) s =
    if ltb (length s.codes) max_codes then push s (put s.encoder t.code t.bits) else s

abbrev pub table : Bool → List T4
table white = if white then wtab else btab

-- The make-up code and the terminating code of a run.
unfoldable pub put_run : List T4 → ℕ → Sink → Sink
unfolding put_entry
put_run tab run s =
    let rlen = if ltb max_run_len run then max_run_len else run in
    let s1 = put_entry (get_elem? tab (63 + rlen / 64)) s in
    put_entry (get_elem? tab (rlen % 64)) (if ltb 63 run then s1 else s)

-- The runs of a line from a run of the colour given; runtocode begins with white.
unfoldable pub put_runs : Bool → List ℕ → Sink → Sink
unfolding put_run
put_runs white [] s = s
put_runs white (run ∷ runs) s = put_runs (not white) runs (put_run (table white) run s)

unfoldable pub runtocode : Encoder → List ℕ → Bytes × Encoder
unfolding put_runs
runtocode e runs =
    let s = put_runs true runs (record { encoder = e; codes = [] }) in (s.codes, s.encoder)
