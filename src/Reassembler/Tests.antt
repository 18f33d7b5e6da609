-- ===== src/Reassembler/Tests.antt =====
-- The reassembler's theorems at a stream whose reads cut a character in two.
use secure_e_fax.Prelude.{
  ℕ, suc, ◌+◌, ◌≤◌, ◌≡◌, refl, ◌&&◌, List, [], ◌∷◌, ◌++◌, some, arith, ltb, leb, if◌then◌else◌,
  length, inl, inr,
}
use secure_e_fax.Text.{Bytes, codes}
use secure_e_fax.Reassembler.{buff_size, reassemble, read_pipe_slot, cut_partial}
use secure_e_fax.Reassembler.Stream.{all_shown, concat, reassemble-stored, read_pipe_slot_lossless}

-- The valid prefix of a text of characters of one or two bytes.
short_prefix : Bytes → ℕ
short_prefix [] = 0
short_prefix (c ∷ []) = if ltb c 128 then 1 else 0
short_prefix (c ∷ d ∷ s) =
    let one = suc (short_prefix (d ∷ s)) in
    let two = 2 + short_prefix s in
    if ltb c 128 then one else if leb 192 c && leb 128 d then two else 0

abbrev reads : List Bytes
reads = (codes "caf" ++ 195 ∷ []) ∷ (169 ∷ codes " noir") ∷ []

first_read : reassemble short_prefix [] (codes "caf" ++ 195 ∷ []) ≡ (some (codes "caf"), 195 ∷ [])
unfolding reassemble cut_partial short_prefix
first_read = refl

reassemble-stored_example : length (reassemble short_prefix (195 ∷ []) (195 ∷ [])).1 ≤ buff_size
reassemble-stored_example = reassemble-stored short_prefix (195 ∷ []) (195 ∷ []) (omega arith)

read_pipe_slot_lossless_example :
    all_shown (read_pipe_slot short_prefix [] reads).0 ++ (read_pipe_slot short_prefix [] reads).1
    ≡ concat reads
unfolding reassemble cut_partial short_prefix
read_pipe_slot_lossless_example =
    read_pipe_slot_lossless short_prefix [] reads (inl refl, (inr refl, tt)) (tt, (tt, tt))
