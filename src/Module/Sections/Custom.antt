-- ===== src/Module/Sections/Custom.antt =====
-- Where the reader stands behind a custom section.
use wembed.Base.{
  ℕ, zero, suc, ◌+◌, ◌-◌, ◌*◌, ◌^◌, ◌<◌, ◌≤◌, ◌≡◌, ◌≢◌, refl, sym, ◌∙◌, ap, arith, true, false,
  List, [], ◌∷◌, ◌++◌, lt→ltb, le→ltb_false, ◌==◌, length, length-append, length-drop, drop,
  drop-append, All, ok, ◌>>=◌,
}
use native.Mathlib.Nat.{mod-eq_of_lt}
use wembed.Reader.Leb.{leb128_encoding}
use wembed.Llvm.{Llvm}
use wembed.Module.{Module}
use wembed.Module.Skip.Immediates.{reads_byte, reads_uleb128, append_assoc}
use wembed.Module.Sections.{name_bytes, same_bytes, names_loop, parse_names, parse_custom_section}

-- A part of the name section, its size in `extra + 1` bytes.
pub record Subsection : Type 0 where
  pub kind : ℕ
  pub extra : ℕ
  pub payload : List ℕ

abbrev pub encode_subsection : Subsection → List ℕ
encode_subsection s = s.kind ∷ (leb128_encoding s.extra (length s.payload) ++ s.payload)

abbrev pub encode_subsections : List Subsection → List ℕ
encode_subsections [] = []
encode_subsections (s ∷ ss) = encode_subsection s ++ encode_subsections ss

-- A part that is not the names of the functions, and whose size is a 32 bit number.
abbrev pub IsOther : Subsection → Type 0
IsOther s =
    (s.kind ≢ 1)
    × (7 * s.extra < 32)
    × (length s.payload < 128 ^ suc s.extra)
    × (length s.payload < 2 ^ 32)

other_kind : (n : ℕ) → n ≢ 1 → (n == 1) ≡ false
other_kind n h = ground arith

part_count : (ss : List Subsection) → length ss ≤ length (encode_subsections ss)
part_count [] = omega arith
part_count (s ∷ ss) =
    omega (arith, part_count ss, length-append (encode_subsection s) (encode_subsections ss))

module _ ⦃L : Llvm⦄ where
  abbrev pub at : Module L → ℕ → Module L
  at m n = record m { reader = record m.reader { current = n } }

  turn :
      (end fuel : ℕ) (s : Subsection) (rest : List ℕ) (m : Module L)
      → IsOther s
      → drop m.reader.current m.reader.input ≡ encode_subsection s ++ rest
      → m.reader.current < end
      → names_loop end (suc fuel) m
        ≡ names_loop end fuel (at m (m.reader.current + length (encode_subsection s)))
  unfolding names_loop ◌>>=◌
  turn end fuel s rest m (other, short, fits, small) here before =
      let size = leb128_encoding s.extra (length s.payload) in
      let first = (reads_byte s.kind).at m.reader ((size ++ s.payload) ++ rest) here in
      let there =
        drop-append m.reader.current (m.reader.current + 1) m.reader.input (s.kind ∷ [])
          (size ++ (s.payload ++ rest))
          (here ∙ ap (λ bs. s.kind ∷ bs) (append_assoc size s.payload rest)) (omega arith) in
      let second =
        (reads_uleb128 32 s.extra (length s.payload) fits short).at
          (record m.reader { current = m.reader.current + 1 }) (s.payload ++ rest) there in
      rw (lt→ltb m.reader.current end before) (
        rw (first, ◌>>=◌)
          (rw (second, ◌>>=◌)
            (rw (other_kind s.kind other, ◌>>=◌)
              (ap (λ n. names_loop end fuel (at m n))
                (omega (arith, length-append size s.payload))))))

  done : (end fuel : ℕ) (m : Module L) → end ≤ m.reader.current → names_loop end fuel m ≡ ok (tt, m)
  unfolding names_loop
  done end zero m h = rw (le→ltb_false m.reader.current end h) refl
  done end (suc fuel) m h = rw (le→ltb_false m.reader.current end h) refl

  others :
      (end fuel : ℕ) (ss : List Subsection) (rest : List ℕ) (m : Module L)
      → All IsOther ss
      → drop m.reader.current m.reader.input ≡ encode_subsections ss ++ rest
      → end ≡ m.reader.current + length (encode_subsections ss)
      → end < 2 ^ 64
      → names_loop end (length ss + fuel) m ≡ ok (tt, at m end)
  others end fuel [] rest m h here e room =
      done end (0 + fuel) m (omega arith) ∙ ap (λ n. ok (tt, at m n)) (omega arith)
  others end fuel (s ∷ ss) rest m (h, hs) here e room =
      let sizes = length-append (encode_subsection s) (encode_subsections ss) in
      let behind = here ∙ append_assoc (encode_subsection s) (encode_subsections ss) rest in
      let n = at m (m.reader.current + length (encode_subsection s)) in
      ap (λ k. names_loop end k m) (omega arith)
      ∙ turn end (length ss + fuel) s (encode_subsections ss ++ rest) m h behind
          (omega (arith, sizes))
      ∙ others end fuel ss rest n hs
          (drop-append m.reader.current n.reader.current m.reader.input (encode_subsection s)
            (encode_subsections ss ++ rest) behind refl)
          (omega (arith, sizes)) room

  names_end :
      (ss : List Subsection) (rest : List ℕ) (m : Module L)
      → All IsOther ss
      → drop m.reader.current m.reader.input ≡ encode_subsections ss ++ rest
      → m.reader.current + length (encode_subsections ss) < 2 ^ 64
      → parse_names (length (encode_subsections ss)) m
        ≡ ok (tt, at m (m.reader.current + length (encode_subsections ss)))
  unfolding parse_names
  names_end ss rest m h here room =
      let end = m.reader.current + length (encode_subsections ss) in
      let left : length (encode_subsections ss ++ rest) ≡ length m.reader.input - m.reader.current =
        ap length (sym here) ∙ length-drop m.reader.current m.reader.input in
      ap (λ e. names_loop e (suc (length m.reader.input)) m) (mod-eq_of_lt room)
      ∙ ap (λ k. names_loop end k m) {x = suc (length m.reader.input)}
          {y = length ss + (suc (length m.reader.input) - length ss)}
          (omega (arith, left, part_count ss, length-append (encode_subsections ss) rest))
      ∙ others end (suc (length m.reader.input) - length ss) ss rest m h here refl room

  -- Behind a section "name" that holds no names of functions the reader does not stand at the end of
  -- the section, but once more the section's size further on: `parse_names` has already read to the
  -- end when `parse_custom_section` adds the size. What follows the section is skipped or misread.
  pub parse_custom_section-name :
      (ss : List Subsection) (rest : List ℕ) (m : Module L)
      → All IsOther ss
      → drop m.reader.current m.reader.input ≡ encode_subsections ss ++ rest
      → m.reader.current + 2 * length (encode_subsections ss) < 2 ^ 64
      → parse_custom_section name_bytes (length (encode_subsections ss)) m
        ≡ ok (tt, at m (m.reader.current + 2 * length (encode_subsections ss)))
  unfolding parse_custom_section ◌>>=◌
  parse_custom_section-name ss rest m h here room =
      let named : same_bytes name_bytes name_bytes ≡ true = refl in
      rw (names_end ss rest m h here (omega arith), ◌>>=◌) (ap (λ n. ok (tt, at m n)) (omega arith))
