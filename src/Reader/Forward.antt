-- ===== src/Reader/Forward.antt =====
-- The reader moves forward over one input, and its loops end.
use wembed.Base.{
  ℕ, zero, suc, ◌+◌, ◌≤◌, ◌≡◌, refl, ◌∙◌, arith, Bool, List, [], ◌∷◌, Option, none, some, get_elem?,
  bit_or, Result, ok, throw, Exception, ◌>>=◌, return, throw_if,
}
use wembed.Base.Runs.{IsRaised, Outcome, Runs, Runs-bind, Runs-return, Runs-throw_if}
use native.Mathlib.Nat.{le_refl, le_trans}
use wembed.Reader.{
  Reader, Parser, Leb128, byte_at, next_byte, parse, group, leb128_loop, leb128_bytes,
  parse_uleb128, extend_sign, parse_sleb128, parse_str,
}

pub record Forward (r s : Reader) : Type 0 where
  pub same_input : s.input ≡ r.input
  pub onward : r.current ≤ s.current

pub Forward-refl : (r : Reader) → Forward r r
Forward-refl r = record { same_input = refl; onward = le_refl r.current }

pub Forward-trans : (r s t : Reader) → Forward r s → Forward s t → Forward r t
Forward-trans r s t p q = record {
  same_input = q.same_input ∙ p.same_input;
  onward = le_trans p.onward q.onward;
}

-- The parser throws no exception of the model, and otherwise moves on.
abbrev pub Advances : {A : Type 0} → Parser A → Type 0
Advances p = Runs Forward p

pub then_ :
    {A B : Type 0} {p : Parser A} {f : A → Parser B}
    → Advances p
    → ((a : A) → Advances (f a))
    → Advances (p >>= f)
then_ h k = Runs-bind Forward-trans h k

pub return-Advances : {A : Type 0} (a : A) → Advances (return {S = Reader} a)
return-Advances a = Runs-return Forward-refl a

pub throw_if-Advances : (b : Bool) (e : Exception) → IsRaised e → Advances (throw_if b e)
throw_if-Advances b e h = Runs-throw_if Forward-refl b e h

byte_at-Outcome : (o : Option ℕ) (r : Reader) → Outcome Forward r (byte_at o r)
byte_at-Outcome none r = tt
byte_at-Outcome (some b) r = record { same_input = refl; onward = omega arith }

pub next_byte-Advances : Advances next_byte
unfolding next_byte
next_byte-Advances = record { at = λ r. byte_at-Outcome (get_elem? r.input r.current) r }

pub parse-Advances : (n : ℕ) → Advances (parse n)
unfolding parse
parse-Advances zero = return-Advances 0
parse-Advances (suc n) =
    then_ next_byte-Advances λ low. then_ (parse-Advances n) λ high. return-Advances _

-- Where the loop ends, behind where it starts.
abbrev Past : ℕ → Result Leb128 → Type 0
Past c (ok l) = c ≤ l.current
Past c (throw e) = IsRaised e

Past-suc : (c : ℕ) (r : Result Leb128) → Past (c + 1) r → Past c r
Past-suc c (ok l) h = omega arith
Past-suc c (throw e) h = h

leb128_loop-Past : (w : ℕ) (l : List ℕ) (shift value c : ℕ) → Past c (leb128_loop w l shift value c)
unfolding leb128_loop
leb128_loop-Past w [] shift value c = tt
leb128_loop-Past w (b ∷ bs) shift value c =
    let value' = bit_or value (group w b shift) in
    let more = leb128_loop w bs (shift + 7) value' (c + 1) in
    ground (arith, Past-suc c more (leb128_loop-Past w bs (shift + 7) value' (c + 1)))

leb128_bytes-Advances : (w : ℕ) → Advances (leb128_bytes w)
unfolding leb128_bytes
leb128_bytes-Advances w = record { at = λ r. read r _ (leb128_loop-Past w _ 0 0 r.current) }
  where
    read :
        (r : Reader) (l : Result Leb128)
        → Past r.current l
        → Outcome Forward r
            (elim l [ ok k ↦ ok (k, record r { current = k.current }) | throw e ↦ throw e ])
    read r (ok k) h = record { same_input = refl; onward = h }
    read r (throw e) h = h

pub parse_uleb128-Advances : (w : ℕ) → Advances (parse_uleb128 w)
unfolding parse_uleb128
parse_uleb128-Advances w = then_ (leb128_bytes-Advances w) λ l. return-Advances _

extend_sign-Advances : (w : ℕ) (l : Leb128) → Advances (extend_sign w l)
unfolding extend_sign
extend_sign-Advances w l = record { at = λ r. ground arith }

pub parse_sleb128-Advances : (w : ℕ) → Advances (parse_sleb128 w)
unfolding parse_sleb128
parse_sleb128-Advances w = then_ (leb128_bytes-Advances w) λ l. extend_sign-Advances w l

pub parse_str-Advances : (size : ℕ) → Advances (parse_str size)
unfolding parse_str
parse_str-Advances size = record { at = λ r. ground arith }
