-- ===== src/Examples/Reading.antt =====
-- The readers of inc/wembed/module.hpp and the type hashes of src/utils.cpp on concrete inputs.
use wembed.Base.{◌≡◌, refl, [], ◌∷◌, arith, inl, ok, throw, bad_shift}
use wembed.Reader.{Reader, parse_uleb128, parse_sleb128}
use wembed.Reader.Leb.{parse_uleb128-encoding}
use wembed.Reader.Signed.{negsuc}
use wembed.Reader.Sleb.{parse_sleb128-encoding, parse_sleb128-bad_shift}
use wembed.Lang.Types.{i32, i64}
use wembed.Utils.{hash_fn_type, hash_fn_ctype}
use wembed.Utils.Hash.{hash_fn_type-hash_fn_ctype}
use wembed.Examples.Machine.{machine}

-- 624485, and another byte behind it.
abbrev unsigned : Reader
unsigned = record { input = 0xe5 ∷ 0x8e ∷ 0x26 ∷ 7 ∷ []; current = 0 }

parse_uleb128-encoding_example :
    parse_uleb128 32 unsigned ≡ ok (624485, record unsigned { current = 3 })
parse_uleb128-encoding_example =
    parse_uleb128-encoding unsigned 2 624485 32 (7 ∷ []) refl (omega arith) (omega arith)

-- -123456
abbrev signed : Reader
signed = record { input = 0xc0 ∷ 0xbb ∷ 0x78 ∷ []; current = 0 }

parse_sleb128-encoding_example :
    parse_sleb128 32 signed ≡ ok (4294843840, record signed { current = 3 })
parse_sleb128-encoding_example =
    parse_sleb128-encoding signed 2 32 (negsuc 123455) [] refl (omega arith) (omega arith)
      (inl (omega arith))

-- -1 in five bytes.
abbrev padded : Reader
padded = record { input = 0xff ∷ 0xff ∷ 0xff ∷ 0xff ∷ 0x7f ∷ []; current = 0 }

parse_sleb128-bad_shift_example : parse_sleb128 64 padded ≡ throw bad_shift
parse_sleb128-bad_shift_example =
    parse_sleb128-bad_shift padded 4 64 0 [] refl (omega arith) (omega arith) (omega arith)

hash_fn_type-hash_fn_ctype_example :
    hash_fn_type ⦃L = machine⦄ (record { ret = i32; params = i64 ∷ i32 ∷ [] })
    ≡ hash_fn_ctype ⦃L = machine⦄ i32 (i64 ∷ i32 ∷ [])
hash_fn_type-hash_fn_ctype_example = hash_fn_type-hash_fn_ctype ⦃L = machine⦄ i32 (i64 ∷ i32 ∷ [])
