-- ===== src/Module/Tables/Truncations.antt =====
-- The labels of the switch in `module::parse_section_code` of src/module.cpp for truncations, with
-- the bounds that they test.
use wembed.Base.{ℕ, ◌-◌, ◌^◌, List, [], ◌∷◌}
use wembed.Lang.Opcodes.{
  o_trunc_f32_si32, o_trunc_f64_si32, o_trunc_f32_si64, o_trunc_f64_si64, o_trunc_f32_ui32,
  o_trunc_f64_ui32, o_trunc_f32_ui64, o_trunc_f64_ui64, o_trunc_sat_f32_si32, o_trunc_sat_f32_ui32,
  o_trunc_sat_f64_si32, o_trunc_sat_f64_ui32, o_trunc_sat_f32_si64, o_trunc_sat_f32_ui64,
  o_trunc_sat_f64_si64, o_trunc_sat_f64_ui64,
}
use wembed.Lang.Types.{i32, i64, float, double}
use wembed.Llvm.Instructions.{fp_to_si, fp_to_ui}
use wembed.Utils.{fp_float, fp_double}
use wembed.Module.Action.{Action, truncate, truncate_sat}

-- `WEMBED_TRUNC`
unfoldable pub truncations : List (ℕ × Action)
truncations =
    (
      o_trunc_f32_si32,
      truncate (record {
        conversion = fp_to_si;
        in_type = float;
        out_type = i32;
        fp = fp_float;
        bits_type = i32;
        min = 0xcf000001;
        max = 0x4f000000;
        least = 2 ^ 31;
        greatest = 2 ^ 31 - 1;
      }),
    )
    ∷ (
      o_trunc_f64_si32,
      truncate (record {
        conversion = fp_to_si;
        in_type = double;
        out_type = i32;
        fp = fp_double;
        bits_type = i64;
        min = 0xc1e0000000200000;
        max = 0x41e0000000000000;
        least = 2 ^ 31;
        greatest = 2 ^ 31 - 1;
      }),
    )
    ∷ (
      o_trunc_f32_ui32,
      truncate (record {
        conversion = fp_to_ui;
        in_type = float;
        out_type = i32;
        fp = fp_float;
        bits_type = i32;
        min = 0xbf800000;
        max = 0x4f800000;
        least = 0;
        greatest = 2 ^ 32 - 1;
      }),
    )
    ∷ (
      o_trunc_f64_ui32,
      truncate (record {
        conversion = fp_to_ui;
        in_type = double;
        out_type = i32;
        fp = fp_double;
        bits_type = i64;
        min = 0xbff0000000000000;
        max = 0x41f0000000000000;
        least = 0;
        greatest = 2 ^ 32 - 1;
      }),
    )
    ∷ (
      o_trunc_f32_si64,
      truncate (record {
        conversion = fp_to_si;
        in_type = float;
        out_type = i64;
        fp = fp_float;
        bits_type = i32;
        min = 0xdf000001;
        max = 0x5f000000;
        least = 2 ^ 63;
        greatest = 2 ^ 63 - 1;
      }),
    )
    ∷ (
      o_trunc_f64_si64,
      truncate (record {
        conversion = fp_to_si;
        in_type = double;
        out_type = i64;
        fp = fp_double;
        bits_type = i64;
        min = 0xc3e0000000000001;
        max = 0x43e0000000000000;
        least = 2 ^ 63;
        greatest = 2 ^ 63 - 1;
      }),
    )
    ∷ (
      o_trunc_f32_ui64,
      truncate (record {
        conversion = fp_to_ui;
        in_type = float;
        out_type = i64;
        fp = fp_float;
        bits_type = i32;
        min = 0xbf800000;
        max = 0x5f800000;
        least = 0;
        greatest = 2 ^ 64 - 1;
      }),
    )
    ∷ (
      o_trunc_f64_ui64,
      truncate (record {
        conversion = fp_to_ui;
        in_type = double;
        out_type = i64;
        fp = fp_double;
        bits_type = i64;
        min = 0xbff0000000000000;
        max = 0x43f0000000000000;
        least = 0;
        greatest = 2 ^ 64 - 1;
      }),
    )
    ∷ []

-- `WEMBED_SAT_TRUNC`, by the byte behind `o_prefix_numeric`.
unfoldable pub saturating : List (ℕ × Action)
saturating =
    (
      o_trunc_sat_f32_si32,
      truncate_sat (record {
        conversion = fp_to_si;
        in_type = float;
        out_type = i32;
        fp = fp_float;
        bits_type = i32;
        min = 0xcf000001;
        max = 0x4f000000;
        least = 2 ^ 31;
        greatest = 2 ^ 31 - 1;
      }),
    )
    ∷ (
      o_trunc_sat_f64_si32,
      truncate_sat (record {
        conversion = fp_to_si;
        in_type = double;
        out_type = i32;
        fp = fp_double;
        bits_type = i64;
        min = 0xc1e0000000200000;
        max = 0x41e0000000000000;
        least = 2 ^ 31;
        greatest = 2 ^ 31 - 1;
      }),
    )
    ∷ (
      o_trunc_sat_f32_ui32,
      truncate_sat (record {
        conversion = fp_to_ui;
        in_type = float;
        out_type = i32;
        fp = fp_float;
        bits_type = i32;
        min = 0xbf800000;
        max = 0x4f800000;
        least = 0;
        greatest = 2 ^ 32 - 1;
      }),
    )
    ∷ (
      o_trunc_sat_f64_ui32,
      truncate_sat (record {
        conversion = fp_to_ui;
        in_type = double;
        out_type = i32;
        fp = fp_double;
        bits_type = i64;
        min = 0xbff0000000000000;
        max = 0x41f0000000000000;
        least = 0;
        greatest = 2 ^ 32 - 1;
      }),
    )
    ∷ (
      o_trunc_sat_f32_si64,
      truncate_sat (record {
        conversion = fp_to_si;
        in_type = float;
        out_type = i64;
        fp = fp_float;
        bits_type = i32;
        min = 0xdf000001;
        max = 0x5f000000;
        least = 2 ^ 63;
        greatest = 2 ^ 63 - 1;
      }),
    )
    ∷ (
      o_trunc_sat_f64_si64,
      truncate_sat (record {
        conversion = fp_to_si;
        in_type = double;
        out_type = i64;
        fp = fp_double;
        bits_type = i64;
        min = 0xc3e0000000000001;
        max = 0x43e0000000000000;
        least = 2 ^ 63;
        greatest = 2 ^ 63 - 1;
      }),
    )
    ∷ (
      o_trunc_sat_f32_ui64,
      truncate_sat (record {
        conversion = fp_to_ui;
        in_type = float;
        out_type = i64;
        fp = fp_float;
        bits_type = i32;
        min = 0xbf800000;
        max = 0x5f800000;
        least = 0;
        greatest = 2 ^ 64 - 1;
      }),
    )
    ∷ (
      o_trunc_sat_f64_ui64,
      truncate_sat (record {
        conversion = fp_to_ui;
        in_type = double;
        out_type = i64;
        fp = fp_double;
        bits_type = i64;
        min = 0xbff0000000000000;
        max = 0x43f0000000000000;
        least = 0;
        greatest = 2 ^ 64 - 1;
      }),
    )
    ∷ []
