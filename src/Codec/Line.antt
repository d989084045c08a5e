-- ===== src/Codec/Line.antt =====
-- The three writers of src/codec.cpp, and the record `Op` of src/codec.hpp.
use shrt_cpp.Prelude.{Bool, ◌++◌, Bytes, codes, Int64, ◌==◌, if◌then◌else◌}
use shrt_cpp.Codec.Number.{itoa}
use shrt_cpp.Codec.Escape.{esc}

-- One parsed log line.
pub record Op : Type 0 where
  pub c : Bytes
  pub u : Bytes
  pub h : Bytes
  pub x : Bytes
  pub a : Int64
  pub e : Int64
  pub i : Int64
  pub n : Int64
  pub d : Int64
  pub has_e : Bool

unfoldable pub expiry : Int64 → Bytes
expiry e = if e == 0 then codes "null" else itoa e

unfoldable pub row_line : Bytes → Bytes → Int64 → Int64 → Int64 → Int64 → Bytes
row_line c u a e i n =
    codes "{\"c\":\""
    ++ (c
        ++ (codes "\",\"u\":\""
            ++ (esc u
                ++ (codes "\",\"a\":"
                    ++ (itoa a
                        ++ (codes ",\"e\":"
                            ++ (expiry e
                                ++ (codes ",\"i\":"
                                    ++ (itoa i
                                        ++ (codes ",\"n\":" ++ (itoa n ++ codes "}")))))))))))

unfoldable pub hit_line : Bytes → Int64 → Int64 → Bytes
hit_line c d i =
    codes "{\"h\":\""
    ++ (c ++ (codes "\",\"d\":" ++ (itoa d ++ (codes ",\"i\":" ++ (itoa i ++ codes "}")))))

unfoldable pub del_line : Bytes → Bytes
del_line c = codes "{\"x\":\"" ++ (c ++ codes "\"}")
