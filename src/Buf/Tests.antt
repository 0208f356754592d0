-- ===== src/Buf/Tests.antt =====
-- Instances of the theorems on src/common/buf.c.
use rdpserver.Base.{arith, [], ◌∷◌, replicate}
use rdpserver.Buf.{Buf, put, put_u8, put_u16le, put_u16be, put_u32le, put_u32be}
use rdpserver.Buf.Laws.{IsValid}
use rdpserver.Buf.Outcomes.{IsFrame}
use rdpserver.Buf.RoundTrip.{put-IsFrame}

abbrev eight : Buf
eight = record { bytes = replicate 8 0; cap = 8; pos = 2 }

eight-IsValid : IsValid eight
eight-IsValid = record { backed = omega arith; within = omega arith; small = omega arith }

put-IsFrame_example :
    IsFrame eight (put (1 ∷ 2 ∷ []) eight).1
    × IsFrame eight (put_u8 7 eight).1
    × IsFrame eight (put_u16le 7 eight).1
    × IsFrame eight (put_u16be 7 eight).1
    × IsFrame eight (put_u32le 7 eight).1
    × IsFrame eight (put_u32be 7 eight).1
put-IsFrame_example = put-IsFrame eight (1 ∷ 2 ∷ []) 7 eight-IsValid
