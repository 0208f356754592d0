-- ===== src/Per/Tests.antt =====
-- Instances of the theorems on src/common/per.c.
use rdpserver.Base.{◌≡◌, refl, arith, true, replicate}
use rdpserver.Buf.{Buf, put_u16be}
use rdpserver.Buf.Laws.{IsValid}
use rdpserver.Per.Encode.{write_length}

abbrev four : Buf
four = record { bytes = replicate 4 0; cap = 4; pos = 1 }

four-IsValid : IsValid four
four-IsValid = record { backed = omega arith; within = omega arith; small = omega arith }

long_fits : (write_length 300 four).0 ≡ true
unfolding write_length put_u16be
long_fits = refl
