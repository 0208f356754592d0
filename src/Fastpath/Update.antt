-- ===== src/Fastpath/Update.antt =====
-- src/wire/fastpath.c: the header of a fast-path packet and the updates.
use rdpserver.Base.{
  ℕ, ◌+◌, ◌*◌, ◌/◌, ◌%◌, ◌||◌, Option, none, some, List, [], ◌∷◌, ltb, leb, if◌then◌else◌, length,
}
use rdpserver.Base.{Read, ok, err}
use rdpserver.Buf.Outcomes.{written}
use rdpserver.Buf.{
  Buf, Writer, ◌>>◌ as then_write, done, init, finish, put, put_u8, put_u16le, octet,
}

-- RDP_FP_MAX_PACKET_SIZE
abbrev pub max_packet_size : ℕ
max_packet_size = 0x3fff

-- RDP_FP_FRAGMENT_SINGLE
abbrev pub fragment_single : ℕ
fragment_single = 0

-- RDP_FP_UPDATE_BITMAP, RDP_FP_UPDATE_SYNCHRONIZE, RDP_FP_UPDATE_PTR_DEFAULT and RDP_FP_UPDATE_CACHED
abbrev pub update_bitmap : ℕ
update_bitmap = 1

abbrev pub update_synchronize : ℕ
update_synchronize = 3

abbrev pub update_ptr_default : ℕ
update_ptr_default = 6

abbrev pub update_cached : ℕ
update_cached = 10

-- fp_write_header
unfoldable pub write_header : ℕ → Writer
write_header total = then_write (put_u8 0) (
    if leb total 0x7f
    then put_u8 total
    else then_write (put_u8 (0x80 + total / 256 % 128)) (put_u8 (total % 256)))

-- `total`: the size of the packet for a body of `n` bytes.
abbrev pub total_size : ℕ → ℕ
total_size n = if ltb (1 + 1 + (3 + n)) 0x80 then 1 + 1 + (3 + n) else 1 + 2 + (3 + n)

-- `(update_type & 0x0f) | (fragment << 4)`, in a byte.
abbrev pub update_header : ℕ → ℕ → ℕ
update_header update_type fragment = update_type % 16 + fragment * 16 % 256

unfoldable pub build_update_frag : List ℕ → ℕ → ℕ → ℕ → List ℕ → Option Buf
unfolding write_header
build_update_frag out cap update_type fragment body =
    if ltb cap (total_size (length body)) || ltb 0xffff (length body)
    then none
    else if ltb max_packet_size (total_size (length body))
    then none
    else finish (
        then_write (write_header (total_size (length body)))
          (then_write (put_u8 (update_header update_type fragment))
            (then_write (put_u16le (length body)) (if ltb 0 (length body) then put body else done)))
          (init out cap))

unfoldable pub build_update : List ℕ → ℕ → ℕ → List ℕ → Option Buf
unfolding build_update_frag
build_update out cap update_type body = build_update_frag out cap update_type fragment_single body

unfoldable pub build_synchronize : List ℕ → ℕ → Option Buf
unfolding build_update
build_synchronize out cap = build_update out cap update_synchronize []

unfoldable pub build_pointer_default : List ℕ → ℕ → Option Buf
unfolding build_update
build_pointer_default out cap = build_update out cap update_ptr_default []

unfoldable pub build_pointer_cached : List ℕ → ℕ → ℕ → Option Buf
unfolding build_update
build_pointer_cached out cap cache_index =
    build_update out cap update_cached (octet cache_index 0 ∷ octet cache_index 1 ∷ [])

-- The bytes that a builder has stored, where it returns their number.
abbrev pub bytes_of : Option Buf → Read (List ℕ)
bytes_of none = err
bytes_of (some b) = ok (written b)
