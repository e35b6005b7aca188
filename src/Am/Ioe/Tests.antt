-- ===== src/Am/Ioe/Tests.antt =====
-- A register with a device, read on both kinds of machines.
use cpu_linux.Prelude.{◌≡◌, true, [], ltb, if◌then◌else◌, ok, stop, assertion, undefined}
use cpu_linux.Am.Ioe.{Mmio, nemu_lut, lut_len, initial_lut, ioe_init, ioe_read}
use cpu_linux.Am.Ioe.Routes.{has_row, row_of, ioe_read_lem}

abbrev io : Mmio
io = record { rtc = 5; sync = true; written = [] }

ioe_read_lem_example : ioe_read (ioe_init lut_len (initial_lut nemu_lut)) 11 io ≡ (
    if ltb 11 lut_len
    then (if has_row nemu_lut 11 then ok (row_of nemu_lut 11 io) else stop assertion)
    else stop undefined)
ioe_read_lem_example = ioe_read_lem nemu_lut 11 io
